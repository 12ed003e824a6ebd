-- ===== src/Mail/Policy/Decisions.antt =====
-- What `assess` of app/gateway/mail.py decides.
use mailgate.Common.{
  is_empty, any, contains, contains-append, contains-unique, ◌==◌, nat_eq, list_eq, option_eq, ◌≡◌,
  ap, ◌∙◌, ◌↔◌, ◌⊎◌, Bool, true, false, ◌&&◌, ◌||◌, List, [], ◌∷◌, ◌++◌, arith,
}
use mailgate.Mail.{ParsedMessage}
use mailgate.Mail.Policy.{
  claim_failed, append_if, dkim_reason, collect_reasons, blocking, decide, assess,
}
use mailgate.Models.{
  Signal, dangerous_attachment, prompt_injection_suspected, authentication_failure,
  independent_dkim_failure, independent_dkim_temperror, missing_sender, independent_dkim_pass,
  provider_authentication_pass, manual_review_required, quarantined, low, high, AuthResult, pass,
  fail, temperror, permerror, Authentication, signal_eq, state_eq, auth_eq,
}

-- The independent DKIM result counts as a failure.
abbrev pub dkim_failed : AuthResult → Bool
dkim_failed fail = true
dkim_failed permerror = true
dkim_failed _ = false

contains-append_if :
    (b : Bool) (x s : Signal) (xs : List Signal)
    → contains (append_if b x xs) s ≡ contains xs s || (b && s == x)
contains-append_if true x s xs = contains-append xs (x ∷ []) s ∙ ground arith
contains-append_if false x s xs = ground arith

contains-dkim_reason :
    (r : AuthResult) (s : Signal) (xs : List Signal)
    → contains (dkim_reason r xs) s
      ≡ contains xs s
        || (dkim_failed r && s == independent_dkim_failure)
        || (r == temperror && s == independent_dkim_temperror)
contains-dkim_reason fail s xs = contains-append xs (independent_dkim_failure ∷ []) s ∙ ground arith
contains-dkim_reason permerror s xs =
    contains-append xs (independent_dkim_failure ∷ []) s ∙ ground arith
contains-dkim_reason temperror s xs =
    contains-append xs (independent_dkim_temperror ∷ []) s ∙ ground arith
contains-dkim_reason pass s xs = ground arith
contains-dkim_reason _ s xs = ground arith

-- What `assess` adds to the signals of the parser, before it decides.
abbrev pub added : ParsedMessage → Signal → Bool
added p s =
    (claim_failed p.authentication.provider_claims && s == authentication_failure)
    || ((dkim_failed p.authentication.independent_dkim.result && s == independent_dkim_failure)
        || ((p.authentication.independent_dkim.result == temperror
              && s == independent_dkim_temperror)
            || (is_empty p.sender && s == missing_sender)))

regroup : (c a b d e : Bool) → (((c || a) || b) || d) || e ≡ c || (a || (b || (d || e)))
regroup c a b d e = ground arith

contains-collect_reasons :
    (p : ParsedMessage) (s : Signal)
    → contains (collect_reasons p) s ≡ contains p.signals s || added p s
unfolding collect_reasons
contains-collect_reasons p s =
    simp (contains-append_if, contains-dkim_reason, contains-unique)
      (regroup (contains p.signals s)
        (claim_failed p.authentication.provider_claims && s == authentication_failure)
        (dkim_failed p.authentication.independent_dkim.result && s == independent_dkim_failure)
        (p.authentication.independent_dkim.result == temperror && s == independent_dkim_temperror)
        (is_empty p.sender && s == missing_sender))

none_added :
    (c a b d e : Bool) → c || ((a && false) || ((b && false) || ((d && false) || (e && false)))) ≡ c
none_added c a b d e = ground arith

first_added :
    (c a b d e : Bool)
    → c || ((a && true) || ((b && false) || ((d && false) || (e && false)))) ≡ c || a
first_added c a b d e = ground arith

second_added :
    (c a b d e : Bool)
    → c || ((a && false) || ((b && true) || ((d && false) || (e && false)))) ≡ c || b
second_added c a b d e = ground arith

-- The four blocking reasons, one by one.
blocking_reasons :
    (p : ParsedMessage)
    → (contains (collect_reasons p) dangerous_attachment ≡ contains p.signals dangerous_attachment)
      × (contains (collect_reasons p) authentication_failure
          ≡ contains p.signals authentication_failure
            || claim_failed p.authentication.provider_claims)
      × (contains (collect_reasons p) independent_dkim_failure
          ≡ contains p.signals independent_dkim_failure
            || dkim_failed p.authentication.independent_dkim.result)
      × (contains (collect_reasons p) prompt_injection_suspected
          ≡ contains p.signals prompt_injection_suspected)
blocking_reasons p =
    let cf : Bool = claim_failed p.authentication.provider_claims in
    let df : Bool = dkim_failed p.authentication.independent_dkim.result in
    let te : Bool = p.authentication.independent_dkim.result == temperror in
    let ms : Bool = is_empty p.sender in
    (
      contains-collect_reasons p dangerous_attachment ∙ none_added _ cf df te ms,
      contains-collect_reasons p authentication_failure ∙ first_added _ cf df te ms,
      contains-collect_reasons p independent_dkim_failure ∙ second_added _ cf df te ms,
      contains-collect_reasons p prompt_injection_suspected ∙ none_added _ cf df te ms,
    )

decide-keeps :
    (a : Authentication) (r : List Signal) (s : Signal)
    → contains r s ≡ true
    → contains (decide a r).reasons s ≡ true
unfolding decide
decide-keeps a r s h = ground (
  arith,
  contains-append r (independent_dkim_pass ∷ []) s,
  contains-append r (provider_authentication_pass ∷ []) s,
  contains-append r (manual_review_required ∷ []) s,
  contains-unique (r ++ manual_review_required ∷ []) s,
)

decide-state : (a : Authentication) (r : List Signal) → (decide a r).state ≡ quarantined
unfolding decide
decide-state a r = ground arith

decide-high_iff :
    (a : Authentication) (r : List Signal)
    → ((decide a r).risk ≡ high) ↔ (any (contains r) blocking ≡ true)
unfolding decide
decide-high_iff a r = ground arith

pub decide-low_iff :
    (a : Authentication) (r : List Signal)
    → ((decide a r).risk ≡ low) ↔ (
        (is_empty r ≡ true)
        × (((a.independent_dkim.result == pass) || (a.provider_claims.dmarc == pass)) ≡ true))
unfolding decide
decide-low_iff a [] = ground arith
decide-low_iff a (x ∷ r) = ground arith

-- `assess` never approves a message, and it drops no signal that the parser found.
pub assess-quarantined :
    (p : ParsedMessage)
    → ((assess p).state ≡ quarantined)
      × ((s : Signal) → contains p.signals s ≡ true → contains (assess p).reasons s ≡ true)
unfolding assess
assess-quarantined p = (
  decide-state p.authentication (collect_reasons p),
  λ s h.
      decide-keeps p.authentication (collect_reasons p) s
        (contains-collect_reasons p s ∙ ap (λ b. b || added p s) h),
)

-- The signals for which a message is of high risk, as the parser and the checks give them.
abbrev pub IsBlocked : ParsedMessage → Type 0
IsBlocked p =
    (contains p.signals dangerous_attachment ≡ true)
    ⊎ ((contains p.signals prompt_injection_suspected ≡ true)
        ⊎ ((contains p.signals authentication_failure ≡ true)
            ⊎ ((contains p.signals independent_dkim_failure ≡ true)
                ⊎ ((claim_failed p.authentication.provider_claims ≡ true)
                    ⊎ (dkim_failed p.authentication.independent_dkim.result ≡ true)))))

some_blocking :
    (x y z w c d : Bool)
    → ((x || ((y || c) || ((z || d) || (w || false)))) ≡ true)
      ↔ ((x ≡ true) ⊎ ((w ≡ true) ⊎ ((y ≡ true) ⊎ ((z ≡ true) ⊎ ((c ≡ true) ⊎ (d ≡ true))))))
some_blocking x y z w c d = ground arith

-- A message is of high risk exactly when the parser flagged a dangerous attachment or a suspected
-- injection, when a failure is among its signals, when the provider claims a failure of DMARC, DKIM
-- or SPF, or when the independent DKIM verification failed.
pub assess-high_iff : (p : ParsedMessage) → ((assess p).risk ≡ high) ↔ IsBlocked p
unfolding assess
assess-high_iff p =
    let (e1, e2, e3, e4) = blocking_reasons p in
    let (to, from) =
      some_blocking (contains p.signals dangerous_attachment)
        (contains p.signals authentication_failure) (contains p.signals independent_dkim_failure)
        (contains p.signals prompt_injection_suspected)
        (claim_failed p.authentication.provider_claims)
        (dkim_failed p.authentication.independent_dkim.result) in
    let (up, down) = decide-high_iff p.authentication (collect_reasons p) in
    (λ h. to (rw (e1, e2, e3, e4) at (up h)), λ h. down (rw (e1, e2, e3, e4) (from h)))
