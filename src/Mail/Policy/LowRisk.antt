-- ===== src/Mail/Policy/LowRisk.antt =====
-- Which messages `assess` of app/gateway/mail.py holds to be of low risk.
use mailgate.Common.{
  is_empty, unique, ◌==◌, nat_eq, list_eq, option_eq, ◌≡◌, refl, sym, ◌∙◌, ◌↔◌, Bool, true, false,
  not, ◌&&◌, ◌||◌, List, [], ◌∷◌, arith,
}
use mailgate.Mail.{ParsedMessage}
use mailgate.Mail.Policy.{claim_failed, append_if, dkim_reason, collect_reasons, assess}
use mailgate.Mail.Policy.Decisions.{dkim_failed, decide-low_iff}
use mailgate.Models.{Signal, low, AuthResult, pass, fail, temperror, signal_eq, state_eq, auth_eq}

is_empty-append_if :
    (b : Bool) (x : Signal) (xs : List Signal) → is_empty (append_if b x xs) ≡ is_empty xs && not b
is_empty-append_if true x [] = refl
is_empty-append_if true x (y ∷ xs) = refl
is_empty-append_if false x [] = refl
is_empty-append_if false x (y ∷ xs) = refl

is_empty-dkim_reason :
    (r : AuthResult) (xs : List Signal)
    → is_empty (dkim_reason r xs) ≡ is_empty xs && (not (dkim_failed r) && not (r == temperror))
is_empty-dkim_reason fail [] = refl
is_empty-dkim_reason fail (x ∷ xs) = refl
is_empty-dkim_reason _ [] = refl
is_empty-dkim_reason _ (x ∷ xs) = refl

is_empty-unique : (xs : List Signal) → is_empty (unique xs) ≡ is_empty xs
unfolding unique
is_empty-unique [] = refl
is_empty-unique (x ∷ xs) = refl

is_empty-collect_reasons :
    (p : ParsedMessage)
    → is_empty (collect_reasons p)
      ≡ ((is_empty p.signals && not (claim_failed p.authentication.provider_claims))
          && (not (dkim_failed p.authentication.independent_dkim.result)
              && not (p.authentication.independent_dkim.result == temperror)))
        && not (is_empty p.sender)
unfolding collect_reasons
is_empty-collect_reasons p = simp (is_empty-append_if, is_empty-dkim_reason, is_empty-unique)

low_parts :
    (a b c d e f : Bool)
    → (((((a && not b) && (not c && not d)) && not e) ≡ true) × (f ≡ true))
      ↔ ((a ≡ true) × (e ≡ false) × (b ≡ false) × (c ≡ false) × (d ≡ false) × (f ≡ true))
low_parts a b c d e f = ground arith

-- A message is of low risk exactly when it has a sender and no signal at all, the provider claims no
-- failure, the independent DKIM verification neither failed nor met a temporary error, and DKIM was
-- verified or the provider claims that DMARC passed.
pub assess-low_iff :
    (p : ParsedMessage)
    → ((assess p).risk ≡ low) ↔ (
        (is_empty p.signals ≡ true)
        × (is_empty p.sender ≡ false)
        × (claim_failed p.authentication.provider_claims ≡ false)
        × (dkim_failed p.authentication.independent_dkim.result ≡ false)
        × ((p.authentication.independent_dkim.result == temperror) ≡ false)
        × (((p.authentication.independent_dkim.result == pass)
              || (p.authentication.provider_claims.dmarc == pass))
            ≡ true))
unfolding assess
assess-low_iff p =
    let (up, down) = decide-low_iff p.authentication (collect_reasons p) in
    let (to, from) =
      low_parts (is_empty p.signals) (claim_failed p.authentication.provider_claims)
        (dkim_failed p.authentication.independent_dkim.result)
        (p.authentication.independent_dkim.result == temperror) (is_empty p.sender)
        ((p.authentication.independent_dkim.result == pass)
          || (p.authentication.provider_claims.dmarc == pass)) in
    let e = is_empty-collect_reasons p in
    (λ h. let (k, l) = up h in to (sym e ∙ k, l), λ h. let (k, l) = from h in down (e ∙ k, l))
