-- ===== src/Mail/Policy.antt =====
-- app/gateway/mail.py: `classify` and `assess`, the deterministic policy.
pub mod Decisions
pub mod LowRisk
use mailgate.Common.{
  take, is_empty, any, contains, unique, Text, codes, is_infix, Unicode, if◌then◌else◌, ◌==◌,
  nat_eq, list_eq, option_eq, ℕ, Bool, ◌&&◌, List, [], ◌∷◌, ◌++◌,
}
use mailgate.Mail.{ParsedMessage}
use mailgate.Models.{
  Signal, dangerous_attachment, prompt_injection_suspected, authentication_failure,
  independent_dkim_failure, independent_dkim_temperror, missing_sender, independent_dkim_pass,
  provider_authentication_pass, manual_review_required, signals, State, quarantined, Risk, low,
  medium, high, AuthResult, pass, fail, softfail, temperror, permerror, Claims, Authentication,
  signal_eq, state_eq, auth_eq,
}

abbrev pub finance_words : List Text
finance_words = codes "invoice" ∷ codes "rechnung" ∷ codes "payment" ∷ codes "zahlung" ∷ []

abbrev pub calendar_words : List Text
calendar_words = codes "meeting" ∷ codes "termin" ∷ codes "appointment" ∷ codes "calendar" ∷ []

abbrev pub newsletter_words : List Text
newsletter_words = codes "newsletter" ∷ codes "unsubscribe" ∷ codes "abmelden" ∷ []

-- Category, priority and summary.
pub record Classification : Type 0 where
  pub category : Text
  pub priority : ℕ
  pub summary : Text

abbrev pub or_message : Text → Text
or_message [] = codes "Message"
or_message (c ∷ s) = c ∷ s

-- `any(word in value for word in words)`
abbrev pub mentions : List Text → Text → Bool
mentions ws value = any (λ w. is_infix w value) ws

-- `f"{parsed.subject}\n{parsed.text[:5000]}".lower()`
unfoldable pub searched_text : Unicode → ParsedMessage → Text
searched_text u parsed = u.lower (parsed.subject ++ codes "\n" ++ take 5000 parsed.text)

unfoldable pub classify : Unicode → ParsedMessage → Classification
classify u parsed =
    let value : Text = searched_text u parsed in
    if mentions finance_words value
    then record { category = codes "finance"; priority = 2; summary = codes "Financial message" }
    else if mentions calendar_words value
    then record {
      category = codes "calendar";
      priority = 2;
      summary = codes "Calendar-related message";
    }
    else if mentions newsletter_words value
    then record { category = codes "newsletter"; priority = 4; summary = codes "Newsletter" }
    else record {
      category = codes "general";
      priority = 3;
      summary = take 240 (or_message parsed.subject);
    }

pub record Assessment : Type 0 where
  pub risk : Risk
  pub state : State
  pub reasons : List Signal

abbrev pub failed_claims : List AuthResult
failed_claims = fail ∷ softfail ∷ permerror ∷ temperror ∷ []

abbrev pub claim_failed : Claims → Bool
claim_failed c = any (contains failed_claims) (c.dmarc ∷ c.dkim ∷ c.spf ∷ [])

abbrev pub append_if : Bool → Signal → List Signal → List Signal
append_if b s xs = if b then xs ++ s ∷ [] else xs

abbrev pub dkim_reason : AuthResult → List Signal → List Signal
dkim_reason fail xs = xs ++ independent_dkim_failure ∷ []
dkim_reason permerror xs = xs ++ independent_dkim_failure ∷ []
dkim_reason temperror xs = xs ++ independent_dkim_temperror ∷ []
dkim_reason _ xs = xs

-- `reasons` before the decision
unfoldable pub collect_reasons : ParsedMessage → List Signal
collect_reasons parsed =
    let known : List Signal = unique parsed.signals in
    let claimed : List Signal =
      append_if (claim_failed parsed.authentication.provider_claims) authentication_failure known in
    let checked : List Signal = dkim_reason parsed.authentication.independent_dkim.result claimed in
    append_if (is_empty parsed.sender) missing_sender checked

abbrev pub blocking : List Signal
blocking =
    dangerous_attachment ∷ authentication_failure ∷ independent_dkim_failure
    ∷ prompt_injection_suspected ∷ []

-- the decision, from the reasons
unfoldable pub decide : Authentication → List Signal → Assessment
decide a reasons =
    if any (contains reasons) blocking
    then record { risk = high; state = quarantined; reasons = reasons }
    else if (a.independent_dkim.result == pass) && is_empty reasons
    then record { risk = low; state = quarantined; reasons = reasons ++ independent_dkim_pass ∷ [] }
    else if (a.provider_claims.dmarc == pass) && is_empty reasons
    then record {
      risk = low;
      state = quarantined;
      reasons = reasons ++ provider_authentication_pass ∷ [];
    }
    else record {
      risk = medium;
      state = quarantined;
      reasons = unique (reasons ++ manual_review_required ∷ []);
    }

unfoldable pub assess : ParsedMessage → Assessment
unfolding collect_reasons decide
assess parsed = decide parsed.authentication (collect_reasons parsed)
