-- ===== src/Dkim/Tests.antt =====
-- Runs of `verify_dkim`.
use mailgate.Common.{
  length, All, Text, codes, ascii_lower, is_space, strip, split, before, after, has_char, ℕ, ◌≤◌,
  ◌≡◌, refl, true, false, some, [], ◌∷◌,
}
use mailgate.Dkim.{verified, Verifier, returns, asks, verify_dkim}
use mailgate.Dkim.Outcomes.{SomeVerified, verify_dkim-pass}
use mailgate.Dkim.Traffic.{IsAllowed, verify_dkim-IsAllowed}
use mailgate.Dns.{max_dns_queries, dkim_query_re, replied, Resolver, lookup}
use mailgate.Models.{pass, Verification}
use mailgate.Regex.{fullmatch}
use mailgate.Samples.{ascii}

abbrev header : Text
header = codes "v=1; d=example.org; s=sel; b=x"

-- A verifier that asks for the key of a domain, and then accepts.
abbrev asking : ℕ → Verifier
asking index = asks (codes "sel._domainkey.example.org.") 5000 (λ answer. returns (verified true))

abbrev answer_key : Resolver
answer_key name t = replied (some (codes "v=DKIM1; p=x"))

abbrev ticks : ℕ → ℕ
ticks n = n

abbrev verification : Verification
verification = record {
  result = pass;
  signatures =
      record { domain = codes "example.org"; selector = codes "sel"; result = some pass } ∷ [];
  too_many = false;
}

verified_once : (verify_dkim ascii answer_key ticks asking (header ∷ [])).0 ≡ some verification
unfolding verify_dkim split has_char ascii_lower strip before is_space after lookup fullmatch
    dkim_query_re
verified_once = refl

asked_once : length (verify_dkim ascii answer_key ticks asking (header ∷ [])).1 ≡ 1
unfolding verify_dkim split has_char ascii_lower strip before is_space after lookup fullmatch
    dkim_query_re
asked_once = refl

verify_dkim-pass_example : SomeVerified ascii.is_word answer_key ticks asking
verify_dkim-pass_example =
    verify_dkim-pass ascii answer_key ticks asking (header ∷ []) verification verified_once refl

verify_dkim-IsAllowed_example :
    let calls = (verify_dkim ascii answer_key ticks asking (header ∷ [])).1 in
    (length calls ≤ max_dns_queries) × All (IsAllowed ascii.is_word) calls
verify_dkim-IsAllowed_example = verify_dkim-IsAllowed ascii answer_key ticks asking (header ∷ [])
