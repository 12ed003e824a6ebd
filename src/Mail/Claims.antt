-- ===== src/Mail/Claims.antt =====
-- app/gateway/mail.py: `parse_authentication_results`, and the trusted identifiers that
-- app/gateway/ingestion.py gives it.
pub mod Trusted
use mailgate.Common.{
  is_empty, filter, contains, Text, codes, is_space, strip, split, before, Unicode, if◌then◌else◌,
  ◌==◌, nat_eq, list_eq, option_eq, ℕ, Bool, not, ◌||◌, Option, none, some, List, [], ◌∷◌, map,
}
use mailgate.Models.{
  AuthResult, pass, fail, softfail, neutral, absent, temperror, permerror, unknown, Claims,
  signal_eq, state_eq, auth_eq,
}
use mailgate.Regex.{
  Regex, chars, alt, at_start, word_of, folded_letter, fold_char, folded_word, all_of, search_group,
}

-- `(?:^|[;\s])method=`
abbrev pub method_prefix : Text → Regex
method_prefix method = all_of (
    alt at_start (chars (λ c. c == b';' || is_space c))
    ∷ folded_word method
    ∷ word_of (codes "=")
    ∷ [])

-- `[a-zA-Z_-]` under `re.IGNORECASE`
abbrev pub claim_char : ℕ → Bool
claim_char c = folded_letter c || c == b'_' || c == b'-'

-- The results that the code knows.
abbrev pub known_results : List (Text × AuthResult)
known_results =
    (codes "pass", pass)
    ∷ (codes "fail", fail)
    ∷ (codes "softfail", softfail)
    ∷ (codes "neutral", neutral)
    ∷ (codes "none", absent)
    ∷ (codes "temperror", temperror)
    ∷ (codes "permerror", permerror)
    ∷ []

abbrev pub lookup_result : Text → List (Text × AuthResult) → AuthResult
lookup_result word [] = unknown
lookup_result word ((w, r) ∷ rs) = if w == word then r else lookup_result word rs

unfoldable pub result_of : Text → AuthResult
result_of word = lookup_result word known_results

-- `candidate if candidate in {...} else "unknown"`
abbrev pub word_or_unknown : Text → Text
word_or_unknown word = elim (result_of word) [ unknown ↦ codes "unknown" | _ ↦ word ]

abbrev pub no_claims : Claims
no_claims = record {
  spf = unknown;
  dkim = unknown;
  dmarc = unknown;
  arc = unknown;
  authserv_id = [];
}

abbrev pub claim_or_unknown : Option Text → AuthResult
claim_or_unknown none = unknown
claim_or_unknown (some word) = result_of word

abbrev pub id_or : Text → Option Text → Text
id_or authserv none = authserv
id_or authserv (some word) = word_or_unknown word

module _ (u : Unicode) where
  abbrev pub lower_option : Option Text → Option Text
  lower_option none = none
  lower_option (some s) = some (u.lower s)

  -- the search for one method in the header, in lower case
  unfoldable pub claim : Text → Text → Option Text
  unfolding search_group folded_letter fold_char is_space
  claim method header =
      lower_option (search_group u.is_word (method_prefix method) claim_char none header)

  -- `value.split(";", 1)[0].strip().lower()`
  unfoldable pub authserv_of : Text → Text
  unfolding before strip is_space
  authserv_of header = u.lower (strip is_space (before b';' header))

  -- What one trusted header claims. The loop runs over every key of `result`, and so over
  -- `authserv_id` too.
  unfoldable pub claims_of : Text → Claims
  unfolding claim authserv_of result_of
  claims_of header = record {
    spf = claim_or_unknown (claim (codes "spf") header);
    dkim = claim_or_unknown (claim (codes "dkim") header);
    dmarc = claim_or_unknown (claim (codes "dmarc") header);
    arc = claim_or_unknown (claim (codes "arc") header);
    authserv_id = id_or (authserv_of header) (claim (codes "authserv_id") header);
  }

  -- The loop over the headers, up to the first trusted one.
  unfoldable pub first_trusted : List Text → List Text → Claims
  unfolding claims_of
  first_trusted [] trusted = no_claims
  first_trusted (header ∷ headers) trusted =
      let rest = first_trusted headers trusted in
      if contains trusted (authserv_of header) then claims_of header else rest

  -- `parse_authentication_results`
  unfoldable pub parse_authentication_results : List Text → List Text → Claims
  unfolding first_trusted
  parse_authentication_results headers [] = no_claims
  parse_authentication_results headers (t ∷ ts) = first_trusted headers (t ∷ ts)

  abbrev pub trimmed : Text → Text
  trimmed item = u.lower (strip is_space item)

  -- `{item.strip().lower() for item in ids.split(",") if item.strip()}` of `_store_message`
  unfoldable pub trusted_ids : Text → List Text
  unfolding split strip is_space
  trusted_ids ids =
      map trimmed (filter (λ item. not (is_empty (strip is_space item))) (split b',' ids))
