-- ===== src/Dkim.antt =====
-- app/gateway/authentication.py, the verification: `_signature_metadata` and `verify_dkim`. What the
-- DKIM library does with one signature is a `Verifier`: it asks for TXT records through the
-- callback, as often as it likes, and then returns or raises.
pub mod Traffic
pub mod Outcomes
mod Tests
use mailgate.Common.{
  length, take, is_empty, is_some, contains, Text, Bytes, codes, is_space, strip, split, before,
  after, has_char, Unicode, ltb, if◌then◌else◌, ◌==◌, nat_eq, list_eq, option_eq, ℕ, suc, Bool,
  true, false, ◌||◌, Option, none, some, List, [], ◌∷◌, map,
}
use mailgate.Dns.{Resolver, Budget, new_budget, lookup}
use mailgate.Models.{
  AuthResult, pass, fail, absent, temperror, permerror, Signature, Verification, signal_eq,
  state_eq, auth_eq,
}

abbrev pub max_dkim_signatures : ℕ
max_dkim_signatures = 5

-- A tag of a header: the text before the first `=`, stripped and in lower case, and the rest.
abbrev pub Tags : Type 0
Tags = List (Text × Text)

abbrev pub tag : Text → Tags → Option Text
tag k [] = none
tag k ((j, v) ∷ ts) = if j == k then some v else tag k ts

abbrev pub set_tag : Text → Text → Tags → Tags
set_tag k v [] = (k, v) ∷ []
set_tag k v ((j, w) ∷ ts) = if j == k then (k, v) ∷ ts else (j, w) ∷ set_tag k v ts

abbrev pub or_empty : Option Text → Text
or_empty none = []
or_empty (some s) = s

module _ (u : Unicode) where
  -- the loop over `str(value).split(";")`; the Boolean is `duplicate`
  unfoldable pub read_tags : List Text → Tags → Bool → Tags × Bool
  read_tags [] tags duplicate = (tags, duplicate)
  read_tags (item ∷ items) tags duplicate =
      let key : Text = u.lower (strip is_space (before b'=' item)) in
      let absent = read_tags items tags duplicate in
      let found =
        read_tags items (set_tag key (strip is_space (after b'=' item)) tags)
          (duplicate || is_some (tag key tags)) in
      if has_char b'=' item then found else absent

  abbrev pub signature_of : Tags × Bool → Signature
  signature_of (tags, duplicate) =
      let d : Text = or_empty (tag (codes "d") tags) in
      let s : Text = or_empty (tag (codes "s") tags) in
      record {
        domain = take 253 d;
        selector = take 63 s;
        result = if duplicate || is_empty d || is_empty s then some permerror else none;
      }

  -- `_signature_metadata`, from the values of the DKIM-Signature headers.
  unfoldable pub signature_metadata : List Text → List Signature
  unfolding read_tags
  signature_metadata values = map (λ v. signature_of (read_tags (split b';' v) [] false)) values

pub data Outcome : Type 0 where
  verified : Bool → Outcome
  -- `dkim.ValidationError`
  validation_error : Outcome
  -- `dkim.DKIMException`, `ValueError`, `IndexError`
  dkim_exception : Outcome
  -- any other exception, which `verify_dkim` does not catch
  other_exception : Outcome

pub data Verifier : Type 0 where
  returns : Outcome → Verifier
  asks : Bytes → ℕ → (Option Bytes → Verifier) → Verifier

module _ (is_word : ℕ → Bool) (resolver : Resolver) (clock : ℕ → ℕ) where
  -- `verifier.verify(idx=index, dnsfunc=budget.lookup)`
  unfoldable pub run_verifier : Verifier → Budget → Outcome × Budget
  run_verifier (returns o) b = (o, b)
  run_verifier (asks name t k) b =
      let (v, b') = lookup is_word resolver clock name t b in run_verifier (k v) b'

abbrev pub of_last_error : Option Bool → AuthResult
of_last_error none = fail
of_last_error (some true) = temperror
of_last_error (some false) = permerror

-- The result that the loop gives a signature; `none` is an exception that leaves it.
unfoldable pub signature_result : Outcome → Option Bool → Option AuthResult
signature_result (verified true) e = some pass
signature_result (verified false) e = some (of_last_error e)
signature_result validation_error e = some fail
signature_result dkim_exception e = some permerror
signature_result other_exception e = none

abbrev pub with_result : Signature → Option AuthResult → Option Signature
with_result s none = none
with_result s (some r) = some (record s { result = some r })

abbrev pub cons_checked : Option (List Signature) → Signature → Option (List Signature)
cons_checked none s = none
cons_checked (some ss) s = some (s ∷ ss)

abbrev pub then_rest :
    Option Signature × Budget
    → (Budget → Option (List Signature) × Budget)
    → Option (List Signature) × Budget
then_rest (none, b) rest = (none, b)
then_rest (some s, b) rest = let (ss, b') = rest b in (cons_checked ss s, b')

module _ (is_word : ℕ → Bool) (resolver : Resolver) (clock : ℕ → ℕ) (verifier : ℕ → Verifier) where
  -- The body of the loop for a signature with no result yet.
  unfoldable pub check_signature : ℕ → Signature → Budget → Option Signature × Budget
  unfolding run_verifier signature_result
  check_signature index s b =
      let (o, b') =
        run_verifier is_word resolver clock (verifier index) (record b { last_error = none }) in
      (with_result s (signature_result o b'.last_error), b')

  -- The body of the loop; `result` is that of `s`.
  unfoldable pub check_unless :
      Option AuthResult → ℕ → Signature → Budget → Option Signature × Budget
  unfolding check_signature
  check_unless (some _) index s b = (some s, b)
  check_unless none index s b = check_signature index s b

  -- The loop over the signatures, with the budget that they share.
  unfoldable pub check_signatures : ℕ → List Signature → Budget → Option (List Signature) × Budget
  unfolding check_unless
  check_signatures index [] b = (some [], b)
  check_signatures index (s ∷ ss) b =
      then_rest (check_unless s.result index s b) (check_signatures (suc index) ss)

-- `r in results`
abbrev pub has_result : AuthResult → List Signature → Bool
has_result r ss = contains (map (λ s. s.result) ss) (some r)

-- The result of the message, from those of its signatures.
unfoldable pub summarise : List Signature → AuthResult
summarise ss =
    if has_result pass ss
    then pass
    else if has_result temperror ss
    then temperror
    else if has_result permerror ss
    then permerror
    else fail

module _ (u : Unicode) (resolver : Resolver) (clock : ℕ → ℕ) (verifier : ℕ → Verifier) where
  abbrev pub finished : Option (List Signature) × Budget → Option Verification × List (Text × ℕ × ℕ)
  finished (none, b) = (none, b.calls)
  finished (some ss, b) =
      (some (record { result = summarise ss; signatures = ss; too_many = false }), b.calls)

  -- `verify_dkim`, from the values of the DKIM-Signature headers; `none` is an exception. The
  -- second part is what the resolver was asked.
  unfoldable pub verify_signatures : List Signature → Option Verification × List (Text × ℕ × ℕ)
  unfolding check_signatures summarise
  verify_signatures [] = (some (record { result = absent; signatures = []; too_many = false }), [])
  verify_signatures (s ∷ ss) =
      if ltb max_dkim_signatures (length (s ∷ ss))
      then (
        some (record {
          result = permerror;
          signatures = take max_dkim_signatures (s ∷ ss);
          too_many = true;
        }),
        [],
      )
      else finished
          (check_signatures u.is_word resolver clock verifier 0 (s ∷ ss) (new_budget (clock 0)))

  unfoldable pub verify_dkim : List Text → Option Verification × List (Text × ℕ × ℕ)
  unfolding signature_metadata verify_signatures
  verify_dkim values = verify_signatures (signature_metadata u values)
