-- ===== src/Dkim/Outcomes.antt =====
-- When `verify_dkim` of app/gateway/authentication.py says that a message passed.
use mailgate.Common.{
  length, All, Text, split, Unicode, ltb, Bool-cases, ◌==◌, nat_eq, list_eq, option_eq, ℕ, suc, ◌≡◌,
  refl, sym, ◌≢◌, inl, inr, Bool, true, false, Option, none, some, List, [], ◌∷◌, arith,
}
use mailgate.Dkim.{
  max_dkim_signatures, read_tags, signature_of, signature_metadata, Outcome, verified, Verifier,
  run_verifier, signature_result, with_result, cons_checked, then_rest, check_unless,
  check_signatures, has_result, summarise, finished, verify_signatures, verify_dkim,
}
use mailgate.Dns.{Resolver, Budget}
use mailgate.Models.{AuthResult, pass, Signature, Verification, signal_eq, state_eq, auth_eq}

cons_checked-some :
    (r : Option (List Signature)) (s : Signature) (out : List Signature)
    → cons_checked r s ≡ some out
    → (ss : List Signature) × (r ≡ some ss) × (out ≡ s ∷ ss)
cons_checked-some none s out h = cc
cons_checked-some (some ss) s out h = (ss, refl, ground arith)

then_rest-some :
    (p : Option Signature × Budget) (rest : Budget → Option (List Signature) × Budget)
    (out : List Signature)
    → (then_rest p rest).0 ≡ some out
    → (s : Signature) × (ss : List Signature) × (p.0 ≡ some s)
      × ((rest p.1).0 ≡ some ss)
      × (out ≡ s ∷ ss)
then_rest-some (none, b) rest out h = cc
then_rest-some (some s, b) rest out h =
    let (ss, e, k) = cons_checked-some (rest b).0 s out h in (s, ss, refl, e, k)

-- What `_signature_metadata` leaves: no signature has passed.
abbrev NotPassed : Signature → Type 0
NotPassed s = s.result ≢ some pass

with_result-pass :
    (s t : Signature) (r : Option AuthResult)
    → with_result s r ≡ some t
    → t.result ≡ some pass
    → r ≡ some pass
with_result-pass s t none h k = cc
with_result-pass s t (some r) h k = ground arith

signature_result-pass :
    (o : Outcome) (e : Option Bool) → signature_result o e ≡ some pass → o ≡ verified true
unfolding signature_result
signature_result-pass o e h = ground arith

module _ (is_word : ℕ → Bool) (resolver : Resolver) (clock : ℕ → ℕ) (verifier : ℕ → Verifier) where
  -- The library's verification of some signature, run with the bounded callback, said yes.
  abbrev pub SomeVerified : Type 0
  SomeVerified =
      (i : ℕ) × (b : Budget) × ((run_verifier is_word resolver clock (verifier i) b).0
        ≡ verified true)

  check_unless-pass :
      (r : Option AuthResult) (index : ℕ) (s t : Signature) (b : Budget)
      → r ≡ s.result
      → NotPassed s
      → (check_unless is_word resolver clock verifier r index s b).0 ≡ some t
      → t.result ≡ some pass
      → SomeVerified
  unfolding check_unless
  check_unless-pass (some r) index s t b e np h k = absurd (np (ground arith))
  check_unless-pass none index s t b e np h k = (
    index,
    record b { last_error = none },
    signature_result-pass _ _ (with_result-pass s t _ h k),
  )

  check_signatures-pass :
      (index : ℕ) (ss out : List Signature) (b : Budget)
      → All NotPassed ss
      → (check_signatures is_word resolver clock verifier index ss b).0 ≡ some out
      → has_result pass out ≡ true
      → SomeVerified
  unfolding check_signatures
  check_signatures-pass index [] out b np h k = absurd (ground arith)
  check_signatures-pass index (s ∷ ss) out b (n, np) h k =
      let (t, ts, e, f, g) =
        then_rest-some (check_unless is_word resolver clock verifier s.result index s b)
          (check_signatures is_word resolver clock verifier (suc index) ss) out h in
      elim (Bool-cases (some pass == t.result)) [
        | inl found ↦
            check_unless-pass s.result index s t b refl n e
              (sym ((option_eq.agrees (some pass) t.result).0 found))
        | inr missed ↦ check_signatures-pass (suc index) ss ts _ np f (rw missed at (rw g at k))
      ]

summarise-pass : (ss : List Signature) → summarise ss ≡ pass → has_result pass ss ≡ true
unfolding summarise
summarise-pass ss h = ground arith

some_result : {v w : Verification} → some v ≡ some w → v.result ≡ w.result
some_result h = ground arith

module _ (u : Unicode) where
  signature_of-NotPassed : (t : List (Text × Text) × Bool) → NotPassed (signature_of u t)
  signature_of-NotPassed (tags, duplicate) h = ground arith

  metadata-NotPassed : (values : List Text) → All NotPassed (signature_metadata u values)
  unfolding signature_metadata
  metadata-NotPassed [] = tt
  metadata-NotPassed (v ∷ vs) =
      (signature_of-NotPassed (read_tags u (split b';' v) [] false), metadata-NotPassed vs)

  module _ (resolver : Resolver) (clock : ℕ → ℕ) (verifier : ℕ → Verifier) where
    finished-pass :
        (r : Option (List Signature) × Budget) (v : Verification)
        → (finished u resolver clock verifier r).0 ≡ some v
        → v.result ≡ pass
        → (out : List Signature) × (r.0 ≡ some out) × (has_result pass out ≡ true)
    finished-pass (none, b) v h k = cc
    finished-pass (some ss, b) v h k = (ss, refl, summarise-pass ss (cc (some_result h)))

    verify_signatures-pass :
        (ss : List Signature) (v : Verification)
        → All NotPassed ss
        → (verify_signatures u resolver clock verifier ss).0 ≡ some v
        → v.result ≡ pass
        → SomeVerified u.is_word resolver clock verifier
    unfolding verify_signatures
    verify_signatures-pass [] v np h k = ground arith
    verify_signatures-pass (s ∷ ss) v np h k =
        elim (Bool-cases (ltb max_dkim_signatures (length (s ∷ ss)))) [
          | inl many ↦ absurd (cc (some_result (rw many at h)))
          | inr few ↦
              let (out, e, f) = finished-pass _ v (rw few at h) k in
              check_signatures-pass u.is_word resolver clock verifier 0 (s ∷ ss) out _ np e f
        ]

-- `verify_dkim` reports `pass` only if the DKIM library, run on the message with the bounded
-- callback, verified one of its signatures: no header, no DNS error and no limit makes it report it.
pub verify_dkim-pass :
    (u : Unicode) (resolver : Resolver) (clock : ℕ → ℕ) (verifier : ℕ → Verifier)
    (values : List Text) (v : Verification)
    → (verify_dkim u resolver clock verifier values).0 ≡ some v
    → v.result ≡ pass
    → SomeVerified u.is_word resolver clock verifier
unfolding verify_dkim
verify_dkim-pass u resolver clock verifier values v h k =
    verify_signatures-pass u resolver clock verifier (signature_metadata u values) v
      (metadata-NotPassed u values) h k
