-- ===== src/Dkim/Traffic.antt =====
-- The bound on DNS traffic of app/gateway/authentication.py, whatever the DKIM library asks.
use mailgate.Common.{
  length, all, length-append, All, All-append, Text, Bytes, ascii_lower, rstrip, Unicode, ltb,
  if-split, Bool-cases, ◌==◌, nat_eq, list_eq, option_eq, ℕ, suc, ◌+◌, ◌-◌, ◌≤◌, ◌<◌, min, ◌≡◌, ap,
  inl, inr, Bool, true, false, Option, none, some, List, [], ◌∷◌, ◌++◌, arith,
}
use mailgate.Dkim.{
  max_dkim_signatures, signature_metadata, Verifier, returns, asks, run_verifier, then_rest,
  check_unless, check_signatures, finished, verify_signatures, verify_dkim,
}
use mailgate.Dns.{
  max_dns_queries, dns_timeout, dns_total_timeout, dkim_query_re, Answer, Resolver, Budget,
  new_budget, is_ascii, take_answer, ask_resolver, guarded_lookup, lookup,
}
use mailgate.Models.{AuthResult, Signature, Verification, signal_eq, state_eq, auth_eq}
use mailgate.Regex.{same, fullmatch}
use mailgate.Samples.{ascii}

module _ (is_word : ℕ → Bool) where
  -- One question to the resolver: its name, its timeout, and the time that was left.
  pub record IsAllowed (call : Text × ℕ × ℕ) : Type 0 where
    pub shape : fullmatch is_word dkim_query_re call.0 ≡ true
    pub within_timeout : call.1 ≤ dns_timeout
    pub within_remaining : call.1 ≤ call.2
    pub some_left : 0 < call.2
    pub remaining_bound : call.2 ≤ dns_total_timeout

  pub record IsBounded (b : Budget) : Type 0 where
    pub below_queries : length b.calls ≤ b.queries
    pub below_max : length b.calls ≤ max_dns_queries
    pub allowed : All IsAllowed b.calls

take_answer-calls : (a : Answer) (b : Budget) → (take_answer a b).1.calls ≡ b.calls
take_answer-calls a b = ground arith

take_answer-queries : (a : Answer) (b : Budget) → (take_answer a b).1.queries ≡ b.queries
take_answer-queries a b = ground arith

module _ (is_word : ℕ → Bool) (resolver : Resolver) (clock : ℕ → ℕ) where
  ask_resolver-IsBounded :
      (decoded : Text) (t remaining : ℕ) (b : Budget)
      → fullmatch is_word dkim_query_re decoded ≡ true
      → 0 < remaining
      → remaining ≤ dns_total_timeout
      → suc (length b.calls) ≤ b.queries
      → b.queries ≤ max_dns_queries
      → All (IsAllowed is_word) b.calls
      → IsBounded is_word (ask_resolver resolver decoded t remaining b).1
  unfolding ask_resolver
  ask_resolver-IsBounded decoded t remaining b shape left bound counted few allowed =
      let within : ℕ = min (min t dns_timeout) remaining in
      let b' : Budget = record b { calls = b.calls ++ (decoded, within, remaining) ∷ [] } in
      let a : Answer = resolver decoded within in
      let longer : length b'.calls ≡ length b.calls + 1 =
        length-append b.calls ((decoded, within, remaining) ∷ []) in
      record {
        below_queries =
            omega (arith, take_answer-queries a b', ap length (take_answer-calls a b'), longer);
        below_max = omega (arith, ap length (take_answer-calls a b'), longer);
        allowed = rw (take_answer-calls a b') (
            All-append (IsAllowed is_word) b.calls ((decoded, within, remaining) ∷ []) allowed (
              record {
                shape = shape;
                within_timeout = omega arith;
                within_remaining = omega arith;
                some_left = left;
                remaining_bound = bound;
              },
              tt,
            ));
      }

  guarded_lookup-IsBounded :
      (name : Bytes) (t remaining : ℕ) (b : Budget)
      → remaining ≤ dns_total_timeout
      → suc (length b.calls) ≤ b.queries
      → length b.calls ≤ max_dns_queries
      → All (IsAllowed is_word) b.calls
      → IsBounded is_word (guarded_lookup is_word resolver clock name t remaining b).1
  unfolding guarded_lookup
  guarded_lookup-IsBounded name t remaining b bound counted few allowed =
      let decoded : Text = rstrip (same b'.') (ascii_lower name) in
      let kept : (e : Bool) → IsBounded is_word (record b { last_error = some e }) =
        λ e. record { below_queries = omega arith; below_max = few; allowed = allowed } in
      elim (Bool-cases (ltb max_dns_queries b.queries)) [
        | inl e ↦ rw e (kept false)
        | inr within ↦ elim (Bool-cases (remaining == 0)) [
          | inl e ↦ rw (within, e) (kept true)
          | inr left ↦ elim (Bool-cases (all is_ascii name)) [
            | inr e ↦ rw (within, left, e) (kept false)
            | inl ascii ↦ elim (Bool-cases (fullmatch is_word dkim_query_re decoded)) [
              | inr e ↦ rw (within, left, ascii, e) (kept false)
              | inl shape ↦
                  rw (within, left, ascii, shape)
                    (ask_resolver-IsBounded decoded t remaining b shape (ground arith) bound counted
                      (ground arith) allowed)
            ]
          ]
        ]
      ]

  lookup-IsBounded :
      (name : Bytes) (t : ℕ) {b : Budget}
      → IsBounded is_word b
      → IsBounded is_word (lookup is_word resolver clock name t b).1
  unfolding lookup
  lookup-IsBounded name t {b} h =
      let b' : Budget = record b { queries = b.queries + 1 } in
      guarded_lookup-IsBounded name t (dns_total_timeout - (clock b'.queries - b'.started_at)) b'
        (omega arith) (omega arith) h.below_max h.allowed

  run_verifier-IsBounded :
      (v : Verifier) {b : Budget}
      → IsBounded is_word b
      → IsBounded is_word (run_verifier is_word resolver clock v b).1
  unfolding run_verifier
  run_verifier-IsBounded (returns o) h = h
  run_verifier-IsBounded (asks name t k) {b} h =
      run_verifier-IsBounded (k (lookup is_word resolver clock name t b).0)
        (lookup-IsBounded name t h)

  module _ (verifier : ℕ → Verifier) where
    check_unless-IsBounded :
        (r : Option AuthResult) (index : ℕ) (s : Signature) {b : Budget}
        → IsBounded is_word b
        → IsBounded is_word (check_unless is_word resolver clock verifier r index s b).1
    unfolding check_unless
    check_unless-IsBounded (some _) index s h = h
    check_unless-IsBounded none index s h =
        run_verifier-IsBounded (verifier index)
          (record { below_queries = h.below_queries; below_max = h.below_max; allowed = h.allowed })

    then_rest-IsBounded :
        (p : Option Signature × Budget) (rest : Budget → Option (List Signature) × Budget)
        → IsBounded is_word p.1
        → ((b : Budget) → IsBounded is_word b → IsBounded is_word (rest b).1)
        → IsBounded is_word (then_rest p rest).1
    then_rest-IsBounded (none, b) rest h k = h
    then_rest-IsBounded (some s, b) rest h k = k b h

    check_signatures-IsBounded :
        (index : ℕ) (ss : List Signature) {b : Budget}
        → IsBounded is_word b
        → IsBounded is_word (check_signatures is_word resolver clock verifier index ss b).1
    unfolding check_signatures
    check_signatures-IsBounded index [] h = h
    check_signatures-IsBounded index (s ∷ ss) {b} h =
        then_rest-IsBounded (check_unless is_word resolver clock verifier s.result index s b)
          (check_signatures is_word resolver clock verifier (suc index) ss)
          (check_unless-IsBounded s.result index s h)
          (λ b' k. check_signatures-IsBounded (suc index) ss k)

module _ (u : Unicode) (resolver : Resolver) (clock : ℕ → ℕ) (verifier : ℕ → Verifier) where
  abbrev IsModest : Option Verification × List (Text × ℕ × ℕ) → Type 0
  IsModest r = (length r.1 ≤ max_dns_queries) × All (IsAllowed u.is_word) r.1

  finished-IsModest :
      (r : Option (List Signature) × Budget)
      → IsBounded u.is_word r.1
      → IsModest (finished u resolver clock verifier r)
  finished-IsModest (none, b) h = (h.below_max, h.allowed)
  finished-IsModest (some ss, b) h = (h.below_max, h.allowed)

  verify_signatures-IsModest :
      (ss : List Signature) → IsModest (verify_signatures u resolver clock verifier ss)
  unfolding verify_signatures
  verify_signatures-IsModest [] = (omega arith, tt)
  verify_signatures-IsModest (s ∷ ss) =
      if-split IsModest (ltb max_dkim_signatures (length (s ∷ ss))) _ _ (λ _. (omega arith, tt))
        (λ _.
          finished-IsModest
            (check_signatures u.is_word resolver clock verifier 0 (s ∷ ss) (new_budget (clock 0)))
            (check_signatures-IsBounded u.is_word resolver clock verifier 0 (s ∷ ss)
              (record { below_queries = omega arith; below_max = omega arith; allowed = tt })))

-- Whatever the message and the DKIM library do, one message costs at most five questions to the
-- resolver, each for a name of the shape of a DKIM key and with a timeout of at most five seconds
-- that fits in what is left, above zero, of the eight seconds that the message has.
pub verify_dkim-IsAllowed :
    (u : Unicode) (resolver : Resolver) (clock : ℕ → ℕ) (verifier : ℕ → Verifier)
    (values : List Text)
    → let calls = (verify_dkim u resolver clock verifier values).1 in
      (length calls ≤ max_dns_queries) × All (IsAllowed u.is_word) calls
verify_dkim-IsAllowed u resolver clock verifier values =
    unfold verify_dkim in
    verify_signatures-IsModest u resolver clock verifier (signature_metadata u values)
