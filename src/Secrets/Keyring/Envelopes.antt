-- ===== src/Secrets/Keyring/Envelopes.antt =====
-- app/gateway/crypto.py: what a keyring that has the keys of another makes of a stored token.
use mailgate.Common.{
  contains, Result, ok, err, Text, Bytes, Bool-cases, Option-cases, ◌==◌, nat_eq, list_eq,
  option_eq, ◌≡◌, refl, ap, ◌∙◌, ◌⊎◌, inl, inr, true, false, Option, none, some, List, [], ◌∷◌,
  arith,
}
use mailgate.Crypto.{
  Cryptography, KeyringError, Attempt, CredentialKeyring, find_key, identify, try_keys, decrypt,
}
use mailgate.Regex.{same}

pub same_ok : {E A : Type 0} {a b : A} → ◌≡◌ {A = Result E A} (ok a) (ok b) → a ≡ b
same_ok h = cc

module _ (c : Cryptography) where
  -- The key of an envelope decides, and not the rest of the ring.
  decrypt-same_key :
      (ring ring' : CredentialKeyring) (id : Text) (value token : Bytes)
      → identify c value ≡ ok (some id, token)
      → find_key id ring'.ring_keys ≡ find_key id ring.ring_keys
      → decrypt c ring' value ≡ decrypt c ring value
  unfolding decrypt
  decrypt-same_key ring ring' id value token named same = rw (named, same) refl

  no_key :
      (ring : CredentialKeyring) (id : Text) (stored token value : Bytes)
      → identify c stored ≡ ok (some id, token)
      → find_key id ring.ring_keys ≡ none
      → decrypt c ring stored ≡ ok value
      → ⊥
  unfolding decrypt
  no_key ring id stored token value named missing h = cc (rw (named, missing) at h)

  not_named :
      (ring : CredentialKeyring) (stored value : Bytes) (e : KeyringError)
      → identify c stored ≡ err e
      → decrypt c ring stored ≡ ok value
      → ⊥
  unfolding decrypt
  not_named ring stored value e named h = cc (rw named at h)

  -- A key of the ring that decrypts an unnamed token to another text than `value`.
  abbrev pub HasOtherKey : CredentialKeyring → Bytes → Bytes → Type 0
  HasOtherKey ring token value =
      (k : Text) × (v : Bytes) × (contains ring.legacy_keys k ≡ true)
      × (c.fernet_decrypt k token ≡ some v)
      × (v == value ≡ false)

  -- What `ring` makes of a stored token, by the key that it names: it decrypts it to `value`. A token that
  -- names no key is tried with all retained, and so also with one that might decrypt it to another text.
  abbrev pub IsKept : CredentialKeyring → Bytes → Bytes → Attempt (Option Text × Bytes) → Type 0
  IsKept ring stored value (ok (some id, token)) = decrypt c ring stored ≡ ok value
  IsKept ring stored value (ok (none, token)) =
      (decrypt c ring stored ≡ ok value) ⊎ HasOtherKey ring token value
  IsKept ring stored value (err e) = ⊥

  try_keys-found :
      (ks : List Text) (token value : Bytes)
      → try_keys c ks token ≡ ok value
      → (k : Text) × (contains ks k ≡ true) × (c.fernet_decrypt k token ≡ some value)
  try_keys-found [] token value h = cc
  try_keys-found (k ∷ ks) token value h = elim (Option-cases (c.fernet_decrypt k token)) [
    | inl e ↦
        let (j, there, opened) = try_keys-found ks token value (rw (try_keys, e) at h) in
        (j, ground (arith, there), opened)
    | inr (v, e) ↦ (
      k,
      rw ((list_eq.agrees k k).1 refl) refl,
      e ∙ ap (λ w. some w) (same_ok (rw (try_keys, e) at h)),
    )
  ]

  try_keys-first :
      (ks : List Text) (k : Text) (token value : Bytes)
      → contains ks k ≡ true
      → c.fernet_decrypt k token ≡ some value
      → (j : Text) × (v : Bytes) × (contains ks j ≡ true)
        × (c.fernet_decrypt j token ≡ some v)
        × (try_keys c ks token ≡ ok v)
  try_keys-first [] k token value there h = cc
  try_keys-first (j ∷ ks) k token value there h = elim (Option-cases (c.fernet_decrypt j token)) [
    | inr (v, e) ↦ (j, v, rw ((list_eq.agrees j j).1 refl) refl, e, rw (try_keys, e) refl)
    | inl e ↦ elim (Bool-cases (k == j)) [
      | inl same' ↦ let equal : k ≡ j = (list_eq.agrees k j).0 same' in cc (rw equal at h, e)
      | inr other' ↦
          let (i, v, there_too, opened, tried) =
            try_keys-first ks k token value (rw other' at there) h in
          (i, v, ground (arith, there_too), opened, rw (try_keys, e) tried)
    ]
  ]

  -- `ring'` has every named key of `ring`, and tries every key that `ring` tries.
  abbrev pub HasKeysOf : CredentialKeyring → CredentialKeyring → Type 0
  HasKeysOf ring ring' =
      ((id : Text)
        → (find_key id ring.ring_keys ≡ none)
          ⊎ (find_key id ring'.ring_keys ≡ find_key id ring.ring_keys))
      × ((k : Text) → (contains ring.legacy_keys k ≡ false) ⊎ (contains ring'.legacy_keys k ≡ true))

  unnamed_token :
      (ring ring' : CredentialKeyring) (stored token value : Bytes)
      → HasKeysOf ring ring'
      → identify c stored ≡ ok (none, token)
      → decrypt c ring stored ≡ ok value
      → (decrypt c ring' stored ≡ ok value) ⊎ HasOtherKey ring' token value
  unfolding decrypt
  unnamed_token ring ring' stored token value retained unnamed h =
      let (k, there, opened) = try_keys-found ring.legacy_keys token value (rw unnamed at h) in
      let (j, v, there_too, opened_by, tried) =
        try_keys-first ring'.legacy_keys k token value (still k there (retained.1 k)) opened in
      elim (Bool-cases (v == value)) [
        | inl same' ↦ inl (rw unnamed (tried ∙ ap (λ w. ok w) ((list_eq.agrees v value).0 same')))
        | inr differs' ↦ inr (j, v, there_too, opened_by, differs')
      ]
    where
      still :
          (k : Text)
          → contains ring.legacy_keys k ≡ true
          → (contains ring.legacy_keys k ≡ false) ⊎ (contains ring'.legacy_keys k ≡ true)
          → contains ring'.legacy_keys k ≡ true
      still k there (inl absent') = cc (there, absent')
      still k there (inr h) = h

  named_token :
      (ring ring' : CredentialKeyring) (id : Text) (stored token value : Bytes)
      → HasKeysOf ring ring'
      → identify c stored ≡ ok (some id, token)
      → decrypt c ring stored ≡ ok value
      → decrypt c ring' stored ≡ ok value
  named_token ring ring' id stored token value retained named h = by_key (retained.0 id) named h
    where
      by_key :
          (find_key id ring.ring_keys ≡ none)
            ⊎ (find_key id ring'.ring_keys ≡ find_key id ring.ring_keys)
          → identify c stored ≡ ok (some id, token)
          → decrypt c ring stored ≡ ok value
          → decrypt c ring' stored ≡ ok value
      by_key (inl missing) named h = absurd (no_key ring id stored token value named missing h)
      by_key (inr kept) named h = decrypt-same_key ring ring' id stored token named kept ∙ h

  pub stored_token :
      (ring ring' : CredentialKeyring) (stored value : Bytes)
      → HasKeysOf ring ring'
      → decrypt c ring stored ≡ ok value
      → IsKept ring' stored value (identify c stored)
  stored_token ring ring' stored value retained h = by_name (identify c stored) refl
    where
      by_name :
          (r : Attempt (Option Text × Bytes)) → identify c stored ≡ r → IsKept ring' stored value r
      by_name (ok (some id, token)) named =
          named_token ring ring' id stored token value retained named h
      by_name (ok (none, token)) named =
          unnamed_token ring ring' stored token value retained named h
      by_name (err e) named = not_named ring stored value e named h
