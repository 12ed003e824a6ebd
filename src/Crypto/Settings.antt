-- ===== src/Crypto/Settings.antt =====
-- app/gateway/crypto.py: the keyrings that `CredentialKeyring.from_settings` returns.
use mailgate.Common.{
  any, All, ok, err, ◌>>=◌, Ensures, Ensures-bind, Ensures-any, Text, codes, if-split, Bool-cases,
  ◌==◌, nat_eq, list_eq, option_eq, ◌≡◌, refl, inl, inr, true, not, Option, none, some, List, [],
  ◌∷◌,
}
use mailgate.Crypto.{
  Cryptography, CredentialKeyring, is_key_id, find_key, key_values, make_fernet, make_key,
  make_keys, with_legacy, ring_of, is_version_one, keys_of, primary_of, ring_of_fields,
  ring_of_document, from_settings,
}
use mailgate.Json.{
  Json, null, string, object, Fields, no_fields, a_field, get, has_exactly, has_unique_keys,
}
use mailgate.Regex.{same}

module _ (c : Cryptography) where
  -- What the settings give: the primary key has a valid identifier and is among the keys, or there is
  -- one old key and no other; and every key is one that the library accepts.
  abbrev pub IsUsablePrimary : CredentialKeyring → Option Text → Type 0
  IsUsablePrimary ring none = (k : Text) × (ring.legacy_keys ≡ k ∷ []) × (c.is_fernet_key k ≡ true)
  IsUsablePrimary ring (some id) =
      (is_key_id id ≡ true)
      × ((k : Text) × (find_key id ring.ring_keys ≡ some k) × (c.is_fernet_key k ≡ true))

  abbrev pub IsUsable : CredentialKeyring → Type 0
  IsUsable ring = IsUsablePrimary ring ring.primary_id

  make_fernet-Ensures : (v : Text) → Ensures (λ k. c.is_fernet_key k ≡ true) (make_fernet c v)
  make_fernet-Ensures v =
      if-split (Ensures (λ k. c.is_fernet_key k ≡ true)) (c.is_fernet_key v) (ok v) (err _) (λ e. e)
        (λ _. tt)

  AreKeys : List (Text × Text) → Type 0
  AreKeys ks = All (λ k. c.is_fernet_key k.1 ≡ true) ks

  make_key-Ensures :
      (id : Text) (v : Json) → Ensures (λ k. c.is_fernet_key k ≡ true) (make_key c id v)
  make_key-Ensures id (string v) = make_fernet-Ensures v
  make_key-Ensures id _ = tt

  make_keys-Ensures : (fs : Fields) → Ensures AreKeys (make_keys c fs)
  unfolding AreKeys
  make_keys-Ensures no_fields = tt
  make_keys-Ensures (a_field id v fs) =
      if-split (Ensures AreKeys) (not (is_key_id id)) (err _) _ (λ _. tt)
        (λ _.
          Ensures-bind (λ k. c.is_fernet_key k ≡ true) AreKeys (make_key c id v) _
            (make_key-Ensures id v)
            (λ k h.
              Ensures-bind AreKeys AreKeys (make_keys c fs) _ (make_keys-Ensures fs)
                (λ ks hs. (h, hs))))

  find_key-AreKeys :
      (id : Text) (ks : List (Text × Text))
      → AreKeys ks
      → any (λ k. k.0 == id) ks ≡ true
      → (k : Text) × (find_key id ks ≡ some k) × (c.is_fernet_key k ≡ true)
  unfolding AreKeys
  find_key-AreKeys id [] h e = cc
  find_key-AreKeys id ((i, v) ∷ ks) (h, hs) e = elim (Bool-cases (i == id)) [
    | inl same ↦ rw same (v, refl, h)
    | inr other' ↦ rw other' (find_key-AreKeys id ks hs (rw other' at e))
  ]

  ring_of-Ensures :
      (legacy primary : Text) (ks : List (Text × Text))
      → is_key_id primary ≡ true
      → AreKeys ks
      → Ensures IsUsable (ring_of c legacy primary ks)
  ring_of-Ensures legacy primary ks valid h = elim (Bool-cases (any (λ k. k.0 == primary) ks)) [
    | inr missing ↦ rw missing tt
    | inl present ↦ rw present (
        Ensures-bind (λ _. Unit {0}) IsUsable (with_legacy c legacy (key_values ks)) _
          (Ensures-any _) (λ old _. (valid, find_key-AreKeys primary ks h present)))
  ]

  primary_of-Ensures : (v : Option Json) → Ensures (λ s. is_key_id s ≡ true) (primary_of c v)
  primary_of-Ensures (some (string s)) =
      if-split (Ensures (λ s. is_key_id s ≡ true)) (is_key_id s) (ok s) (err _) (λ e. e) (λ _. tt)
  primary_of-Ensures (some null) = tt
  primary_of-Ensures _ = tt

  keys_of-Ensures : (v : Option Json) → Ensures AreKeys (keys_of c v)
  keys_of-Ensures (some (object no_fields)) = tt
  keys_of-Ensures (some (object (a_field k v fs))) = make_keys-Ensures (a_field k v fs)
  keys_of-Ensures _ = tt

  ring_of_fields-Ensures :
      (legacy : Text) (fs : Fields) → Ensures IsUsable (ring_of_fields c legacy fs)
  ring_of_fields-Ensures legacy fs =
      elim (Bool-cases (has_exactly (codes "version" ∷ codes "primary" ∷ codes "keys" ∷ []) fs)) [
        | inr wrong ↦ rw wrong tt
        | inl named ↦ elim (Bool-cases (is_version_one c (get (codes "version") fs))) [
          | inr wrong ↦ rw (named, wrong) tt
          | inl one ↦ rw (named, one) (parts (get (codes "primary") fs) (get (codes "keys") fs))
        ]
      ]
    where
      parts :
          (primary ks : Option Json)
          → Ensures IsUsable (primary_of c primary >>= λ id. keys_of c ks >>= ring_of c legacy id)
      parts primary ks =
          Ensures-bind (λ s. is_key_id s ≡ true) IsUsable (primary_of c primary) _
            (primary_of-Ensures primary)
            (λ id valid.
              Ensures-bind AreKeys IsUsable (keys_of c ks) _ (keys_of-Ensures ks)
                (λ ks h. ring_of-Ensures legacy id ks valid h))

  ring_of_document-Ensures :
      (legacy : Text) (v : Option Json) → Ensures IsUsable (ring_of_document c legacy v)
  ring_of_document-Ensures legacy (some (object fs)) =
      if-split (Ensures IsUsable) (has_unique_keys (object fs)) _ (err _)
        (λ _. ring_of_fields-Ensures legacy fs) (λ _. tt)
  ring_of_document-Ensures legacy _ = tt

  pub from_settings-Ensures : (raw legacy : Text) → Ensures IsUsable (from_settings c raw legacy)
  unfolding from_settings
  from_settings-Ensures [] [] = tt
  from_settings-Ensures [] (x ∷ legacy) =
      Ensures-bind (λ k. c.is_fernet_key k ≡ true) IsUsable (make_fernet c (x ∷ legacy)) _
        (make_fernet-Ensures (x ∷ legacy)) (λ k h. (k, refl, h))
  from_settings-Ensures (x ∷ raw) legacy = ring_of_document-Ensures legacy (c.loads (x ∷ raw))
