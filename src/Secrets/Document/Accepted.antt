-- ===== src/Secrets/Document/Accepted.antt =====
-- scripts/rotate_credential_keyring.py and app/gateway/crypto.py: the application accepts every keyring
-- that the script accepts, with the same keys, and the old key behind them.
use mailgate.Common.{
  any, ok, err, ◌>>=◌, Ensures, Ensures-bind, Ensures-any, Text, codes, ltb, if◌then◌else◌,
  if-split, Bool-cases, ◌==◌, nat_eq, list_eq, option_eq, ℕ, ◌≡◌, refl, sym, ap, inl, inr, Bool,
  true, false, not, ◌||◌, Option, none, some, List, [], ◌∷◌, ◌++◌, append-nil,
}
use mailgate.Crypto.{
  Cryptography, configuration_error, Attempt, CredentialKeyring, is_key_id, key_values, make_key,
  make_keys, with_legacy, ring_of, is_version_one, keys_of, primary_of, ring_of_fields,
  ring_of_document, from_settings,
}
use mailgate.Json.{
  Json, null, boolean, integer, other_number, string, array, object, Fields, no_fields, a_field,
  get, has_exactly, has_unique_keys,
}
use mailgate.Secrets.{duplicate_fields, unsupported_shape, tool}
use mailgate.Secrets.Document.{
  Document, maximum_keys, load_item, load_items, count_fields, load_keys, load_primary,
  with_primary, version_of, load_fields, load_document, load_text,
}

module _ (c : Cryptography) where
  load_item-Ensures :
      (id : Text) (v : Json)
      → Ensures
          (λ item. (is_key_id id ≡ true) × (item.0 ≡ id) × (make_key c id v ≡ ok item.1))
          (load_item c id v)
  load_item-Ensures id (string s) = elim (Bool-cases (is_key_id id)) [
    | inr bad ↦ rw bad tt
    | inl good ↦ elim (Bool-cases (c.is_fernet_key s)) [
      | inr bad ↦ rw (good, bad) tt
      | inl accepted ↦ rw (good, accepted) (refl, refl, refl)
    ]
  ]
  load_item-Ensures id _ = tt

  load_items-Ensures : (fs : Fields) → Ensures (λ ks. make_keys c fs ≡ ok ks) (load_items c fs)
  load_items-Ensures no_fields = refl
  load_items-Ensures (a_field id v fs) =
      Ensures-bind (λ item. (is_key_id id ≡ true) × (item.0 ≡ id) × (make_key c id v ≡ ok item.1)) _
        (load_item c id v) _ (load_item-Ensures id v)
        (λ (i, value) (good, named, made).
          Ensures-bind (λ ks. make_keys c fs ≡ ok ks) (λ ks. make_keys c (a_field id v fs) ≡ ok ks)
            (load_items c fs) _ (load_items-Ensures fs)
            (λ ks rest. rw (good, made, rest, named) refl))

  load_keys-Ensures : (v : Option Json) → Ensures (λ ks. keys_of c v ≡ ok ks) (load_keys c v)
  load_keys-Ensures (some (object no_fields)) = tt
  load_keys-Ensures (some (object (a_field id v fs))) =
      if-split (Ensures (λ ks. make_keys c (a_field id v fs) ≡ ok ks))
        (count_fields c (a_field id v fs) == 0
          || ltb maximum_keys (count_fields c (a_field id v fs)))
        (err _) _ (λ _. tt) (λ _. load_items-Ensures (a_field id v fs))
  load_keys-Ensures _ = tt

  load_primary-Ensures : (v : Option Json) → Ensures (λ s. primary_of c v ≡ ok s) (load_primary c v)
  load_primary-Ensures (some (string s)) = elim (Bool-cases (is_key_id s)) [
    | inr bad ↦ rw bad tt
    | inl good ↦ rw good refl
  ]
  load_primary-Ensures _ = tt

-- What the old key adds to the keys that are tried.
abbrev pub old_keys : Text → List Text
old_keys [] = []
old_keys (x ∷ legacy) = (x ∷ legacy) ∷ []

-- The setting of the old key is empty, or a key.
abbrev pub is_old_key : Cryptography → Text → Bool
is_old_key c [] = true
is_old_key c (x ∷ legacy) = c.is_fernet_key (x ∷ legacy)

module _ (c : Cryptography) (legacy : Text) (valid : is_old_key c legacy ≡ true) where
  with_legacy-old_keys : (ks : List Text) → with_legacy c legacy ks ≡ ok (ks ++ old_keys legacy)
  with_legacy-old_keys ks = by_setting legacy valid
    where
      by_setting :
          (legacy : Text)
          → is_old_key c legacy ≡ true
          → with_legacy c legacy ks ≡ ok (ks ++ old_keys legacy)
      by_setting [] h = ap ok (sym (append-nil ks))
      by_setting (x ∷ legacy) h = rw h refl

  -- The application returns a keyring with the document's keys.
  abbrev pub IsAccepted : Attempt CredentialKeyring → Document → Type 0
  IsAccepted r d =
      (ring : CredentialKeyring) × (r ≡ ok ring)
      × (ring.primary_id ≡ some d.primary)
      × (ring.ring_keys ≡ d.keys)
      × (ring.legacy_keys ≡ key_values d.keys ++ old_keys legacy)

  with_primary-Ensures :
      (v : Json) (primary : Text) (ks : List (Text × Text))
      → Ensures (IsAccepted (ring_of c legacy primary ks)) (with_primary c v primary ks)
  with_primary-Ensures v primary ks = elim (Bool-cases (any (λ k. k.0 == primary) ks)) [
    | inr missing ↦ rw missing tt
    | inl there ↦
        rw (there, with_legacy-old_keys (key_values ks))
          (
            record {
              primary_id = some primary;
              ring_keys = ks;
              legacy_keys = key_values ks ++ old_keys legacy;
            },
            refl,
            refl,
            refl,
            refl,
          )
  ]

  load_fields-Ensures :
      (fs : Fields) → Ensures (IsAccepted (ring_of_fields c legacy fs)) (load_fields c fs)
  load_fields-Ensures fs =
      elim (Bool-cases (has_exactly (codes "version" ∷ codes "primary" ∷ codes "keys" ∷ []) fs)) [
        | inr wrong ↦ rw wrong tt
        | inl named ↦ elim (Bool-cases (is_version_one c (get (codes "version") fs))) [
          | inr wrong ↦ rw (named, wrong) tt
          | inl one ↦ rw (named, one) (parts (get (codes "primary") fs) (get (codes "keys") fs))
        ]
      ]
    where
      parts :
          (primary ks : Option Json)
          → Ensures
              (IsAccepted (primary_of c primary >>= λ id. keys_of c ks >>= ring_of c legacy id))
              (load_primary c primary >>= λ id.
                load_keys c ks >>= with_primary c (version_of c (get (codes "version") fs)) id)
      parts primary ks =
          Ensures-bind (λ s. primary_of c primary ≡ ok s) _ (load_primary c primary) _
            (load_primary-Ensures c primary)
            (λ id named.
              Ensures-bind (λ s. keys_of c ks ≡ ok s) _ (load_keys c ks) _ (load_keys-Ensures c ks)
                (λ s listed. rw (named, listed) (with_primary-Ensures _ id s)))

  -- A document that is no object is refused on both sides.
  refused :
      (b : Bool)
      → Ensures
          (IsAccepted (err configuration_error))
          (if b then err (tool unsupported_shape) else err (tool duplicate_fields))
  refused true = tt
  refused false = tt

  load_document-Ensures :
      (v : Option Json) → Ensures (IsAccepted (ring_of_document c legacy v)) (load_document c v)
  load_document-Ensures (some (object fs)) =
      if-split (Ensures (IsAccepted (ring_of_document c legacy (some (object fs)))))
        (has_unique_keys (object fs)) (load_fields c fs) (err _)
        (λ unique_keys. rw unique_keys (load_fields-Ensures fs)) (λ _. tt)
  load_document-Ensures none = tt
  load_document-Ensures (some null) = refused (has_unique_keys null)
  load_document-Ensures (some (boolean b)) = refused (has_unique_keys (boolean b))
  load_document-Ensures (some (integer n)) = refused (has_unique_keys (integer n))
  load_document-Ensures (some other_number) = refused (has_unique_keys other_number)
  load_document-Ensures (some (string s)) = refused (has_unique_keys (string s))
  load_document-Ensures (some (array xs)) = refused (has_unique_keys (array xs))

  pub load_text-Ensures :
      (x : ℕ) (raw : Text)
      → Ensures (IsAccepted (from_settings c (x ∷ raw) legacy)) (load_text c (x ∷ raw))
  unfolding load_text from_settings
  load_text-Ensures x raw = load_document-Ensures (c.loads (x ∷ raw))

-- The application does not start with an old key that is none.
module _ (c : Cryptography) (legacy : Text) where
  abbrev HasOldKey : {A : Type 0} → A → Type 0
  HasOldKey a = is_old_key c legacy ≡ true

  with_legacy-HasOldKey : (ks : List Text) → Ensures HasOldKey (with_legacy c legacy ks)
  with_legacy-HasOldKey ks = by_setting legacy
    where
      by_setting :
          (legacy : Text) → Ensures (λ _. is_old_key c legacy ≡ true) (with_legacy c legacy ks)
      by_setting [] = refl
      by_setting (x ∷ legacy) = elim (Bool-cases (c.is_fernet_key (x ∷ legacy))) [
        | inl good ↦ rw good refl
        | inr bad ↦ rw bad tt
      ]

  ring_of-HasOldKey :
      (primary : Text) (ks : List (Text × Text)) → Ensures HasOldKey (ring_of c legacy primary ks)
  ring_of-HasOldKey primary ks =
      if-split (Ensures HasOldKey) (not (any (λ k. k.0 == primary) ks)) (err _) _ (λ _. tt)
        (λ _.
          Ensures-bind HasOldKey HasOldKey (with_legacy c legacy (key_values ks)) _
            (with_legacy-HasOldKey (key_values ks)) (λ _ h. h))

  ring_of_fields-HasOldKey : (fs : Fields) → Ensures HasOldKey (ring_of_fields c legacy fs)
  ring_of_fields-HasOldKey fs =
      if-split (Ensures HasOldKey)
        (not (has_exactly (codes "version" ∷ codes "primary" ∷ codes "keys" ∷ []) fs)) (err _) _
        (λ _. tt)
        (λ _.
          if-split (Ensures HasOldKey) (not (is_version_one c (get (codes "version") fs))) (err _) _
            (λ _. tt)
            (λ _.
              Ensures-bind (λ _. Unit {0}) HasOldKey (primary_of c (get (codes "primary") fs)) _
                (Ensures-any _)
                (λ primary _.
                  Ensures-bind (λ _. Unit {0}) HasOldKey (keys_of c (get (codes "keys") fs)) _
                    (Ensures-any _) (λ ks _. ring_of-HasOldKey primary ks))))

  ring_of_document-HasOldKey : (v : Option Json) → Ensures HasOldKey (ring_of_document c legacy v)
  ring_of_document-HasOldKey (some (object fs)) =
      if-split (Ensures HasOldKey) (has_unique_keys (object fs)) (ring_of_fields c legacy fs)
        (err _) (λ _. ring_of_fields-HasOldKey fs) (λ _. tt)
  ring_of_document-HasOldKey none = tt
  ring_of_document-HasOldKey (some null) = tt
  ring_of_document-HasOldKey (some (boolean b)) = tt
  ring_of_document-HasOldKey (some (integer n)) = tt
  ring_of_document-HasOldKey (some other_number) = tt
  ring_of_document-HasOldKey (some (string s)) = tt
  ring_of_document-HasOldKey (some (array xs)) = tt

  pub from_settings-is_old_key :
      (raw : Text) (ring : CredentialKeyring)
      → from_settings c raw legacy ≡ ok ring
      → is_old_key c legacy ≡ true
  unfolding from_settings
  from_settings-is_old_key [] ring h = by_setting legacy h
    where
      by_setting :
          (legacy : Text) → from_settings c [] legacy ≡ ok ring → is_old_key c legacy ≡ true
      by_setting [] h = refl
      by_setting (x ∷ legacy) h = elim (Bool-cases (c.is_fernet_key (x ∷ legacy))) [
        | inl good ↦ good
        | inr bad ↦ cc (rw bad at h)
      ]
  from_settings-is_old_key (x ∷ raw) ring h =
      rw h at (ring_of_document-HasOldKey (c.loads (x ∷ raw)))
