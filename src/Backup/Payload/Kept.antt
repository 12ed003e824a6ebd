-- ===== src/Backup/Payload/Kept.antt =====
-- scripts/backup.py and scripts/restore.py: the keys and the dump are read back from a payload.
use mailgate.Backup.{pack}
use mailgate.Backup.Header.{unpack-pack, take-append, drop-append}
use mailgate.Backup.Payload.{
  BackupError, BundleLibraries, payload_magic, max_bundle_bytes, KeyFile, absent, unreadable, holds,
  sized_bundle, bundle_of, bundle_values, credential_bundle, dict_of, check_item, check_items,
  check_bundle, read_credential_bundle,
}
use mailgate.Common.{
  length, is_empty, all, Result, ok, ◌>>=◌, Text, Bytes, codes, is_space, strip, ltb, leb,
  Bool-cases, ℕ, ◌≤◌, ◌≡◌, refl, inl, inr, Bool, true, false, not, ◌&&◌, some, List, [], ◌∷◌, ◌++◌,
  arith,
}
use mailgate.Json.{Json, string, object, Fields, a_field}

-- The key file, if there is one, holds more than space, and the ASCII characters that its decoding lets
-- pass.
unfoldable pub is_filled : KeyFile → Bool
unfolding strip is_space
is_filled (holds s) = all (λ x. ltb x 128) s && not (is_empty (strip is_space s))
is_filled _ = true

-- What `json` does: a bundle of ASCII texts that was written, with its keys sorted, is read, and what is
-- written is not empty.
pub record IsBundle (l : BundleLibraries) : Type 0 where
  pub reads :
      (master_key master_keyring : KeyFile) (fs : Fields)
      → is_filled master_key ≡ true
      → is_filled master_keyring ≡ true
      → bundle_values master_key master_keyring ≡ ok fs
      → l.loads (l.dumps fs) ≡ some (object fs)
  pub writes : (fs : Fields) → 1 ≤ length (l.dumps fs)

-- The entry of a key file.
unfoldable pub kept_key : Text → KeyFile → List (Text × Text)
unfolding strip is_space
kept_key name (holds s) = (name, strip is_space s) ∷ []
kept_key name _ = []

module _ (l : BundleLibraries) where
  read_credential_bundle-sized :
      (encoded dump : Bytes)
      → 1 ≤ length encoded
      → length encoded ≤ max_bundle_bytes
      → read_credential_bundle l ((payload_magic ++ (pack (length encoded) ++ encoded)) ++ dump)
        ≡ (check_bundle (l.loads encoded) >>= λ bundle. ok (bundle, dump))
  unfolding read_credential_bundle pack
  read_credential_bundle-sized encoded dump some' few =
      rw
        (
          unpack-pack (length encoded) (omega arith),
          fits (length encoded) some' few,
          take-append (length encoded) encoded dump refl,
          drop-append (length encoded) encoded dump refl,
        )
        refl
    where
      fits : (n : ℕ) → 1 ≤ n → n ≤ max_bundle_bytes → leb 1 n && leb n max_bundle_bytes ≡ true
      fits n h k = ground arith

some_ok : (a b : Bytes) → Path (Result BackupError Bytes) (ok a) (ok b) → a ≡ b
some_ok a b h = ground arith

sized_bundle_lem :
    (encoded prefix : Bytes)
    → sized_bundle encoded ≡ ok prefix
    → (length encoded ≤ max_bundle_bytes)
      × (payload_magic ++ (pack (length encoded) ++ encoded) ≡ prefix)
sized_bundle_lem encoded prefix h = elim (Bool-cases (ltb max_bundle_bytes (length encoded))) [
  | inl bad ↦ cc (rw bad at h)
  | inr fits ↦ (within (length encoded) fits, some_ok _ _ (rw fits at h))
]
  where
    within : (n : ℕ) → ltb max_bundle_bytes n ≡ false → n ≤ max_bundle_bytes
    within n h = ground arith

module _ (l : BundleLibraries) (good : IsBundle l) (prefix dump : Bytes) where
  bundle_of-Reads :
      (name : Text) (value : Json) (fs : Fields) (items : List (Text × Text))
      → l.loads (l.dumps (a_field name value fs)) ≡ some (object (a_field name value fs))
      → bundle_of l (a_field name value fs) ≡ ok prefix
      → check_items (dict_of (a_field name value fs) []) ≡ ok items
      → read_credential_bundle l (prefix ++ dump) ≡ ok (items, dump)
  bundle_of-Reads name value fs items loaded h checked =
      let encoded : Bytes = l.dumps (a_field name value fs) in
      let (few, written) = sized_bundle_lem encoded prefix h in
      rw
        (
          ← written,
          read_credential_bundle-sized l encoded dump (good.writes _) few,
          loaded,
          checked,
        )
        refl

  master_key :
      (v : Text)
      → is_empty v ≡ false
      → check_item (codes "master_key", string v) ≡ ok (codes "master_key", v)
  master_key [] h = cc
  master_key (c ∷ v) h = refl

  master_keyring :
      (v : Text)
      → is_empty v ≡ false
      → check_item (codes "master_keyring", string v) ≡ ok (codes "master_keyring", v)
  master_keyring [] h = cc
  master_keyring (c ∷ v) h = refl

  filled : (s : Text) → is_filled (holds s) ≡ true → is_empty (strip is_space s) ≡ false
  unfolding is_filled
  filled s h = second (all (λ x. ltb x 128) s) (is_empty (strip is_space s)) h
    where
      second : (a b : Bool) → a && not b ≡ true → b ≡ false
      second a b h = ground arith

  pub credential_bundle-Reads :
      (first second : KeyFile)
      → is_filled first ≡ true
      → is_filled second ≡ true
      → credential_bundle l first second ≡ ok prefix
      → read_credential_bundle l (prefix ++ dump)
        ≡ ok (kept_key (codes "master_key") first ++ kept_key (codes "master_keyring") second, dump)
  unfolding credential_bundle kept_key
  credential_bundle-Reads unreadable absent a b h = cc
  credential_bundle-Reads unreadable (holds t) a b h = cc
  credential_bundle-Reads absent unreadable a b h = cc
  credential_bundle-Reads (holds s) unreadable a b h = cc
  credential_bundle-Reads unreadable unreadable a b h = cc
  credential_bundle-Reads absent absent a b h = cc
  credential_bundle-Reads (holds s) absent a b h =
      bundle_of-Reads _ _ _ _ (good.reads (holds s) absent _ a b refl) h
        (rw (master_key (strip is_space s) (filled s a)) refl)
  credential_bundle-Reads absent (holds t) a b h =
      bundle_of-Reads _ _ _ _ (good.reads absent (holds t) _ a b refl) h
        (rw (master_keyring (strip is_space t) (filled t b)) refl)
  credential_bundle-Reads (holds s) (holds t) a b h =
      bundle_of-Reads _ _ _ _ (good.reads (holds s) (holds t) _ a b refl) h (
        rw
          (
            master_key (strip is_space s) (filled s a),
            master_keyring (strip is_space t) (filled t b),
          )
          refl)

pub not_empty :
    (l : BundleLibraries) (payload : Bytes) (read : List (Text × Text) × Bytes)
    → read_credential_bundle l payload ≡ ok read
    → 1 ≤ length payload
unfolding read_credential_bundle
not_empty l [] read h = cc
not_empty l (b ∷ payload) read h = omega arith
