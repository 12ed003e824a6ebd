-- ===== src/Secrets/Keyring/Tokens.antt =====
-- scripts/rotate_credential_keyring.py and app/gateway/crypto.py: what the application decrypted before a
-- rotation it decrypts after it.
use mathlib.Core.Path.{subst}
use mailgate.Common.{
  contains, contains-append, ok, Text, Bytes, codes, Bool-cases, ◌==◌, nat_eq, list_eq, option_eq,
  ℕ, ◌≡◌, refl, ap, ◌∙◌, ◌⊎◌, inl, inr, Bool, true, false, ◌||◌, none, some, List, [], ◌∷◌, ◌++◌,
  arith,
}
use mailgate.Crypto.{CredentialKeyring, key_values, from_settings, identify, decrypt}
use mailgate.Secrets.{Installation, read_secret}
use mailgate.Secrets.Document.{Document}
use mailgate.Secrets.Document.Accepted.{old_keys, is_old_key, from_settings-is_old_key}
use mailgate.Secrets.Keyring.{
  KeyringCalls, KeyringRequest, keyring_name, load_keyring, rotate_credential_keyring,
}
use mailgate.Secrets.Keyring.Changed.{IsPrior, IsReturned}
use mailgate.Secrets.Keyring.Envelopes.{IsKept, HasKeysOf, stored_token}
use mailgate.Secrets.Keyring.Retained.{Retains, KeepsValues, IsExtension}
use mailgate.Secrets.Keyring.Rings.{
  kept_by_keyring, Reads, load_keyring-Reads, old_ring, import_value,
}
use mailgate.Secrets.Keyring.Rotated.{rotate_credential_keyring-IsChange}

module _ (p : KeyringCalls) (request : KeyringRequest) where
  -- The application reads a ring from the keyring, with the old key as it is set; the ring has the requested
  -- primary key and keeps the token.
  abbrev pub Decrypts : Text → Bytes → Bytes → Installation → Type 0
  Decrypts legacy stored value w =
      (raw : Text) × (m : ℕ) × (ring : CredentialKeyring) × (read_secret p.codec p.read_again 65536
          keyring_name w.files
        ≡ ok (raw, m))
      × (from_settings p.cryptography raw legacy ≡ ok ring)
      × (ring.primary_id ≡ some request.new_primary_id)
      × IsKept p.cryptography ring stored value (identify p.cryptography stored)

  -- The settings of the application before the run and after it. It has the keyring and an old key or none,
  -- and the old key stays as it is; or it has only the old key, the file that the run imports, and that
  -- stays or is taken out of the settings.
  abbrev pub AreSettings : Installation → Text → Text → Text → Type 0
  AreSettings w raw legacy legacy' =
      ((m : ℕ) × (read_secret p.codec p.read 65536 keyring_name w.files ≡ ok (raw, m))
        × (legacy' ≡ legacy))
      ⊎ ((m : ℕ) × (w.files keyring_name ≡ none)
          × (raw ≡ [])
          × (read_secret p.codec p.read_legacy 65536 (codes "master_key") w.files ≡ ok (legacy, m))
          × ((legacy' ≡ legacy) ⊎ (legacy' ≡ [])))

  -- The keys of an extended document, with the same old key behind both.
  extended-HasKeysOf :
      (ring ring' : CredentialKeyring) (d e : Document) (old : List Text)
      → (ring.ring_keys ≡ d.keys) × (ring.legacy_keys ≡ key_values d.keys ++ old)
      → ring'.ring_keys ≡ e.keys
      → ring'.legacy_keys ≡ key_values e.keys ++ old
      → Retains d e
      → KeepsValues d e
      → HasKeysOf p.cryptography ring ring'
  extended-HasKeysOf ring ring' d e old (keys0, legacy0) keys1 legacy1 retained values = (
    λ id. rw (keys0, keys1) (retained id),
    λ k.
        rw
          (
            legacy0,
            legacy1,
            contains-append (key_values d.keys) old k,
            contains-append (key_values e.keys) old k,
          )
          (with_old _ _ _ (values k)),
  )
    where
      with_old : (a b o : Bool) → (a ≡ false) ⊎ (b ≡ true) → (a || o ≡ false) ⊎ (b || o ≡ true)
      with_old a b true h = inr (ground arith)
      with_old a b false (inl e) = inl (ground arith)
      with_old a b false (inr e) = inr (ground arith)

  -- The old key alone, which is among the values of the document.
  imported-HasKeysOf :
      (ring ring' : CredentialKeyring) (legacy : Text) (d e : Document) (old : List Text)
      → (ring.ring_keys ≡ []) × (ring.legacy_keys ≡ legacy ∷ [])
      → ring'.legacy_keys ≡ key_values e.keys ++ old
      → contains (key_values d.keys) legacy ≡ true
      → KeepsValues d e
      → HasKeysOf p.cryptography ring ring'
  imported-HasKeysOf ring ring' legacy d e old (keys0, legacy0) legacy1 there values = (
    λ id. inl (rw keys0 refl),
    λ k. rw (legacy0, legacy1, contains-append (key_values e.keys) old k) (by_key k),
  )
    where
      held :
          (contains (key_values d.keys) legacy ≡ false)
            ⊎ (contains (key_values e.keys) legacy ≡ true)
          → contains (key_values e.keys) legacy ≡ true
      held (inl absent') = cc (there, absent')
      held (inr h) = h

      by_key :
          (k : Text)
          → (contains (legacy ∷ []) k ≡ false)
            ⊎ (contains (key_values e.keys) k || contains old k ≡ true)
      by_key k = elim (Bool-cases (k == legacy)) [
        | inr other' ↦ inl (rw other' refl)
        | inl same' ↦
            let equal : k ≡ legacy = (list_eq.agrees k legacy).0 same' in
            inr (rw (equal, held (values legacy)) refl)
      ]

  -- A ring that is read from an extended document.
  read-Decrypts :
      (legacy : Text) (valid : is_old_key p.cryptography legacy ≡ true) (w : Installation)
      (d e : Document) (ring : CredentialKeyring) (stored value : Bytes)
      (read : Reads p request legacy valid w e)
      → IsExtension request.new_primary_id d e
      → decrypt p.cryptography ring stored ≡ ok value
      → HasKeysOf p.cryptography ring read.2
      → Decrypts legacy stored value w
  read-Decrypts legacy valid w d e ring stored value (raw, m, ring', read, settings, primary, _, _)
        extended opened retained =
      (
        raw,
        m,
        ring',
        read,
        settings,
        primary ∙ ap (λ t. some t) extended.0,
        stored_token p.cryptography ring ring' stored value retained opened,
      )

  keyring-Decrypts :
      (w w' : Installation) (raw legacy : Text) (m : ℕ) (ring : CredentialKeyring)
      (stored value : Bytes)
      → read_secret p.codec p.read 65536 keyring_name w.files ≡ ok (raw, m)
      → from_settings p.cryptography raw legacy ≡ ok ring
      → decrypt p.cryptography ring stored ≡ ok value
      → IsReturned p request w (ok true) w'
      → Decrypts legacy stored value w'
  keyring-Decrypts w w' raw legacy m ring stored value read settings opened
        (d, e, k, prior, again, extended) =
      let valid : is_old_key p.cryptography legacy ≡ true =
        from_settings-is_old_key p.cryptography legacy raw ring settings in
      let after = load_keyring-Reads p request legacy valid w' e k again in
      read-Decrypts legacy valid w' d e ring stored value after extended opened (
        extended-HasKeysOf ring after.2 d e (old_keys legacy)
          (kept_by_keyring p request legacy valid w d raw m ring read settings prior) after.6
          after.7 extended.2 extended.3)

  imported_prior :
      (w : Installation) (legacy : Text) (m : ℕ) (d : Document)
      → w.files keyring_name ≡ none
      → read_secret p.codec p.read_legacy 65536 (codes "master_key") w.files ≡ ok (legacy, m)
      → IsPrior p request w d
      → contains (key_values d.keys) legacy ≡ true
  unfolding load_keyring read_secret
  imported_prior w legacy m d missing read (inl (k, loaded)) = cc (rw missing at loaded)
  imported_prior w legacy m d missing read (inr (_, (k, imported'))) =
      import_value p request request.legacy_key_id w.files legacy m k d read imported'

  import-Decrypts :
      (w w' : Installation) (legacy legacy' : Text) (m : ℕ) (ring : CredentialKeyring)
      (stored value : Bytes)
      → w.files keyring_name ≡ none
      → read_secret p.codec p.read_legacy 65536 (codes "master_key") w.files ≡ ok (legacy, m)
      → is_old_key p.cryptography legacy' ≡ true
      → from_settings p.cryptography [] legacy ≡ ok ring
      → decrypt p.cryptography ring stored ≡ ok value
      → IsReturned p request w (ok true) w'
      → Decrypts legacy' stored value w'
  import-Decrypts w w' legacy legacy' m ring stored value missing read valid settings opened
        (d, e, k, prior, again, extended) =
      let after = load_keyring-Reads p request legacy' valid w' e k again in
      read-Decrypts legacy' valid w' d e ring stored value after extended opened (
        imported-HasKeysOf ring after.2 legacy d e (old_keys legacy')
          (old_ring p request legacy ring settings) after.7
          (imported_prior w legacy m d missing read prior) extended.3)

  returned-Decrypts :
      (w w' : Installation) (raw legacy legacy' : Text) (ring : CredentialKeyring)
      (stored value : Bytes)
      → AreSettings w raw legacy legacy'
      → from_settings p.cryptography raw legacy ≡ ok ring
      → decrypt p.cryptography ring stored ≡ ok value
      → IsReturned p request w (ok true) w'
      → Decrypts legacy' stored value w'
  returned-Decrypts w w' raw legacy legacy' ring stored value (inl (m, read, same')) settings opened
        returned =
      rw same' (keyring-Decrypts w w' raw legacy m ring stored value read settings opened returned)
  returned-Decrypts w w' raw legacy legacy' ring stored value
        (inr (m, missing, empty, read, now_set)) settings opened returned =
      let alone : from_settings p.cryptography [] legacy ≡ ok ring = rw empty at settings in
      import-Decrypts w w' legacy legacy' m ring stored value missing read (still now_set alone)
        alone opened returned
    where
      still :
          (legacy' ≡ legacy) ⊎ (legacy' ≡ [])
          → from_settings p.cryptography [] legacy ≡ ok ring
          → is_old_key p.cryptography legacy' ≡ true
      still (inl same') alone =
          rw same' (from_settings-is_old_key p.cryptography legacy [] ring alone)
      still (inr gone) alone = rw gone refl

-- A run that returns `True` loses no stored password. Whatever the application decrypted before the run,
-- under the primary key, a retained one or the old key, with the keyring and the old key of its settings or
-- with the old key that the run imports, it decrypts to the same text with the keyring that the run
-- leaves, whose primary key is the requested one. For a token that names no key, and so is tried with all,
-- it may only be that another key of that keyring decrypts the very token to another text.
pub rotate_credential_keyring-Decrypts :
    (p : KeyringCalls) (request : KeyringRequest) (w : Installation) (raw legacy legacy' : Text)
    (ring : CredentialKeyring) (stored value : Bytes)
    → AreSettings p request w raw legacy legacy'
    → from_settings p.cryptography raw legacy ≡ ok ring
    → decrypt p.cryptography ring stored ≡ ok value
    → (rotate_credential_keyring p request w).0 ≡ ok true
    → Decrypts p request legacy' stored value (rotate_credential_keyring p request w).1
rotate_credential_keyring-Decrypts p request w raw legacy legacy' ring stored value set_up settings
      opened changed =
    returned-Decrypts p request w (rotate_credential_keyring p request w).1 raw legacy legacy' ring
      stored value set_up settings opened
      (subst (λ r. IsReturned p request w r (rotate_credential_keyring p request w).1) changed
        (rotate_credential_keyring-IsChange p request w).1)
