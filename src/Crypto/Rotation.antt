-- ===== src/Crypto/Rotation.antt =====
-- app/gateway/management/commands/rotate_mailbox_credentials.py and verify_mailbox_credentials.py.
pub mod Verified
use mailgate.Common.{
  Result, ok, err, ◌>>=◌, Text, Bytes, codes, decimal, if◌then◌else◌, ℕ, ◌+◌, Bool, true, false,
  Option, none, some, List, [], ◌∷◌,
}
use mailgate.Crypto.{
  Cryptography, KeyringError, decryption_error, Attempt, CredentialKeyring, from_settings, decrypt,
  reencrypt_secret,
}
use mailgate.Models.{Mailbox, Database, audit}

pub data CommandError : Type 0 where
  keyring_invalid keyring_unversioned verification_failed unexpected_error : CommandError

abbrev pub command_error : KeyringError → CommandError
command_error decryption_error = verification_failed
command_error _ = unexpected_error

module _ (c : Cryptography) where
  abbrev pub with_ciphertext : ℕ → Mailbox → Bytes × Bool → Mailbox
  with_ciphertext now m (ciphertext, true) = record m {
    password_encrypted = ciphertext;
    config_version = m.config_version + 1;
    updated_at = now;
  }
  with_ciphertext now m (ciphertext, false) = m

  -- the body of the loop; `nonces` gives what `encrypt` draws for a mailbox
  unfoldable pub rotate_one : CredentialKeyring → (ℕ → ℕ) → ℕ → Mailbox → Attempt (Mailbox × Bool)
  unfolding reencrypt_secret
  rotate_one ring nonces now m = reencrypt_secret c ring (nonces m.pk) m.password_encrypted >>= λ r.
      ok (with_ciphertext now m r, r.1)

  abbrev pub add_rotated : Mailbox × Bool → List Mailbox × ℕ × ℕ → List Mailbox × ℕ × ℕ
  add_rotated (m, changed) (ms, n, v) = (m ∷ ms, (if changed then n + 1 else n), v + 1)

  -- the loop: the rows, `rotated` and `verified`
  unfoldable pub rotate_all :
      CredentialKeyring → (ℕ → ℕ) → ℕ → List Mailbox → Attempt (List Mailbox × ℕ × ℕ)
  unfolding rotate_one
  rotate_all ring nonces now [] = ok ([], 0, 0)
  rotate_all ring nonces now (m ∷ ms) = rotate_one ring nonces now m >>= λ r.
      rotate_all ring nonces now ms >>= λ rs. ok (add_rotated r rs)

  abbrev pub committed :
      Text → ℕ → Database → Attempt (List Mailbox × ℕ × ℕ) → Result CommandError (ℕ × ℕ) × Database
  committed primary now db (err e) = (err (command_error e), db)
  committed primary now db (ok (ms, n, v)) = (
    ok (n, v),
    audit now (codes "system:key-rotation") (codes "credentials.rotated") none
        ((codes "primary_key_id", primary)
          ∷ (codes "rotated", decimal n)
          ∷ (codes "verified", decimal v)
          ∷ [])
        (record db { mailboxes = ms }),
  )

  abbrev pub rotate_under :
      (ℕ → ℕ)
      → ℕ
      → Database
      → Option Text
      → CredentialKeyring
      → Result CommandError (ℕ × ℕ) × Database
  rotate_under nonces now db none ring = (err keyring_unversioned, db)
  rotate_under nonces now db (some primary) ring =
      committed primary now db (rotate_all ring nonces now db.mailboxes)

  abbrev pub rotate_with :
      (ℕ → ℕ) → ℕ → Database → Attempt CredentialKeyring → Result CommandError (ℕ × ℕ) × Database
  rotate_with nonces now db (err e) = (err keyring_invalid, db)
  rotate_with nonces now db (ok ring) = rotate_under nonces now db ring.primary_id ring

  -- `rotate_mailbox_credentials`: its counts, or the error with which the transaction is rolled back
  unfoldable pub rotate_mailbox_credentials :
      Text → Text → (ℕ → ℕ) → ℕ → Database → Result CommandError (ℕ × ℕ) × Database
  unfolding from_settings rotate_all audit decimal
  rotate_mailbox_credentials raw legacy nonces now db =
      rotate_with nonces now db (from_settings c raw legacy)

  abbrev pub verify_all : CredentialKeyring → List Mailbox → Attempt ℕ
  verify_all ring [] = ok 0
  verify_all ring (m ∷ ms) =
      decrypt c ring m.password_encrypted >>= λ _. verify_all ring ms >>= λ n. ok (n + 1)

  abbrev pub verify_with : Attempt CredentialKeyring → List Mailbox → Result CommandError ℕ
  verify_with (err e) ms = err keyring_invalid
  verify_with (ok ring) ms = elim (verify_all ring ms) [
    | ok n ↦ ok n
    | err e ↦ err (command_error e)
  ]

  -- `verify_mailbox_credentials`: the number of credentials verified
  unfoldable pub verify_mailbox_credentials : Text → Text → Database → Result CommandError ℕ
  unfolding from_settings decrypt
  verify_mailbox_credentials raw legacy db = verify_with (from_settings c raw legacy) db.mailboxes
