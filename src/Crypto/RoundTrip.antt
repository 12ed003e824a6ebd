-- ===== src/Crypto/RoundTrip.antt =====
-- app/gateway/crypto.py: what is encrypted under a keyring that the settings give is decrypted by it.
use mailgate.Common.{
  is_empty, ok, err, Text, Bytes, has_char, ℕ, ◌≡◌, refl, true, false, Option, none, some,
}
use mailgate.Crypto.{
  Cryptography, Attempt, CredentialKeyring, from_settings, encrypt_with, encrypt, try_keys, decrypt,
  uses_primary,
}
use mailgate.Crypto.Envelope.{list_beq_refl, identify-envelope, identify-legacy}
use mailgate.Crypto.Settings.{IsUsablePrimary, IsUsable, from_settings-Ensures}

-- What the `cryptography` package documents: a key decrypts what it encrypted, and a token is URL-safe
-- base64 and so has no colon.
pub record IsFernet (c : Cryptography) : Type 0 where
  pub inverse :
      (k : Text) (n : ℕ) (value : Bytes)
      → c.is_fernet_key k ≡ true
      → c.fernet_decrypt k (c.fernet_encrypt k n value) ≡ some value
  pub no_colon :
      (k : Text) (n : ℕ) (value : Bytes) → has_char b':' (c.fernet_encrypt k n value) ≡ false
  pub nonempty : (k : Text) (n : ℕ) (value : Bytes) → is_empty (c.fernet_encrypt k n value) ≡ false

module _ (c : Cryptography) where
  -- What was encrypted under the ring is decrypted, and uses the primary key.
  abbrev pub IsRoundTrip : CredentialKeyring → Bytes → Attempt Bytes → Type 0
  IsRoundTrip ring value (ok token) =
      (decrypt c ring token ≡ ok value) × (uses_primary c ring token ≡ ok true)
  IsRoundTrip ring value (err e) = ⊥

  encrypt_with-IsRoundTrip :
      IsFernet c
      → (ring : CredentialKeyring) (primary : Option Text) (n : ℕ) (value : Bytes)
      → ring.primary_id ≡ primary
      → IsUsablePrimary c ring primary
      → IsRoundTrip ring value (encrypt_with c primary ring n value)
  unfolding decrypt uses_primary
  encrypt_with-IsRoundTrip f ring none n value e (k, old, good) = rw old (
    rw (identify-legacy c _ (f.no_colon k n value), try_keys, f.inverse k n value good) refl,
    rw (identify-legacy c _ (f.no_colon k n value), e) refl,
  )
  encrypt_with-IsRoundTrip f ring (some id) n value e (valid, (k, present, good)) = rw present (
    rw (identify-envelope c id _ valid (f.nonempty k n value), present, f.inverse k n value good)
        refl,
    rw (identify-envelope c id _ valid (f.nonempty k n value), e, list_beq_refl id) refl,
  )

  pub encrypt-IsRoundTrip :
      IsFernet c
      → (ring : CredentialKeyring) (n : ℕ) (value : Bytes) → IsUsable c ring
      → IsRoundTrip ring value (encrypt c ring n value)
  unfolding encrypt
  encrypt-IsRoundTrip f ring n value h =
      encrypt_with-IsRoundTrip f ring ring.primary_id n value refl h

-- Under every keyring that `from_settings` accepts, `encrypt` returns a token, `decrypt` gets the
-- value back from it, and `uses_primary` says that it uses the primary key.
pub from_settings-IsRoundTrip :
    (c : Cryptography)
    → IsFernet c
    → (raw legacy : Text) (ring : CredentialKeyring) (n : ℕ) (value : Bytes)
    → from_settings c raw legacy ≡ ok ring
    → IsRoundTrip c ring value (encrypt c ring n value)
from_settings-IsRoundTrip c f raw legacy ring n value h =
    encrypt-IsRoundTrip c f ring n value (rw h at (from_settings-Ensures c raw legacy))
