-- ===== src/Crypto/Rotation/Verified.antt =====
-- What a rotation of the credentials leaves behind.
use mailgate.Common.{
  length, Result, ok, err, ◌>>=◌, Ensures, Ensures-bind, Result-cases, Text, Bytes, Bool-cases,
  list_eq, ℕ, ◌≡◌, refl, ap, ◌∙◌, inl, inr, Bool, true, false, not, Option, none, some, List, [],
  ◌∷◌, arith,
}
use mailgate.Crypto.{
  Cryptography, Attempt, CredentialKeyring, from_settings, encrypt, decrypt, uses_primary,
  checked_rotation, reencrypt_secret,
}
use mailgate.Crypto.Rotation.{
  CommandError, with_ciphertext, rotate_one, rotate_all, committed, rotate_under,
  rotate_mailbox_credentials,
}
use mailgate.Crypto.RoundTrip.{IsFernet, IsRoundTrip, encrypt-IsRoundTrip}
use mailgate.Crypto.Settings.{IsUsable, from_settings-Ensures}
use mailgate.Models.{Mailbox, Database, audit}

module _ (c : Cryptography) where
  -- The secret is kept, the new token uses the primary key, and a token that did so is kept.
  abbrev pub IsReencrypted : CredentialKeyring → Bytes → Bytes × Bool → Type 0
  IsReencrypted ring value (value', changed) =
      (secret : Bytes) × (decrypt c ring value ≡ ok secret)
      × (decrypt c ring value' ≡ ok secret)
      × (uses_primary c ring value' ≡ ok true)
      × (uses_primary c ring value ≡ ok (not changed))
      × (changed ≡ false → value' ≡ value)

  checked-IsReencrypted :
      (ring : CredentialKeyring) (value secret : Bytes) (r : Attempt Bytes)
      → IsRoundTrip c ring secret r
      → decrypt c ring value ≡ ok secret
      → uses_primary c ring value ≡ ok false
      → Ensures
          (IsReencrypted ring value)
          (r >>= λ rotated. decrypt c ring rotated >>= checked_rotation c rotated secret)
  checked-IsReencrypted ring value secret (ok token) (back, primary) d u =
      rw (back, (list_eq.agrees secret secret).1 refl) (secret, d, back, primary, u, λ h. cc)
  checked-IsReencrypted ring value secret (err e) h d u = tt

  reencrypt_secret-IsReencrypted :
      IsFernet c
      → (ring : CredentialKeyring) (n : ℕ) (value : Bytes) → IsUsable c ring
      → Ensures (IsReencrypted ring value) (reencrypt_secret c ring n value)
  unfolding reencrypt_secret
  reencrypt_secret-IsReencrypted f ring n value usable =
      elim (Result-cases (decrypt c ring value)) [
        | inr (e, bad) ↦ rw bad tt
        | inl (secret, d) ↦ elim (Result-cases (uses_primary c ring value)) [
          | inr (e, bad) ↦ rw (d, bad) tt
          | inl (current, u) ↦ elim (Bool-cases current) [
            | inl yes' ↦
                let u' : uses_primary c ring value ≡ ok true = u ∙ ap ok yes' in
                rw (d, u') (secret, d, d, u', u', λ _. refl)
            | inr no' ↦
                let u' : uses_primary c ring value ≡ ok false = u ∙ ap ok no' in
                rw (d, u')
                  (checked-IsReencrypted ring value secret (encrypt c ring n secret)
                    (encrypt-IsRoundTrip c f ring n secret usable) d u')
          ]
        ]
      ]

  -- What became of a row: nothing but the token, the version and the time has changed, and these only
  -- if the token is a new one.
  abbrev pub IsRotated : CredentialKeyring → ℕ → Mailbox → Mailbox → Type 0
  IsRotated ring now x y =
      (changed : Bool) × (y ≡ with_ciphertext c now x (y.password_encrypted, changed))
      × IsReencrypted ring x.password_encrypted (y.password_encrypted, changed)

  abbrev pub AreRotated : CredentialKeyring → ℕ → List Mailbox → List Mailbox → Type 0
  AreRotated ring now [] [] = Unit
  AreRotated ring now (x ∷ xs) (y ∷ ys) = IsRotated ring now x y × AreRotated ring now xs ys
  AreRotated ring now _ _ = ⊥

  with_ciphertext-IsRotated :
      (ring : CredentialKeyring) (now : ℕ) (x : Mailbox) (r : Bytes × Bool)
      → IsReencrypted ring x.password_encrypted r
      → IsRotated ring now x (with_ciphertext c now x r)
  with_ciphertext-IsRotated ring now x (token, true) h = (true, refl, h)
  with_ciphertext-IsRotated ring now x (token, false) (s, d, d', u', u, kept) =
      let e : token ≡ x.password_encrypted = kept refl in
      (false, refl, (s, d, d, rw e at u', u, λ _. refl))

  rotate_one-IsRotated :
      IsFernet c
      → (ring : CredentialKeyring) (nonces : ℕ → ℕ) (now : ℕ) (x : Mailbox) → IsUsable c ring
      → Ensures (λ r. IsRotated ring now x r.0) (rotate_one c ring nonces now x)
  unfolding rotate_one
  rotate_one-IsRotated f ring nonces now x usable =
      Ensures-bind (IsReencrypted ring x.password_encrypted) (λ r. IsRotated ring now x r.0)
        (reencrypt_secret c ring (nonces x.pk) x.password_encrypted) _
        (reencrypt_secret-IsReencrypted f ring (nonces x.pk) x.password_encrypted usable)
        (λ r h. with_ciphertext-IsRotated ring now x r h)

  rotate_all-AreRotated :
      IsFernet c
      → (ring : CredentialKeyring) (nonces : ℕ → ℕ) (now : ℕ) (xs : List Mailbox) → IsUsable c ring
      → Ensures
          (λ r. AreRotated ring now xs r.0 × (r.2 ≡ length xs))
          (rotate_all c ring nonces now xs)
  unfolding rotate_all
  rotate_all-AreRotated f ring nonces now [] usable = (tt, refl)
  rotate_all-AreRotated f ring nonces now (x ∷ xs) usable =
      Ensures-bind (λ r. IsRotated ring now x r.0)
        (λ r. AreRotated ring now (x ∷ xs) r.0 × (r.2 ≡ length (x ∷ xs)))
        (rotate_one c ring nonces now x) _ (rotate_one-IsRotated f ring nonces now x usable)
        (λ r h.
          Ensures-bind (λ rs. AreRotated ring now xs rs.0 × (rs.2 ≡ length xs))
            (λ r. AreRotated ring now (x ∷ xs) r.0 × (r.2 ≡ length (x ∷ xs)))
            (rotate_all c ring nonces now xs) _ (rotate_all-AreRotated f ring nonces now xs usable)
            (λ rs hs. ((h, hs.0), omega (arith, hs.1))))

  -- The outcome of the command on `db`.
  abbrev pub IsOutcome :
      Text → Text → ℕ → Database → Result CommandError (ℕ × ℕ) × Database → Type 0
  IsOutcome raw legacy now db (err e, db') = db' ≡ db
  IsOutcome raw legacy now db (ok (n, v), db') =
      (ring : CredentialKeyring) × (from_settings c raw legacy ≡ ok ring)
      × AreRotated ring now db.mailboxes db'.mailboxes
      × (v ≡ length db.mailboxes)
      × (db'.messages ≡ db.messages)

  module _ (f : IsFernet c) (raw legacy : Text) (nonces : ℕ → ℕ) (now : ℕ) (db : Database)
      (ring : CredentialKeyring) (e : from_settings c raw legacy ≡ ok ring) where
    committed-IsOutcome :
        (primary : Text) (r : Attempt (List Mailbox × ℕ × ℕ))
        → Ensures (λ r. AreRotated ring now db.mailboxes r.0 × (r.2 ≡ length db.mailboxes)) r
        → IsOutcome raw legacy now db (committed c primary now db r)
    unfolding audit
    committed-IsOutcome primary (err x) h = refl
    committed-IsOutcome primary (ok (ms, n, v)) (h, k) = (ring, e, h, k, refl)

    rotate_under-IsOutcome :
        (primary : Option Text)
        → IsOutcome raw legacy now db (rotate_under c nonces now db primary ring)
    rotate_under-IsOutcome none = refl
    rotate_under-IsOutcome (some primary) =
        committed-IsOutcome primary (rotate_all c ring nonces now db.mailboxes) (
          rotate_all-AreRotated f ring nonces now db.mailboxes
            (rw e at (from_settings-Ensures c raw legacy)))

-- A rotation that fails leaves the database as it was. One that succeeds leaves each mailbox row, in
-- its place, with a token that uses the primary key and that decrypts to the same secret as before;
-- nothing else has changed in it but the version, which is raised by one, and the time, and these
-- only where the token is a new one. It counts every row as verified, and keeps the messages.
pub rotate_mailbox_credentials-IsOutcome :
    (c : Cryptography)
    → IsFernet c
    → (raw legacy : Text) (nonces : ℕ → ℕ) (now : ℕ) (db : Database)
    → IsOutcome c raw legacy now db (rotate_mailbox_credentials c raw legacy nonces now db)
unfolding rotate_mailbox_credentials
rotate_mailbox_credentials-IsOutcome c f raw legacy nonces now db =
    elim (Result-cases (from_settings c raw legacy)) [
      | inr (e, bad) ↦ rw bad refl
      | inl (ring, e) ↦
          rw e (rotate_under-IsOutcome c f raw legacy nonces now db ring e ring.primary_id)
    ]
