-- ===== src/Crypto/Tests.antt =====
-- Runs of the keyring, with a cipher that prepends the key.
use mailgate.Common.{
  ok, Bytes, codes, has_char, ◌==◌, nat_eq, list_eq, option_eq, ℕ, ◌+◌, ◌-◌, ◌≡◌, refl, ap, false,
  none, some, [], ◌∷◌, map, arith,
}
use mailgate.Crypto.{Cryptography, CredentialKeyring, from_settings, encrypt}
use mailgate.Crypto.Rotation.{rotate_mailbox_credentials}
use mailgate.Crypto.Rotation.Verified.{IsOutcome, rotate_mailbox_credentials-IsOutcome}
use mailgate.Crypto.RoundTrip.{IsFernet, IsRoundTrip, from_settings-IsRoundTrip}
use mailgate.Json.{Json, integer, string, object, no_fields, a_field}
use mailgate.Samples.{sample_database}

-- The settings' document, of one key.
abbrev sample_document : Json
sample_document = object (
    a_field (codes "version") (integer 1) (
      a_field (codes "primary") (string (codes "k1")) (
        a_field (codes "keys") (object (a_field (codes "k1") (string (codes "key")) no_fields))
          no_fields)))

-- The value, with every number as letters, so that no colon is in the token.
abbrev sample_cryptography : Cryptography
sample_cryptography = record {
  loads = λ s. some sample_document;
  is_fernet_key = λ k. k == codes "key";
  fernet_encrypt = λ k n value. b'g' ∷ map (λ c. c + 100) value;
  fernet_decrypt =
      λ k token. elim token [ [] ↦ none | g ∷ value ↦ some (map (λ c. c - 100) value) ];
}

sample_IsFernet : IsFernet sample_cryptography
unfolding has_char
sample_IsFernet = record {
  inverse = λ k n value h. ap (λ v. some v) (map_back value);
  no_colon = λ k n value. shifted value;
  nonempty = λ k n value. refl;
}
  where
    minus_back : (c : ℕ) → (c + 100) - 100 ≡ c
    minus_back c = omega arith

    map_back : (value : Bytes) → map (λ c. c - 100) (map (λ c. c + 100) value) ≡ value
    map_back [] = refl
    map_back (c ∷ value) = cc (map_back value, minus_back c)

    shifted : (value : Bytes) → has_char b':' (map (λ c. c + 100) value) ≡ false
    shifted [] = refl
    shifted (c ∷ value) = ground (arith, shifted value)

abbrev sample_ring : CredentialKeyring
sample_ring = record {
  primary_id = some (codes "k1");
  ring_keys = (codes "k1", codes "key") ∷ [];
  legacy_keys = codes "key" ∷ [];
}

sample_settings : from_settings sample_cryptography (codes "{}") [] ≡ ok sample_ring
unfolding from_settings
sample_settings = refl

from_settings-IsRoundTrip_example :
    IsRoundTrip sample_cryptography sample_ring
      (codes "secret")
      (encrypt sample_cryptography sample_ring 0 (codes "secret"))
from_settings-IsRoundTrip_example =
    from_settings-IsRoundTrip sample_cryptography sample_IsFernet (codes "{}") [] sample_ring 0
      (codes "secret") sample_settings

rotate_mailbox_credentials-IsOutcome_example :
    IsOutcome sample_cryptography
      (codes "{}")
      []
      300
      sample_database
      (rotate_mailbox_credentials sample_cryptography (codes "{}") [] (λ k. k) 300 sample_database)
rotate_mailbox_credentials-IsOutcome_example =
    rotate_mailbox_credentials-IsOutcome sample_cryptography sample_IsFernet (codes "{}") []
      (λ k. k) 300 sample_database

-- The token of the mailbox, under no identifier, is replaced.
rotated_one :
    (rotate_mailbox_credentials sample_cryptography (codes "{}") [] (λ k. k) 300 sample_database).0
    ≡ ok (1, 1)
unfolding rotate_mailbox_credentials
rotated_one = refl
