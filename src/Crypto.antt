-- ===== src/Crypto.antt =====
-- app/gateway/crypto.py: the keyring of the mailbox credentials. A Fernet key is given by the text
-- that it is made of.
pub mod Envelope
pub mod RoundTrip
pub mod Settings
pub mod Rotation
mod Tests
use mailgate.Common.{
  length, drop, is_empty, any, all, contains, Result, ok, err, ◌>>=◌, or_raise, Text, Bytes, codes,
  is_digit, is_lower, is_upper, before, after, has_char, starts_with, leb, if◌then◌else◌, ◌==◌,
  nat_eq, list_eq, option_eq, ℕ, Bool, true, false, not, ◌&&◌, ◌||◌, Option, none, some, List, [],
  ◌∷◌, ◌++◌, map,
}
use mailgate.Json.{
  Json, boolean, integer, string, object, Fields, no_fields, a_field, keys, get, has_exactly,
  has_unique_keys,
}

-- What the `cryptography` package and `json` do. `encrypt` gets a number that stands for the time and
-- the random bytes that it uses.
pub record Cryptography : Type 0 where
  -- `json.loads`; `none` is `JSONDecodeError`
  pub loads : Text → Option Json
  -- whether `Fernet(value.encode("ascii"))` accepts the value
  pub is_fernet_key : Text → Bool
  pub fernet_encrypt : Text → ℕ → Bytes → Bytes
  -- `none` is `InvalidToken`
  pub fernet_decrypt : Text → Bytes → Option Bytes

-- `IndexError` and `KeyError` are the last.
pub data KeyringError : Type 0 where
  configuration_error decryption_error lookup_error : KeyringError

abbrev pub Attempt : Type 0 → Type 0
Attempt A = Result KeyringError A

pub record CredentialKeyring : Type 0 where
  pub primary_id : Option Text
  pub ring_keys : List (Text × Text)
  pub legacy_keys : List Text

-- `TOKEN_PREFIX`
abbrev pub token_prefix : Bytes
token_prefix = codes "mgk1:"

-- `[A-Za-z0-9]` and `[A-Za-z0-9._-]`
abbrev pub is_alnum : ℕ → Bool
is_alnum c = is_upper c || is_lower c || is_digit c

abbrev pub is_key_char : ℕ → Bool
is_key_char c = is_alnum c || contains (codes "._-") c

-- `KEY_ID_RE.fullmatch`, of `^[A-Za-z0-9][A-Za-z0-9._-]{0,63}$`
unfoldable pub is_key_id : Text → Bool
is_key_id [] = false
is_key_id (c ∷ s) = is_alnum c && (all is_key_char s && leb (length s) 63)

abbrev pub find_key : Text → List (Text × Text) → Option Text
find_key id [] = none
find_key id ((k, v) ∷ ks) = if k == id then some v else find_key id ks

abbrev pub key_values : List (Text × Text) → List Text
key_values = map (λ k. k.1)

module _ (c : Cryptography) where
  -- `_make_fernet`
  abbrev pub make_fernet : Text → Attempt Text
  make_fernet value = if c.is_fernet_key value then ok value else err configuration_error

  abbrev pub make_key : Text → Json → Attempt Text
  make_key id (string value) = make_fernet value
  make_key id _ = err configuration_error

  -- the loop over the keys
  abbrev pub make_keys : Fields → Attempt (List (Text × Text))
  make_keys no_fields = ok []
  make_keys (a_field id v fs) =
      let rest = make_keys fs in
      if not (is_key_id id)
      then err configuration_error
      else make_key id v >>= λ value. rest >>= λ ks. ok ((id, value) ∷ ks)

  -- the old key, which stays last
  abbrev pub with_legacy : Text → List Text → Attempt (List Text)
  with_legacy [] keys = ok keys
  with_legacy (x ∷ legacy) keys = make_fernet (x ∷ legacy) >>= λ k. ok (keys ++ k ∷ [])

  abbrev pub ring_of : Text → Text → List (Text × Text) → Attempt CredentialKeyring
  ring_of legacy primary ks =
      if not (any (λ k. k.0 == primary) ks)
      then err configuration_error
      else with_legacy legacy (key_values ks) >>= λ old.
          ok (record { primary_id = some primary; ring_keys = ks; legacy_keys = old })

  abbrev pub is_version_one : Option Json → Bool
  is_version_one (some (integer n)) = n == 1
  -- `True == 1`
  is_version_one (some (boolean b)) = b
  is_version_one _ = false

  abbrev pub keys_of : Option Json → Attempt (List (Text × Text))
  keys_of (some (object no_fields)) = err configuration_error
  keys_of (some (object (a_field k v fs))) = make_keys (a_field k v fs)
  keys_of _ = err configuration_error

  abbrev pub primary_of : Option Json → Attempt Text
  primary_of (some (string s)) = if is_key_id s then ok s else err configuration_error
  primary_of _ = err configuration_error

  abbrev pub ring_of_fields : Text → Fields → Attempt CredentialKeyring
  ring_of_fields legacy fs =
      if not (has_exactly (codes "version" ∷ codes "primary" ∷ codes "keys" ∷ []) fs)
      then err configuration_error
      else if not (is_version_one (get (codes "version") fs))
      then err configuration_error
      else primary_of (get (codes "primary") fs) >>= λ primary.
          keys_of (get (codes "keys") fs) >>= ring_of legacy primary

  abbrev pub ring_of_document : Text → Option Json → Attempt CredentialKeyring
  ring_of_document legacy (some (object fs)) =
      if has_unique_keys (object fs) then ring_of_fields legacy fs else err configuration_error
  ring_of_document legacy _ = err configuration_error

  -- `CredentialKeyring.from_settings`
  unfoldable pub from_settings : Text → Text → Attempt CredentialKeyring
  unfolding is_key_id has_exactly get has_unique_keys
  from_settings [] [] = err configuration_error
  from_settings [] (x ∷ legacy) = make_fernet (x ∷ legacy) >>= λ k.
      ok (record { primary_id = none; ring_keys = []; legacy_keys = k ∷ [] })
  from_settings (x ∷ raw) legacy = ring_of_document legacy (c.loads (x ∷ raw))

  abbrev pub first_of : List Text → Attempt Text
  first_of [] = err lookup_error
  first_of (k ∷ _) = ok k

  abbrev pub envelope : Text → Bytes → Bytes
  envelope id token = token_prefix ++ (id ++ b':' ∷ token)

  abbrev pub encrypt_with : Option Text → CredentialKeyring → ℕ → Bytes → Attempt Bytes
  encrypt_with none ring n value =
      first_of ring.legacy_keys >>= λ k. ok (c.fernet_encrypt k n value)
  encrypt_with (some id) ring n value = or_raise (find_key id ring.ring_keys) lookup_error >>= λ k.
      ok (envelope id (c.fernet_encrypt k n value))

  -- `CredentialKeyring.encrypt`
  unfoldable pub encrypt : CredentialKeyring → ℕ → Bytes → Attempt Bytes
  encrypt ring n value = encrypt_with ring.primary_id ring n value

  -- the parts of an envelope, behind the prefix
  abbrev pub open_envelope : Bytes → Attempt (Option Text × Bytes)
  open_envelope rest =
      if not (has_char b':' rest)
      then err decryption_error
      else if not (is_key_id (before b':' rest)) || is_empty (after b':' rest)
      then err decryption_error
      else ok (some (before b':' rest), after b':' rest)

  -- `CredentialKeyring.identify`
  unfoldable pub identify : Bytes → Attempt (Option Text × Bytes)
  unfolding has_char before after is_key_id
  identify value =
      if not (starts_with token_prefix value)
      then ok (none, value)
      else open_envelope (drop 5 value)

  -- the loop over the old keys
  abbrev pub try_keys : List Text → Bytes → Attempt Bytes
  try_keys [] token = err decryption_error
  try_keys (k ∷ ks) token = elim (c.fernet_decrypt k token) [
    | some value ↦ ok value
    | none ↦ try_keys ks token
  ]

  abbrev pub decrypt_with : CredentialKeyring → Option Text → Bytes → Attempt Bytes
  decrypt_with ring none token = try_keys ring.legacy_keys token
  decrypt_with ring (some id) token =
      or_raise (find_key id ring.ring_keys) decryption_error >>= λ k.
      or_raise (c.fernet_decrypt k token) decryption_error

  -- `CredentialKeyring.decrypt`
  unfoldable pub decrypt : CredentialKeyring → Bytes → Attempt Bytes
  unfolding identify
  decrypt ring value = identify value >>= λ p. decrypt_with ring p.0 p.1

  -- `CredentialKeyring.uses_primary`
  unfoldable pub uses_primary : CredentialKeyring → Bytes → Attempt Bool
  unfolding identify
  uses_primary ring value = identify value >>= λ p. ok (p.0 == ring.primary_id)

  abbrev pub checked_rotation : Bytes → Bytes → Bytes → Attempt (Bytes × Bool)
  checked_rotation rotated text again =
      if again == text then ok (rotated, true) else err decryption_error

  -- `reencrypt_secret`
  unfoldable pub reencrypt_secret : CredentialKeyring → ℕ → Bytes → Attempt (Bytes × Bool)
  unfolding decrypt uses_primary encrypt
  reencrypt_secret ring n value = decrypt ring value >>= λ secret.
      uses_primary ring value >>= λ current.
      if current
      then ok (value, false)
      else (encrypt ring n secret >>= λ rotated.
          decrypt ring rotated >>= checked_rotation rotated secret)
