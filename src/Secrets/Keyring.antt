-- ===== src/Secrets/Keyring.antt =====
-- scripts/rotate_credential_keyring.py. json.dumps and the generator of keys are arguments.
pub mod Changed
pub mod Envelopes
pub mod Retained
pub mod Rings
pub mod Rotated
pub mod Tokens
use mailgate.Common.{
  length, any, Result, ok, err, ◌>>=◌, ◌>>◌, Text, codes, leb, if◌then◌else◌, ◌==◌, nat_eq, list_eq,
  option_eq, ℕ, Bool, true, false, not, Option, none, some, List, [], ◌∷◌,
}
use mailgate.Crypto.{Cryptography, is_key_id}
use mailgate.Json.{integer, keys}
use mailgate.Secrets.{
  invalid_key_id, key_exists, no_keyring, legacy_id_required, same_ids, limit_reached,
  bad_generator, keyring_unverified, Raised, tool, Files, file_exists, Action, proceed, with_files,
  DirectoryStatus, require_secure_directory, container_secret_mode, Codec, ReadCall, read_secret,
}
use mailgate.Secrets.Document.{
  Document, maximum_keys, validate_key_id, validate_fernet_key, load_text, same_document,
}
use mailgate.Secrets.Lock.{LockCall, exclusive_rotation_lock}
use mailgate.Secrets.Writing.{WriteCall, atomic_write_secret}

abbrev pub set_key : Text → Text → List (Text × Text) → List (Text × Text)
set_key id value [] = (id, value) ∷ []
set_key id value ((k, v) ∷ ks) = if k == id then (id, value) ∷ ks else (k, v) ∷ set_key id value ks

pub record KeyringCalls : Type 0 where
  pub cryptography : Cryptography
  -- `json.dumps`
  pub dumps : Document → Text
  pub codec : Codec
  pub is_windows : Bool
  pub directory : Option DirectoryStatus
  pub lock : LockCall
  -- the reads of the keyring, of the old key, and of the keyring that was written
  pub read : ReadCall
  pub read_legacy : ReadCall
  pub read_again : ReadCall
  pub write : WriteCall
  -- what `key_factory` returns, decoded; `none` if that is no ASCII
  pub generated : Option Text

pub record KeyringRequest : Type 0 where
  pub new_primary_id : Text
  pub legacy_key_id : Option Text
  pub activate_existing : Bool

abbrev pub keyring_name : Text
keyring_name = codes "master_keyring"

module _ (p : KeyringCalls) (request : KeyringRequest) where
  -- `_load_keyring`
  unfoldable pub load_keyring : ReadCall → Files → Result Raised (Document × ℕ)
  unfolding read_secret load_text
  load_keyring call files = do
    (raw, mode) ← read_secret p.codec call 65536 keyring_name files
    document ← load_text p.cryptography raw
    ok (document, mode)

  abbrev pub check_written : Document → Result Raised (Document × ℕ) → Result Raised Bool
  check_written document (err e) = err e
  check_written document (ok (written, mode)) =
      if same_document written document then ok true else err (tool keyring_unverified)

  -- the write and its verification
  unfoldable pub store_document : Document → ℕ → Action Bool
  unfolding same_document
  store_document document mode w =
      proceed
        (with_files w
          (atomic_write_secret p.write p.codec keyring_name (p.dumps document) mode w.files))
        (λ _ w1. (check_written document (load_keyring p.read_again w1.files), w1))

  -- a key that is there becomes the primary one
  abbrev pub activate : Document → ℕ → Action Bool
  activate document mode w =
      if document.primary == request.new_primary_id
      then (ok false, w)
      else if not request.activate_existing
      then (err (tool key_exists), w)
      else store_document (record document { primary = request.new_primary_id }) mode w

  abbrev pub generated_key : Result Raised Text
  generated_key = elim p.generated [
    | none ↦ err (tool bad_generator)
    | some value ↦ validate_fernet_key p.cryptography value
  ]

  abbrev pub with_generated : Document → ℕ → Result Raised Text → Action Bool
  with_generated document mode (err e) w = (err e, w)
  with_generated document mode (ok value) w =
      store_document
        (record document {
          primary = request.new_primary_id;
          keys = set_key request.new_primary_id value document.keys;
        })
        mode w

  -- a new key is added
  unfoldable pub add_key : Document → ℕ → Action Bool
  unfolding store_document
  add_key document mode w =
      if leb maximum_keys (length document.keys)
      then (err (tool limit_reached), w)
      else with_generated document mode generated_key w

  abbrev pub rotate_loaded : Result Raised (Document × ℕ) → Action Bool
  rotate_loaded (err e) w = (err e, w)
  rotate_loaded (ok (document, file_mode)) w =
      let mode : ℕ = container_secret_mode p.is_windows file_mode in
      if any (λ k. k.0 == request.new_primary_id) document.keys
      then activate document mode w
      else add_key document mode w

  -- the document of an installation that has one key and no keyring
  abbrev pub imported : Text → Result Raised (Text × ℕ) → Result Raised (Document × ℕ)
  imported id (err e) = err e
  imported id (ok (value, mode)) = do
    key ← validate_fernet_key p.cryptography value
    ok (record { version = integer 1; primary = id; keys = (id, key) ∷ [] }, mode)

  abbrev pub import_legacy : Option Text → Files → Result Raised (Document × ℕ)
  import_legacy none files = err (tool legacy_id_required)
  import_legacy (some id) files =
      if not (is_key_id id)
      then err (tool invalid_key_id)
      else if id == request.new_primary_id
      then err (tool same_ids)
      else imported id (read_secret p.codec p.read_legacy 65536 (codes "master_key") files)

  abbrev pub add_imported : Result Raised (Document × ℕ) → Action Bool
  add_imported (err e) w = (err e, w)
  add_imported (ok (document, file_mode)) w =
      add_key document (container_secret_mode p.is_windows file_mode) w

  -- the body of the lock
  unfoldable pub rotate_keyring : Action Bool
  unfolding load_keyring add_key read_secret
  rotate_keyring w =
      if file_exists keyring_name w.files
      then rotate_loaded (load_keyring p.read w.files) w
      else if request.activate_existing
      then (err (tool no_keyring), w)
      else add_imported (import_legacy request.legacy_key_id w.files) w

  abbrev pub check_request : Result Raised (Unit {0})
  check_request =
      require_secure_directory p.is_windows p.directory
      >> (validate_key_id request.new_primary_id >>= λ id. ok tt)

  abbrev pub when_checked_request : Result Raised (Unit {0}) → Action Bool
  when_checked_request (err e) w = (err e, w)
  when_checked_request (ok _) w =
      exclusive_rotation_lock p.lock (codes ".credential-keyring.rotation.lock") rotate_keyring w

  -- `rotate_credential_keyring`
  unfoldable pub rotate_credential_keyring : Action Bool
  unfolding rotate_keyring require_secure_directory is_key_id
  rotate_credential_keyring w = when_checked_request check_request w
