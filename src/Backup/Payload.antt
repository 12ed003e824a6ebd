-- ===== src/Backup/Payload.antt =====
-- scripts/backup.py and scripts/restore.py: the payload of a backup, which is the credential keys and then
-- the dump of the database.
pub mod Bundled
pub mod Kept
use mailgate.Backup.{ArchiveError, pack, unpack}
use mailgate.Common.{
  length, take, drop, is_empty, Result, ok, err, ◌>>=◌, Text, Bytes, codes, is_space, strip, ltb,
  leb, if◌then◌else◌, ◌==◌, nat_eq, list_eq, option_eq, ℕ, zero, suc, ◌-◌, ◌*◌, not, ◌&&◌, ◌||◌,
  Option, none, some, List, [], ◌∷◌, ◌++◌,
}
use mailgate.Json.{Json, string, object, Fields, no_fields, a_field}

-- `BackupArchiveError` of the two scripts
pub data BackupError : Type 0 where
  archive : ArchiveError → BackupError
  bundle_unreadable no_master_key bundle_too_large : BackupError
  no_payload_magic payload_truncated invalid_bundle_size invalid_bundle invalid_schema : BackupError
  output_exists no_docker dump_failed invalid_key : BackupError
  project_required production_project project_characters wrong_confirmation : BackupError
  linked_path directory_not_empty write_failed restore_failed : BackupError

-- `json.dumps` and `json.loads` of the bundle
pub record BundleLibraries : Type 0 where
  pub dumps : Fields → Bytes
  pub loads : Bytes → Option Json

abbrev pub payload_magic : Bytes
payload_magic = codes "MAILGATE-PGDUMP" ++ 0 ∷ []

abbrev pub max_bundle_bytes : ℕ
max_bundle_bytes = 64 * 1024

-- One of the two key files: it is no file, reading it raises, or it has a text.
pub data KeyFile : Type 0 where
  absent unreadable : KeyFile
  holds : Text → KeyFile

abbrev pub add_file : Text → KeyFile → Fields → Result BackupError Fields
add_file name absent fs = ok fs
add_file name unreadable fs = err bundle_unreadable
add_file name (holds s) fs = ok (a_field name (string (strip is_space s)) fs)

abbrev pub sized_bundle : Bytes → Result BackupError Bytes
sized_bundle encoded =
    if ltb max_bundle_bytes (length encoded)
    then err bundle_too_large
    else ok (payload_magic ++ (pack (length encoded) ++ encoded))

abbrev pub bundle_of : BundleLibraries → Fields → Result BackupError Bytes
bundle_of l no_fields = err no_master_key
bundle_of l (a_field k v fs) = sized_bundle (l.dumps (a_field k v fs))

-- the values, in the order of their names
abbrev pub bundle_values : KeyFile → KeyFile → Result BackupError Fields
bundle_values master_key master_keyring =
    add_file (codes "master_keyring") master_keyring no_fields
    >>= add_file (codes "master_key") master_key

-- `credential_bundle`
unfoldable pub credential_bundle : BundleLibraries → KeyFile → KeyFile → Result BackupError Bytes
unfolding pack strip is_space
credential_bundle l master_key master_keyring =
    bundle_values master_key master_keyring >>= bundle_of l

-- `PrefixedReader`
pub record PrefixedReader : Type 0 where
  pub prefix : Bytes
  pub source : Bytes

-- `read` of `size` bytes, from 0 on
unfoldable pub read_prefixed : ℕ → PrefixedReader → Bytes × PrefixedReader
read_prefixed size r =
    let first : Bytes = take size r.prefix in
    (
      first ++ take (size - length first) r.source,
      record { prefix = drop size r.prefix; source = drop (size - length first) r.source },
    )

abbrev pub add_chunk : Bytes → Option (List Bytes) → Option (List Bytes)
add_chunk chunk none = none
add_chunk chunk (some chunks) = some (chunk ∷ chunks)

-- `while chunk := source.read(CHUNK_BYTES)`, on fuel
unfoldable pub read_chunks : ℕ → ℕ → PrefixedReader → Option (List Bytes)
unfolding read_prefixed
read_chunks zero size r = none
read_chunks (suc fuel) size r =
    let (chunk, r') = read_prefixed size r in
    let rest = add_chunk chunk (read_chunks fuel size r') in
    if is_empty chunk then some [] else rest

-- A dictionary has a repeated key once, with its last value.
abbrev pub set_item : Text → Json → List (Text × Json) → List (Text × Json)
set_item k v [] = (k, v) ∷ []
set_item k v ((j, w) ∷ ks) = if j == k then (j, v) ∷ ks else (j, w) ∷ set_item k v ks

abbrev pub dict_of : Fields → List (Text × Json) → List (Text × Json)
dict_of no_fields items = items
dict_of (a_field k v fs) items = dict_of fs (set_item k v items)

abbrev pub check_item : Text × Json → Result BackupError (Text × Text)
check_item (name, string (c ∷ s)) =
    if name == codes "master_key" || name == codes "master_keyring"
    then ok (name, c ∷ s)
    else err invalid_schema
check_item _ = err invalid_schema

abbrev pub check_items : List (Text × Json) → Result BackupError (List (Text × Text))
check_items [] = ok []
check_items (item ∷ items) =
    let rest = check_items items in
    check_item item >>= λ checked. rest >>= λ others. ok (checked ∷ others)

abbrev pub check_bundle : Option Json → Result BackupError (List (Text × Text))
check_bundle (some (object (a_field k v fs))) = check_items (dict_of (a_field k v fs) [])
check_bundle (some _) = err invalid_schema
check_bundle none = err invalid_bundle

abbrev pub read_sized :
    BundleLibraries → ℕ → Bytes → Result BackupError (List (Text × Text) × Bytes)
read_sized l size rest =
    if not (leb 1 size && leb size max_bundle_bytes)
    then err invalid_bundle_size
    else check_bundle (l.loads (take size rest)) >>= λ bundle. ok (bundle, drop size rest)

-- `read_credential_bundle`: the bundle, and what the file has behind it
unfoldable pub read_credential_bundle :
    BundleLibraries → Bytes → Result BackupError (List (Text × Text) × Bytes)
unfolding unpack
read_credential_bundle l payload =
    let rest : Bytes = drop 16 payload in
    let size_bytes : Bytes = take 4 rest in
    if not (take 16 payload == payload_magic)
    then err no_payload_magic
    else if not (length size_bytes == 4)
    then err payload_truncated
    else read_sized l (unpack size_bytes) (drop 4 rest)
