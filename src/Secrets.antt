-- ===== src/Secrets.antt =====
-- scripts/rotation_common.py: secret files, how they are read and replaced, and the lock of a rotation.
-- What the operating system answers to each call is an argument: a fault is a Boolean that is true.
pub mod Writing
pub mod Lock
pub mod Document
pub mod Keyring
pub mod Postgres
mod Tests
use mailgate.Common.{
  length, is_empty, is_some, contains, Result, ok, err, Text, Bytes, is_space, strip, ltb,
  if◌then◌else◌, ◌==◌, nat_eq, list_eq, option_eq, ℕ, ◌%◌, Bool, false, not, ◌&&◌, ◌||◌, Option,
  none, some,
}

-- The messages of `RotationToolError`, of this script and of the two that use it.
pub data ToolError : Type 0 where
  directory_unavailable directory_not_real directory_not_private : ToolError
  permissions_not_applied acl_unavailable acl_not_applied : ToolError
  file_unavailable file_not_private file_changed : ToolError
  file_unreadable file_too_large file_not_text : ToolError
  file_malformed target_uninspected target_not_private : ToolError
  not_replaced temporary_not_removed rotation_active : ToolError
  lock_unavailable lock_not_released duplicate_fields : ToolError
  invalid_key_id invalid_fernet_key not_json : ToolError
  unsupported_shape version_unsupported invalid_primary : ToolError
  invalid_key_count invalid_entries primary_unavailable : ToolError
  key_exists : ToolError
  no_keyring legacy_id_required same_ids : ToolError
  limit_reached bad_generator keyring_unverified : ToolError
  repository_unavailable invalid_database_name malformed_password : ToolError
  old_password_again not_executed channel_unavailable : ToolError
  secret_not_authenticated update_rejected new_secret_failed : ToolError
  bootstrap_failed rollback_rejected failed_before_change : ToolError
  new_value_remains alignment_unknown old_file_not_restored : ToolError
  old_restored : ToolError

-- What a call raises.
pub data Raised : Type 0 where
  tool : ToolError → Raised
  system_error subprocess_error : Raised

pub data Kind : Type 0 where
  regular_file symbolic_link other_kind : Kind

-- A path of the secret directory: what `lstat` says of it, and its bytes.
pub record Entry : Type 0 where
  pub kind : Kind
  pub links : ℕ
  pub mode : ℕ
  pub identity : ℕ
  pub content : Bytes

abbrev pub Files : Type 0
Files = Text → Option Entry

abbrev pub put_file : Text → Option Entry → Files → Files
put_file name e files = λ j. if j == name then e else files j

abbrev pub file_exists : Text → Files → Bool
file_exists name files = is_some (files name)

-- The secret directory, and the password that the database has for its administrator.
pub record Installation : Type 0 where
  pub files : Files
  pub password : Text

-- What a script does to the world; it returns or raises.
abbrev pub Action : Type 0 → Type 0
Action A = Installation → Result Raised A × Installation

abbrev pub proceed :
    {A B : Type 0}
    → Result Raised A × Installation
    → (A → Action B)
    → Result Raised B × Installation
proceed (ok a, w) f = f a w
proceed (err e, w) f = (err e, w)

abbrev pub with_files :
    {A : Type 0} → Installation → Result Raised A × Files → Result Raised A × Installation
with_files w (r, files) = (r, record w { files = files })

-- `lstat` of the secret directory, with whether its owner is the user
pub record DirectoryStatus : Type 0 where
  pub is_link : Bool
  pub is_directory : Bool
  pub is_owned : Bool
  pub mode : ℕ

-- `mode & 0o077`, the last six bits
abbrev pub open_to_others : ℕ → Bool
open_to_others mode = not (mode % 64 == 0)

abbrev pub check_directory : Bool → DirectoryStatus → Result Raised (Unit {0})
check_directory is_windows s =
    if s.is_link || not s.is_directory
    then err (tool directory_not_real)
    else if not is_windows && (not s.is_owned || open_to_others s.mode)
    then err (tool directory_not_private)
    else ok tt

-- `require_secure_directory`; without a status, `lstat` raises
unfoldable pub require_secure_directory : Bool → Option DirectoryStatus → Result Raised (Unit {0})
require_secure_directory is_windows none = err (tool directory_unavailable)
require_secure_directory is_windows (some s) = check_directory is_windows s

-- `container_secret_mode`
abbrev pub container_secret_mode : Bool → ℕ → ℕ
container_secret_mode is_windows mode = if is_windows then mode else 292

-- A regular file with no other name.
abbrev pub is_private : Entry → Bool
is_private e = elim e.kind [
  | regular_file ↦ e.links == 1
  | symbolic_link ↦ false
  | other_kind ↦ false
]

pub record Codec : Type 0 where
  pub encode : Text → Bytes
  -- `none` is `UnicodeDecodeError`
  pub decode : Bytes → Option Text

-- A file may be another one when it is opened; `none` if opening or reading raises.
abbrev pub ReadCall : Type 0
ReadCall = Entry → Option Entry

abbrev pub checked_text : Option Text → ℕ → Result Raised (Text × ℕ)
checked_text none mode = err (tool file_not_text)
checked_text (some text) mode =
    let value : Text = strip is_space text in
    if is_empty value || contains value 0 then err (tool file_malformed) else ok (value, mode)

abbrev pub read_opened : Codec → ℕ → Entry → Option Entry → Result Raised (Text × ℕ)
read_opened codec maximum seen none = err (tool file_unreadable)
read_opened codec maximum seen (some opened) =
    if not (opened.identity == seen.identity)
    then err (tool file_changed)
    else if ltb maximum (length opened.content)
    then err (tool file_too_large)
    else checked_text (codec.decode opened.content) seen.mode

abbrev pub read_entry : Codec → ReadCall → ℕ → Option Entry → Result Raised (Text × ℕ)
read_entry codec call maximum none = err (tool file_unavailable)
read_entry codec call maximum (some e) =
    if is_private e then read_opened codec maximum e (call e) else err (tool file_not_private)

-- `read_secret`: the value and the mode
unfoldable pub read_secret : Codec → ReadCall → ℕ → Text → Files → Result Raised (Text × ℕ)
unfolding strip is_space
read_secret codec call maximum name files = read_entry codec call maximum (files name)
