-- ===== src/Secrets/Writing.antt =====
-- scripts/rotation_common.py: `harden_secret_file` and `atomic_write_secret`.
pub mod Atomic
use mailgate.Common.{
  take, Result, ok, err, ◌>>◌, Text, Bytes, codes, if◌then◌else◌, ◌==◌, nat_eq, list_eq, option_eq,
  ℕ, Bool, true, false, ◌||◌, Option, none, some, ◌∷◌, ◌++◌,
}
use mailgate.Secrets.{
  permissions_not_applied, acl_unavailable, acl_not_applied, target_uninspected, target_not_private,
  not_replaced, temporary_not_removed, Raised, tool, system_error, subprocess_error, regular_file,
  Entry, Files, put_file, file_exists, DirectoryStatus, require_secure_directory, is_private, Codec,
}

-- What `harden_secret_file` meets: on Windows whether icacls is there, and its return code, if it does
-- not run into the timeout; else whether chmod raises, and the mode that `stat` then shows.
pub data Platform : Type 0 where
  windows : Bool → Option ℕ → Platform
  posix : Bool → ℕ → Platform

abbrev pub run_icacls : Option ℕ → Entry → Result Raised (Unit {0}) × Entry
run_icacls none e = (err subprocess_error, e)
run_icacls (some return_code) e =
    (if return_code == 0 then ok tt else err (tool acl_not_applied), e)

-- `harden_secret_file`
unfoldable pub harden_secret_file : Platform → ℕ → Entry → Result Raised (Unit {0}) × Entry
harden_secret_file (windows has_icacls return_code) mode e =
    if has_icacls then run_icacls return_code e else (err (tool acl_unavailable), e)
harden_secret_file (posix chmod_fails shown) mode e =
    if chmod_fails then (err system_error, e) else (
      if shown == mode then ok tt else err (tool permissions_not_applied),
      record e { mode = shown },
    )

pub record WriteCall : Type 0 where
  pub directory : Option DirectoryStatus
  pub inspect_fails : Bool
  -- `secrets.token_hex(12)`
  pub token : Text
  pub open_fails : Bool
  -- how many bytes are written, where writing raises
  pub cut : Option ℕ
  pub platform : Platform
  pub replace_fails : Bool
  pub sync_fails : Bool
  pub unlink_fails : Bool
  -- of the new file
  pub identity : ℕ

abbrev pub is_windows_call : Platform → Bool
is_windows_call (windows _ _) = true
is_windows_call (posix _ _) = false

abbrev pub temporary_name : Text → Text → Text
temporary_name token name = b'.' ∷ (name ++ (codes ".rotation-" ++ token))

abbrev pub new_entry : ℕ → Bytes → Entry
new_entry identity content = record {
  kind = regular_file;
  links = 1;
  mode = 384;
  identity = identity;
  content = content;
}

module _ (call : WriteCall) where
  -- `os.replace` and `_fsync_directory`, once the file is hardened
  abbrev pub publish :
      Text → Text → Result Raised (Unit {0}) × Entry → Files → Result Raised (Unit {0}) × Files
  publish temporary name (err e, entry) files = (err e, put_file temporary (some entry) files)
  publish temporary name (ok _, entry) files =
      let moved : Files = put_file temporary none (put_file name (some entry) files) in
      if call.replace_fails
      then (err system_error, put_file temporary (some entry) files)
      else (if call.sync_fails then err system_error else ok tt, moved)

  abbrev pub fill_temporary :
      Option ℕ → Text → Text → Bytes → ℕ → Files → Result Raised (Unit {0}) × Files
  fill_temporary (some n) temporary name content mode files =
      (err system_error, put_file temporary (some (new_entry call.identity (take n content))) files)
  fill_temporary none temporary name content mode files =
      publish temporary name
        (harden_secret_file call.platform mode (new_entry call.identity content)) files

  -- the `try` block
  abbrev pub write_temporary : Text → Text → Bytes → ℕ → Files → Result Raised (Unit {0}) × Files
  write_temporary temporary name content mode files =
      if call.open_fails || file_exists temporary files
      then (err system_error, files)
      else fill_temporary call.cut temporary name content mode files

  -- `except OSError`
  abbrev pub as_tool_error : Result Raised (Unit {0}) → Result Raised (Unit {0})
  as_tool_error (err system_error) = err (tool not_replaced)
  as_tool_error r = r

  -- the `finally` block
  abbrev pub clean_up : Text → Result Raised (Unit {0}) × Files → Result Raised (Unit {0}) × Files
  clean_up temporary (r, files) =
      if call.unlink_fails
      then (err (tool temporary_not_removed), files)
      else (as_tool_error r, put_file temporary none files)

  abbrev pub replace_secret : Codec → Text → Text → ℕ → Files → Result Raised (Unit {0}) × Files
  replace_secret codec name value mode files =
      let temporary : Text = temporary_name call.token name in
      clean_up temporary
        (write_temporary temporary name (codec.encode (value ++ codes "\n")) mode files)

  -- the checks of the file that is replaced, if there is one
  abbrev pub check_target : Option Entry → Result Raised (Unit {0})
  check_target none = ok tt
  check_target (some e) =
      if call.inspect_fails
      then err (tool target_uninspected)
      else if is_private e
      then ok tt
      else err (tool target_not_private)

  abbrev pub when_checked :
      Result Raised (Unit {0})
      → Result Raised (Unit {0}) × Files
      → Files
      → Result Raised (Unit {0}) × Files
  when_checked (err e) r files = (err e, files)
  when_checked (ok _) r files = r

  -- `atomic_write_secret`
  unfoldable pub atomic_write_secret :
      Codec → Text → Text → ℕ → Files → Result Raised (Unit {0}) × Files
  unfolding require_secure_directory harden_secret_file
  atomic_write_secret codec name value mode files =
      when_checked
        (require_secure_directory (is_windows_call call.platform) call.directory
          >> check_target (files name))
        (replace_secret codec name value mode files) files
