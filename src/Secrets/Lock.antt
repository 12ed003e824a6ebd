-- ===== src/Secrets/Lock.antt =====
-- scripts/rotation_common.py: `exclusive_rotation_lock`.
use mailgate.Common.{Result, ok, err, Text, if◌then◌else◌, Bool, not, ◌||◌, Option, none, some, []}
use mailgate.Secrets.{
  rotation_active, lock_unavailable, lock_not_released, Raised, tool, system_error, put_file,
  file_exists, Installation, Action, DirectoryStatus, require_secure_directory,
}
use mailgate.Secrets.Writing.{new_entry}

pub record LockCall : Type 0 where
  pub is_windows : Bool
  pub directory : Option DirectoryStatus
  pub open_fails : Bool
  -- whether writing the process number raises
  pub note_fails : Bool
  pub unlink_fails : Bool

abbrev pub release :
    {A : Type 0} → LockCall → Text → Result Raised A × Installation → Result Raised A × Installation
release call name (r, w) =
    if call.unlink_fails || not (file_exists name w.files)
    then (err (tool lock_not_released), w)
    else (r, record w { files = put_file name none w.files })

abbrev pub acquire : {A : Type 0} → LockCall → Text → Action A → Action A
acquire call name body w =
    if file_exists name w.files
    then (err (tool rotation_active), w)
    else if call.open_fails
    then (err (tool lock_unavailable), w)
    else let held : Installation = record w {
      files = put_file name (some (new_entry 0 [])) w.files;
    } in
      release call name (if call.note_fails then (err system_error, held) else body held)

-- `exclusive_rotation_lock`
unfoldable pub exclusive_rotation_lock : {A : Type 0} → LockCall → Text → Action A → Action A
unfolding require_secure_directory
exclusive_rotation_lock call name body w =
    elim (require_secure_directory call.is_windows call.directory) [
      | err e ↦ (err e, w)
      | ok _ ↦ acquire call name body w
    ]
