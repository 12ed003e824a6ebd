-- ===== src/Backup/Scripts.antt =====
-- scripts/backup.py and scripts/restore.py: `create_backup` and `restore_backup`, with `load_backup_key`
-- of scripts/backup_archive.py. Docker, PostgreSQL and the file system are arguments.
pub mod Restored
use mailgate.Backup.{ArchiveLibraries, ArchiveError, encrypt_stream, decrypt_archive}
use mailgate.Backup.Payload.{
  BackupError, archive, output_exists, no_docker, dump_failed, invalid_key, project_required,
  production_project, project_characters, wrong_confirmation, linked_path, directory_not_empty,
  write_failed, restore_failed, BundleLibraries, KeyFile, credential_bundle, read_credential_bundle,
}
use mailgate.Common.{
  length, all, Result, ok, err, ◌>>=◌, ◌>>◌, Text, Bytes, codes, is_digit, is_lower, is_space,
  strip, is_infix, leb, if◌then◌else◌, ◌==◌, nat_eq, list_eq, option_eq, ℕ, zero, suc, Bool, true,
  false, not, ◌&&◌, ◌||◌, Option, none, some, List, [], ◌∷◌, ◌++◌,
}
use mailgate.Json.{boolean, integer, string, Fields, no_fields, a_field}

-- `load_backup_key`: the text of the file, if it can be read, and what base64 makes of it
abbrev pub check_key : Option Bytes → Result BackupError Bytes
check_key none = err invalid_key
check_key (some key) = if length key == 32 then ok key else err invalid_key

abbrev pub load_backup_key : (Text → Option Bytes) → Option Text → Result BackupError Bytes
load_backup_key decode none = err invalid_key
load_backup_key decode (some text) = check_key (decode (strip is_space text))

pub record BackupCalls : Type 0 where
  pub archives : ArchiveLibraries
  pub bundles : BundleLibraries
  -- `base64.urlsafe_b64decode`
  pub decode_key : Text → Option Bytes
  pub key_text : Option Text
  pub has_docker : Bool
  -- `str.lower`
  pub lower : Text → Text

abbrev pub from_archive : {A : Type 0} → Result ArchiveError A → Result BackupError A
from_archive (ok a) = ok a
from_archive (err e) = err (archive e)

pub record DumpRun : Type 0 where
  pub is_output_there : Bool
  pub master_key : KeyFile
  pub master_keyring : KeyFile
  -- `--project-name`, empty for none
  pub compose_project : Text
  -- the time, in ISO format, and `MAILGATE_DATABASE_NAME`
  pub created_at : Text
  pub database : Text
  -- what `git rev-parse` returned and wrote, if there is Git
  pub git_head : Option (ℕ × Text)
  -- what pg_dump wrote, and its return code
  pub dump : Bytes
  pub return_code : ℕ
  -- `os.urandom(12)`
  pub nonce : Bytes

-- `re.fullmatch` of `[a-z0-9][a-z0-9_-]{2,62}`
abbrev pub is_project_char : ℕ → Bool
is_project_char c = is_lower c || is_digit c || c == b'_' || c == b'-'

abbrev pub is_project_name : Text → Bool
is_project_name [] = false
is_project_name (c ∷ s) =
    (is_lower c || is_digit c) && (all is_project_char s && (leb 2 (length s) && leb (length s) 62))

-- `validate_restore_project`
unfoldable pub validate_restore_project : Text → Result BackupError Text
validate_restore_project [] = err project_required
validate_restore_project (c ∷ s) =
    if (c ∷ s) == codes "mailgate" || not (is_infix (codes "restore") (c ∷ s))
    then err production_project
    else if is_project_name (c ∷ s)
    then ok (c ∷ s)
    else err project_characters

-- What `recover_credential_bundle` finds at the target: a link on its path, another thing than a
-- directory, nothing, or a directory of that many entries.
pub data RecoveryTarget : Type 0 where
  linked other_thing nothing_there : RecoveryTarget
  directory : ℕ → RecoveryTarget

-- The files that are created; `fails` says at which file writing raises, and all of them go.
abbrev pub write_files :
    (Text → Bool)
    → List (Text × Text)
    → List (Text × Text)
    → Result BackupError (List (Text × Text))
write_files fails written [] = ok written
write_files fails written ((name, value) ∷ items) =
    let rest = write_files fails (written ++ (name, value ++ codes "\n") ∷ []) items in
    if fails name then err write_failed else rest

-- `recover_credential_bundle`
unfoldable pub recover_credential_bundle :
    RecoveryTarget → (Text → Bool) → List (Text × Text) → Result BackupError (List (Text × Text))
recover_credential_bundle linked fails bundle = err linked_path
recover_credential_bundle other_thing fails bundle = err directory_not_empty
recover_credential_bundle nothing_there fails bundle = write_files fails [] bundle
recover_credential_bundle (directory zero) fails bundle = write_files fails [] bundle
recover_credential_bundle (directory (suc n)) fails bundle = err directory_not_empty

pub record RestoreRun : Type 0 where
  pub project_name : Text
  pub confirmation : Text
  -- the return code of pg_restore for what it reads
  pub pg_restore : Bytes → ℕ
  pub target : Option RecoveryTarget
  pub fails : Text → Bool

-- What a restore has done: what pg_restore read, and the files that it recovered.
pub record Restore : Type 0 where
  pub metadata : Fields
  pub restored : Bytes
  pub recovered : List (Text × Text)

module _ (c : BackupCalls) where
  abbrev pub load_key : Result BackupError Bytes
  load_key = load_backup_key c.decode_key c.key_text

  abbrev pub docker : Result BackupError (Unit {0})
  docker = if c.has_docker then ok tt else err no_docker

  -- the archive, which replaces the output only if pg_dump succeeded
  abbrev pub publish_dump : ℕ → Bytes → Result BackupError Bytes
  publish_dump return_code content = if return_code == 0 then ok content else err dump_failed

  -- `_git_commit`
  abbrev pub git_commit : Option (ℕ × Text) → Text
  git_commit none = codes "unknown"
  git_commit (some (return_code, output)) =
      let value : Text = c.lower (strip is_space output) in
      if return_code == 0 && length value == 40 then value else codes "unknown"

  abbrev pub project_or_default : Text → Text
  project_or_default [] = codes "mailgate"
  project_or_default (x ∷ s) = x ∷ s

  abbrev pub metadata_of : DumpRun → Fields
  metadata_of run = a_field (codes "archive_version") (integer 1) (
      a_field (codes "created_at") (string run.created_at) (
        a_field (codes "database") (string run.database) (
          a_field (codes "git_commit") (string (git_commit run.git_head)) (
            a_field (codes "includes_credential_key_bundle") (boolean true) (
              a_field (codes "project_name") (string (project_or_default run.compose_project))
                no_fields)))))

  -- `create_backup`: the content of the new file
  unfoldable pub create_backup : DumpRun → Result BackupError Bytes
  create_backup run =
      if run.is_output_there
      then err output_exists
      else (load_key >>= λ key.
          credential_bundle c.bundles run.master_key run.master_keyring >>= λ prefix.
          docker
          >> (from_archive
                (encrypt_stream c.archives key run.nonce (metadata_of run) (prefix ++ run.dump))
              >>= publish_dump run.return_code))

  abbrev pub recover :
      Option RecoveryTarget
      → (Text → Bool)
      → List (Text × Text)
      → Result BackupError (List (Text × Text))
  recover none fails bundle = ok []
  recover (some target) fails bundle = recover_credential_bundle target fails bundle

  abbrev pub restore_payload :
      RestoreRun → Fields → List (Text × Text) × Bytes → Result BackupError Restore
  restore_payload run metadata (bundle, dump) =
      if run.pg_restore dump == 0
      then (recover run.target run.fails bundle >>= λ files.
          ok (record { metadata = metadata; restored = dump; recovered = files }))
      else err restore_failed

  -- `restore_backup`
  unfoldable pub restore_backup : RestoreRun → Bytes → Result BackupError Restore
  restore_backup run content = validate_restore_project run.project_name >>= λ project.
      if not (run.confirmation == codes "RESTORE " ++ project)
      then err wrong_confirmation
      else (load_key >>= λ key.
          from_archive (decrypt_archive c.archives key content) >>= λ (payload, metadata).
          docker >> (read_credential_bundle c.bundles payload >>= restore_payload run metadata))
