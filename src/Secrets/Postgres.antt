-- ===== src/Secrets/Postgres.antt =====
-- scripts/rotate_postgres_admin_password.py. `SecretWriter` is `atomic_write_secret`; what Docker and
-- PostgreSQL do is an argument.
pub mod Rollback
pub mod Cluster
pub mod Steps
pub mod Told
pub mod Verdict
use mailgate.Common.{
  length, any, all, contains, Result, ok, err, ◌>>=◌, Text, codes, is_digit, is_lower, is_upper,
  ltb, leb, if◌then◌else◌, ◌==◌, nat_eq, list_eq, option_eq, ℕ, Bool, false, not, ◌&&◌, ◌||◌,
  Option, [], ◌∷◌,
}
use mailgate.Secrets.{
  ToolError, repository_unavailable, invalid_database_name, malformed_password, old_password_again,
  not_executed, channel_unavailable, secret_not_authenticated, update_rejected, new_secret_failed,
  bootstrap_failed, rollback_rejected, new_value_remains, alignment_unknown, old_file_not_restored,
  old_restored, Raised, tool, Files, Installation, Action, proceed, with_files, DirectoryStatus,
  require_secure_directory, container_secret_mode, Codec, ReadCall, read_secret,
}
use mailgate.Secrets.Lock.{LockCall, exclusive_rotation_lock}
use mailgate.Secrets.Writing.{WriteCall, atomic_write_secret}

-- The commands that the script hands to Docker. `set_password` is psql's prompt, which reads the value.
pub data Command : Type 0 where
  local_select tcp_probe bootstrap : Command
  set_password : Text → Command

-- The return code is 0, or it is not, or the call raises.
pub data Answer : Type 0 where
  succeeded failed broken : Answer

-- What a command does, where it stands in the run, to the world.
abbrev pub DockerRunner : Type 0
DockerRunner = ℕ → Command → Installation → Answer × Installation

abbrev pub demand : ToolError → Answer × Installation → Result Raised (Unit {0}) × Installation
demand stage (succeeded, w) = (ok tt, w)
demand stage (failed, w) = (err (tool stage), w)
demand stage (broken, w) = (err (tool not_executed), w)

-- `_require_success`, of the call number `n`
abbrev pub require_success : DockerRunner → ℕ → Command → ToolError → Action (Unit {0})
require_success runner n command stage w = demand stage (runner n command w)

-- `DATABASE_NAME_RE.fullmatch`, of `^[A-Za-z0-9][A-Za-z0-9_.-]{0,62}$`
abbrev pub is_name_char : ℕ → Bool
is_name_char c = is_upper c || is_lower c || is_digit c || contains (codes "_.-") c

unfoldable pub is_database_name : Text → Bool
is_database_name [] = false
is_database_name (c ∷ s) =
    (is_upper c || is_lower c || is_digit c) && (all is_name_char s && leb (length s) 62)

-- `_validate_password`
unfoldable pub validate_password : Text → Result Raised Text
validate_password value =
    if not (leb 16 (length value) && leb (length value) 1024) || any (λ c. ltb c 32) value
    then err (tool malformed_password)
    else ok value

abbrev pub secret_name : Text
secret_name = codes "postgres_password"

pub record PostgresCalls : Type 0 where
  pub is_repository : Bool
  pub database_name : Text
  pub codec : Codec
  pub is_windows : Bool
  pub directory : Option DirectoryStatus
  pub lock : LockCall
  pub read : ReadCall
  pub runner : DockerRunner
  -- `password_factory`
  pub generated : Text
  -- the writes of the change, of the rollback, and after a failed rollback
  pub write : WriteCall
  pub write_back : WriteCall
  pub write_again : WriteCall

module _ (p : PostgresCalls) where
  abbrev pub write_secret : WriteCall → Text → ℕ → Action (Unit {0})
  write_secret call value mode w =
      with_files w (atomic_write_secret call p.codec secret_name value mode w.files)

  -- a write and the probe after it
  abbrev pub write_and_probe : WriteCall → Text → ℕ → ℕ → ToolError → Action (Unit {0})
  write_and_probe call value mode n stage w =
      proceed (write_secret call value mode w) (λ _. require_success p.runner n tcp_probe stage)

  -- the `try` block of the change
  unfoldable pub change : Text → ℕ → Action (Unit {0})
  change new mode w =
      proceed (require_success p.runner 2 (set_password new) update_rejected w) (λ _ w1.
        proceed (write_and_probe p.write new mode 3 new_secret_failed w1)
          (λ _. require_success p.runner 4 bootstrap bootstrap_failed))

  -- the end of an attempt, by whether it raised
  abbrev pub finish :
      ToolError
      → ToolError
      → Result Raised (Unit {0}) × Installation
      → Result Raised (Unit {0}) × Installation
  finish good bad (ok _, w) = (err (tool good), w)
  finish good bad (err _, w) = (err (tool bad), w)

  -- once the password of the database is set back, or is not
  abbrev pub after_rollback :
      Text
      → Text
      → ℕ
      → Result Raised (Unit {0}) × Installation
      → Result Raised (Unit {0}) × Installation
  after_rollback old new mode (err _, w) =
      finish new_value_remains alignment_unknown
        (write_and_probe p.write_again new mode 6 secret_not_authenticated w)
  after_rollback old new mode (ok _, w) =
      finish old_restored old_file_not_restored
        (write_and_probe p.write_back old mode 6 secret_not_authenticated w)

  -- the handler of `BaseException`: `database_change_attempted` is set before the first call
  unfoldable pub roll_back :
      Text
      → Text
      → ℕ
      → Result Raised (Unit {0}) × Installation
      → Result Raised (Unit {0}) × Installation
  roll_back old new mode (ok _, w) = (ok tt, w)
  roll_back old new mode (err _, w) =
      after_rollback old new mode
        (require_success p.runner 5 (set_password old) rollback_rejected w)

  -- with both passwords, once both channels work
  abbrev pub replace_password : Text → Text → ℕ → Action (Unit {0})
  replace_password old new mode w =
      if new == old
      then (err (tool old_password_again), w)
      else proceed (require_success p.runner 0 local_select channel_unavailable w) (λ _ w1.
        proceed (require_success p.runner 1 tcp_probe secret_not_authenticated w1)
          (λ _ w2. roll_back old new mode (change new mode w2)))

  abbrev pub with_passwords : Result Raised (Text × Text × ℕ) → Action (Unit {0})
  with_passwords (err e) w = (err e, w)
  with_passwords (ok (old, new, mode)) w = replace_password old new mode w

  abbrev pub read_passwords : Files → Result Raised (Text × Text × ℕ)
  read_passwords files = read_secret p.codec p.read 4096 secret_name files >>= λ (old, mode).
      validate_password old >>= λ old'. validate_password p.generated >>= λ new.
      ok (old', new, container_secret_mode p.is_windows mode)

  -- the body of the lock
  unfoldable pub rotate_locked : Action (Unit {0})
  unfolding read_secret validate_password change roll_back
  rotate_locked w = with_passwords (read_passwords w.files) w

  abbrev pub check_setup : Result Raised (Unit {0})
  check_setup =
      if not p.is_repository
      then err (tool repository_unavailable)
      else if not (is_database_name p.database_name)
      then err (tool invalid_database_name)
      else require_secure_directory p.is_windows p.directory

  abbrev pub when_set_up : Result Raised (Unit {0}) → Action (Unit {0})
  when_set_up (err e) w = (err e, w)
  when_set_up (ok _) w =
      exclusive_rotation_lock p.lock (codes ".postgres-admin.rotation.lock") rotate_locked w

  -- `rotate_postgres_admin_password`
  unfoldable pub rotate_postgres_admin_password : Action (Unit {0})
  unfolding is_database_name rotate_locked
  rotate_postgres_admin_password w = when_set_up check_setup w
