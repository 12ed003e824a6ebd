-- ===== src/Secrets/Postgres/Told.antt =====
-- scripts/rotate_postgres_admin_password.py: where the run stops, the password of the database and the
-- secret file are what the message says.
use mathlib.Core.Path.{subst}
use mailgate.Common.{
  length, is_empty, any, contains, Result, ok, err, ◌>>=◌, Text, codes, is_space, strip, ltb, leb,
  if-split, ◌==◌, nat_eq, list_eq, option_eq, ℕ, ◌≡◌, refl, sym, Bool, false, not, ◌&&◌, ◌||◌,
  Option, none, some, [],
}
use mailgate.Regex.{same}
use mailgate.Secrets.{
  Raised, system_error, Entry, put_file, file_exists, Installation, DirectoryStatus, open_to_others,
  require_secure_directory, container_secret_mode, is_private, Codec, ReadCall, checked_text,
  read_opened, read_entry, read_secret,
}
use mailgate.Secrets.Lock.{release, acquire, exclusive_rotation_lock}
use mailgate.Secrets.Postgres.{
  is_database_name, validate_password, secret_name, PostgresCalls, replace_password, with_passwords,
  read_passwords, rotate_locked, check_setup, when_set_up, rotate_postgres_admin_password,
}
use mailgate.Secrets.Postgres.Cluster.{Outcome, IsCluster, validate_password-printable}
use mailgate.Secrets.Postgres.Rollback.{replace_password-IsTold}
use mailgate.Secrets.Postgres.Verdict.{
  Verdict, rotated, restored, file_unknown, all_unknown, untouched, verdict, Means,
  Means-all_unknown, IsTold,
}
use mailgate.Secrets.Writing.{new_entry}

-- The errors of the steps before the change.
IsQuiet : {A : Type 0} → Result Raised A → Type 0
IsQuiet (ok _) = Unit
IsQuiet (err e) = verdict (err e) ≡ untouched

IsQuiet-bind :
    {A B : Type 0} (r : Result Raised A) (f : A → Result Raised B)
    → IsQuiet r
    → ((a : A) → IsQuiet (f a))
    → IsQuiet (r >>= f)
unfolding IsQuiet
IsQuiet-bind (ok a) f h k = k a
IsQuiet-bind (err e) f h k = h

require_secure_directory-IsQuiet :
    (is_windows : Bool) (s : Option DirectoryStatus)
    → IsQuiet (require_secure_directory is_windows s)
unfolding IsQuiet verdict require_secure_directory
require_secure_directory-IsQuiet is_windows none = refl
require_secure_directory-IsQuiet is_windows (some s) =
    if-split IsQuiet (s.is_link || not s.is_directory) (err _) _ (λ _. refl)
      (λ _.
        if-split IsQuiet (not is_windows && (not s.is_owned || open_to_others s.mode)) (err _)
          (ok tt) (λ _. refl) (λ _. tt))

checked_text-IsQuiet : (t : Option Text) (mode : ℕ) → IsQuiet (checked_text t mode)
unfolding IsQuiet verdict
checked_text-IsQuiet none mode = refl
checked_text-IsQuiet (some t) mode =
    if-split IsQuiet (is_empty (strip is_space t) || contains (strip is_space t) 0) (err _) (ok _)
      (λ _. refl) (λ _. tt)

read_opened-IsQuiet :
    (codec : Codec) (maximum : ℕ) (e : Entry) (o : Option Entry)
    → IsQuiet (read_opened codec maximum e o)
unfolding IsQuiet verdict
read_opened-IsQuiet codec maximum e none = refl
read_opened-IsQuiet codec maximum e (some opened) =
    if-split IsQuiet (not (opened.identity == e.identity)) (err _) _ (λ _. refl)
      (λ _.
        if-split IsQuiet (ltb maximum (length opened.content)) (err _) _ (λ _. refl)
          (λ _. checked_text-IsQuiet (codec.decode opened.content) e.mode))

read_entry-IsQuiet :
    (codec : Codec) (call : ReadCall) (maximum : ℕ) (e : Option Entry)
    → IsQuiet (read_entry codec call maximum e)
unfolding IsQuiet verdict
read_entry-IsQuiet codec call maximum none = refl
read_entry-IsQuiet codec call maximum (some e) =
    if-split IsQuiet (is_private e) _ (err _) (λ _. read_opened-IsQuiet codec maximum e (call e))
      (λ _. refl)

validate_password-IsQuiet : (s : Text) → IsQuiet (validate_password s)
unfolding IsQuiet verdict validate_password
validate_password-IsQuiet s =
    if-split IsQuiet (not (leb 16 (length s) && leb (length s) 1024) || any (λ c. ltb c 32) s)
      (err _) (ok s) (λ _. refl) (λ _. tt)

module _ (p : PostgresCalls) where
  -- The value that the run reads at its start.
  abbrev pub value_of : Result Raised (Text × ℕ) → Text
  value_of (ok (v, mode)) = v
  value_of (err e) = []

  unfoldable pub old_secret : Installation → Text
  unfolding read_secret
  old_secret w = value_of (read_secret p.codec p.read 4096 secret_name w.files)

  -- What the two passwords are, where the run gets as far.
  AreRead : Result Raised (Text × ℕ) → Result Raised (Text × Text × ℕ) → Type 0
  AreRead r (err e) = verdict (err e) ≡ untouched
  AreRead r (ok (old, new, mode)) =
      (old ≡ value_of r) × (new ≡ p.generated) × (any (λ c. ltb c 32) new ≡ false)

  checked-AreRead :
      (old : Text) (mode : ℕ) (a b : Result Raised Text)
      → a ≡ validate_password old
      → b ≡ validate_password p.generated
      → AreRead
          (ok (old, mode))
          (a >>= λ old'. b >>= λ new. ok (old', new, container_secret_mode p.is_windows mode))
  unfolding AreRead IsQuiet
  checked-AreRead old mode (err e) b ea eb = rw (← ea) at (validate_password-IsQuiet old)
  checked-AreRead old mode (ok old') (err e) ea eb =
      rw (← eb) at (validate_password-IsQuiet p.generated)
  checked-AreRead old mode (ok old') (ok new) ea eb =
      let (same, printable) = validate_password-printable p.generated new (sym eb) in
      ((validate_password-printable old old' (sym ea)).0, same, printable)

  passwords-AreRead :
      (r : Result Raised (Text × ℕ))
      → IsQuiet r
      → AreRead r (
          r >>= λ (old, mode). validate_password old >>= λ old'.
          validate_password p.generated >>= λ new.
          ok (old', new, container_secret_mode p.is_windows mode))
  unfolding AreRead IsQuiet
  passwords-AreRead (err e) h = h
  passwords-AreRead (ok (old, mode)) h =
      checked-AreRead old mode (validate_password old) (validate_password p.generated) refl refl

  module _ (cluster : IsCluster p.codec p.runner) (w0 : Installation) where
    with_passwords-IsTold :
        (r : Result Raised (Text × Text × ℕ))
        → AreRead (read_secret p.codec p.read 4096 secret_name w0.files) r
        → IsTold p.codec (old_secret w0) p.generated w0 (with_passwords p r w0)
    unfolding AreRead old_secret
    with_passwords-IsTold (err e) h = rw h (refl, refl)
    with_passwords-IsTold (ok (old, new, mode)) (same, drawn, printable) =
        subst (λ a. IsTold p.codec a p.generated w0 (replace_password p old new mode w0)) same
          (subst (λ b. IsTold p.codec old b w0 (replace_password p old new mode w0)) drawn
            (replace_password-IsTold p cluster old new mode printable w0))

    rotate_locked-IsTold : IsTold p.codec (old_secret w0) p.generated w0 (rotate_locked p w0)
    unfolding rotate_locked read_secret
    rotate_locked-IsTold =
        with_passwords-IsTold (read_passwords p w0.files)
          (passwords-AreRead _ (read_entry-IsQuiet p.codec p.read 4096 (w0.files secret_name)))

  abbrev lock_name : Text
  lock_name = codes ".postgres-admin.rotation.lock"

  -- The lock's file is none of the two places.
  Means-unlocked :
      (old : Text) (w0 w : Installation) (e e0 : Option Entry) (v : Verdict)
      → Means p.codec old p.generated (record w0 { files = put_file lock_name e0 w0.files }) v w
      → Means p.codec old p.generated w0 v (record w { files = put_file lock_name e w.files })
  Means-unlocked old w0 w e e0 rotated h = h
  Means-unlocked old w0 w e e0 restored h = h
  Means-unlocked old w0 w e e0 file_unknown h = h
  Means-unlocked old w0 w e e0 all_unknown h = h
  Means-unlocked old w0 w e e0 untouched h = h

  release-IsTold :
      (old : Text) (w0 : Installation) (e0 : Option Entry) (x : Outcome)
      → IsTold p.codec old p.generated (record w0 { files = put_file lock_name e0 w0.files }) x
      → IsTold p.codec old p.generated w0 (release p.lock lock_name x)
  unfolding verdict
  release-IsTold old w0 e0 (r, w) h =
      if-split (IsTold p.codec old p.generated w0)
        (p.lock.unlink_fails || not (file_exists lock_name w.files)) _ _
        (λ _.
          Means-all_unknown p.codec old p.generated
            (record w0 { files = put_file lock_name e0 w0.files }) (verdict r) w h)
        (λ _. Means-unlocked old w0 w none e0 (verdict r) h)

  quiet_end :
      (old : Text) (w : Installation) (e : Raised)
      → verdict (err e) ≡ untouched
      → IsTold p.codec old p.generated w (err e, w)
  quiet_end old w e h = rw h (refl, refl)

  module _ (cluster : IsCluster p.codec p.runner) (w : Installation) where
    abbrev IsToldOf : Outcome → Type 0
    IsToldOf = IsTold p.codec (old_secret w) p.generated w

    acquire-IsTold : IsToldOf (acquire p.lock lock_name (rotate_locked p) w)
    unfolding verdict old_secret read_secret
    acquire-IsTold =
        let held : Installation = record w {
          files = put_file lock_name (some (new_entry 0 [])) w.files;
        } in
        if-split IsToldOf (file_exists lock_name w.files) _ _ (λ _. (refl, refl))
          (λ _.
            if-split IsToldOf p.lock.open_fails _ _ (λ _. (refl, refl))
              (λ _. release-IsTold (old_secret w) w (some (new_entry 0 [])) _ (
                if-split (IsTold p.codec (old_secret w) p.generated held) p.lock.note_fails
                  (err system_error, held) (rotate_locked p held) (λ _. (refl, refl))
                  (λ _. rotate_locked-IsTold cluster held))))

    locked-IsTold :
        (c : Result Raised (Unit {0}))
        → IsQuiet c
        → IsToldOf
            (elim c [ err e ↦ (err e, w) | ok _ ↦ acquire p.lock lock_name (rotate_locked p) w ])
    unfolding IsQuiet
    locked-IsTold (err e) h = quiet_end (old_secret w) w e h
    locked-IsTold (ok _) h = acquire-IsTold

    when_set_up-IsTold : (c : Result Raised (Unit {0})) → IsQuiet c → IsToldOf (when_set_up p c w)
    unfolding IsQuiet exclusive_rotation_lock
    when_set_up-IsTold (err e) h = quiet_end (old_secret w) w e h
    when_set_up-IsTold (ok _) h =
        locked-IsTold (require_secure_directory p.lock.is_windows p.lock.directory)
          (require_secure_directory-IsQuiet p.lock.is_windows p.lock.directory)

  check_setup-IsQuiet : IsQuiet (check_setup p)
  unfolding IsQuiet verdict
  check_setup-IsQuiet =
      if-split IsQuiet (not p.is_repository) (err _) _ (λ _. refl)
        (λ _.
          if-split IsQuiet (not (is_database_name p.database_name)) (err _) _ (λ _. refl)
            (λ _. require_secure_directory-IsQuiet p.is_windows p.directory))

-- Wherever a run stops, its end says truly where the password stands: after a return, and after the
-- message that the new value remains, the database and the secret file both hold the new password;
-- after the message of a rollback both hold the old one; after an error from before the change both are
-- as they were. After the two messages that ask for a recovery by hand, and where the lock is not
-- released, the password and the file are still among the first, the old and the new.
pub rotate_postgres_admin_password-IsTold :
    (p : PostgresCalls)
    → IsCluster p.codec p.runner
    → (w : Installation)
    → IsTold p.codec (old_secret p w) p.generated w (rotate_postgres_admin_password p w)
unfolding rotate_postgres_admin_password
rotate_postgres_admin_password-IsTold p cluster w =
    when_set_up-IsTold p cluster w (check_setup p) (check_setup-IsQuiet p)
