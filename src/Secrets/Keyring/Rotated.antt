-- ===== src/Secrets/Keyring/Rotated.antt =====
-- scripts/rotate_credential_keyring.py: a run keeps every key, and an interrupted one keeps the keyring.
use mailgate.Common.{
  any, is_some, Result, ok, err, Text, codes, if-split, Bool-cases, ◌==◌, nat_eq, list_eq,
  option_eq, ℕ, ◌≡◌, refl, sym, inl, inr, Bool, true, false, not, ◌||◌, Option, none, some, [],
}
use mailgate.Crypto.{is_key_id}
use mailgate.Regex.{differs}
use mailgate.Secrets.{
  no_keyring, Raised, tool, system_error, Entry, Files, put_file, file_exists, Installation,
  require_secure_directory, read_secret,
}
use mailgate.Secrets.Document.{Document}
use mailgate.Secrets.Keyring.{
  KeyringCalls, KeyringRequest, keyring_name, load_keyring, imported, import_legacy, add_imported,
  rotate_keyring, check_request, when_checked_request, rotate_credential_keyring,
}
use mailgate.Secrets.Keyring.Changed.{
  IsReturned, IsChange, stopped-IsChange, add_key-IsChange, rotate_loaded-IsChange,
}
use mailgate.Secrets.Lock.{release, acquire, exclusive_rotation_lock}
use mailgate.Secrets.Writing.{new_entry}

module _ (p : KeyringCalls) (request : KeyringRequest) where
  imported_fresh :
      (id : Text) (r : Result Raised (Text × ℕ)) (d : Document) (m : ℕ)
      → id == request.new_primary_id ≡ false
      → imported p request id r ≡ ok (d, m)
      → any (λ k. k.0 == request.new_primary_id) d.keys ≡ false
  imported_fresh id (err e) d m h e' = cc
  imported_fresh id (ok (value, mode)) d m h e' =
      elim (Bool-cases (p.cryptography.is_fernet_key value)) [
        | inr bad ↦ cc (rw bad at e')
        | inl good ↦ rw (← document_of (rw good at e')) (rw h refl)
      ]
    where
      document_of :
          {a b : Document} {n k : ℕ}
          → ◌≡◌ {A = Result Raised (Document × ℕ)} (ok (a, n)) (ok (b, k))
          → a ≡ b
      document_of e = cc

  import_fresh :
      (o : Option Text) (files : Files) (d : Document) (m : ℕ)
      → import_legacy p request o files ≡ ok (d, m)
      → any (λ k. k.0 == request.new_primary_id) d.keys ≡ false
  import_fresh none files d m h = cc
  import_fresh (some id) files d m h = elim (Bool-cases (not (is_key_id id))) [
    | inl bad ↦ cc (rw bad at h)
    | inr good ↦ elim (Bool-cases (id == request.new_primary_id)) [
      | inl same' ↦ cc (rw (good, same') at h)
      | inr differs ↦ imported_fresh id _ d m differs (rw (good, differs) at h)
    ]
  ]

  -- `w` has the files of `w0`, and the file of the lock.
  module _ (w0 : Installation) (e : Option Entry) where
    abbrev lock_name : Text
    lock_name = codes ".credential-keyring.rotation.lock"

    abbrev locked : Installation → Installation
    locked w = record w { files = put_file lock_name e w.files }

    add_imported-IsChange :
        (r : Result Raised (Document × ℕ))
        → w0.files keyring_name ≡ none
        → r ≡ import_legacy p request request.legacy_key_id w0.files
        → IsChange p request w0 (add_imported p request r (locked w0))
    add_imported-IsChange (err x) missing h = stopped-IsChange p request w0 x (locked w0) refl
    add_imported-IsChange (ok (d, m)) missing h =
        add_key-IsChange p request w0 d _ (locked w0) refl (inr (missing, (m, sym h)))
          (import_fresh request.legacy_key_id w0.files d m (sym h))

    import_locked :
        (o : Option Text)
        → import_legacy p request o (locked w0).files ≡ import_legacy p request o w0.files
    unfolding read_secret
    import_locked none = refl
    import_locked (some id) = refl

    no_file : (o : Option Entry) → is_some o ≡ false → o ≡ none
    no_file none h = refl
    no_file (some x) h = cc

    rotate_keyring-IsChange : IsChange p request w0 (rotate_keyring p request (locked w0))
    unfolding rotate_keyring load_keyring read_secret
    rotate_keyring-IsChange = elim (Bool-cases (file_exists keyring_name w0.files)) [
      | inl there ↦ rw there (
          rotate_loaded-IsChange p request w0 (locked w0) (load_keyring p request p.read w0.files)
            refl refl refl)
      | inr missing ↦ rw missing (
          if-split (IsChange p request w0) request.activate_existing _ _
            (λ _. stopped-IsChange p request w0 (tool no_keyring) (locked w0) refl)
            (λ _.
              add_imported-IsChange _ (no_file (w0.files keyring_name) missing)
                (import_locked request.legacy_key_id)))
    ]

    unlocked-IsReturned :
        (r : Result Raised Bool) (w : Installation)
        → IsReturned p request w0 r w
        → IsReturned p request w0 r (locked w)
    unfolding load_keyring read_secret
    unlocked-IsReturned (ok true) w h = h
    unlocked-IsReturned (ok false) w h = h
    unlocked-IsReturned (err x) w h = tt

  module _ (w0 : Installation) where
    release-IsChange :
        (x : Result Raised Bool × Installation)
        → IsChange p request w0 x
        → IsChange p request w0 (release p.lock (lock_name w0 none) x)
    release-IsChange (r, w) (kept, returned) =
        if-split (IsChange p request w0)
          (p.lock.unlink_fails || not (file_exists (lock_name w0 none) w.files)) _ _
          (λ _. (kept, tt)) (λ _. (kept, unlocked-IsReturned w0 none r w returned))

    acquire-IsChange :
        IsChange p request w0 (acquire p.lock (lock_name w0 none) (rotate_keyring p request) w0)
    acquire-IsChange =
        let entry : Option Entry = some (new_entry 0 []) in
        if-split (IsChange p request w0) (file_exists (lock_name w0 none) w0.files) _ _
          (λ _. (inl refl, tt))
          (λ _.
            if-split (IsChange p request w0) p.lock.open_fails _ _ (λ _. (inl refl, tt))
              (λ _. release-IsChange _ (
                if-split (IsChange p request w0) p.lock.note_fails
                  (err system_error, locked w0 entry w0)
                  (rotate_keyring p request (locked w0 entry w0)) (λ _. (inl refl, tt))
                  (λ _. rotate_keyring-IsChange w0 entry))))

    exclusive-IsChange :
        (c : Result Raised (Unit {0}))
        → IsChange p request w0 (elim c [
          | err e ↦ (err e, w0)
          | ok _ ↦ acquire p.lock (lock_name w0 none) (rotate_keyring p request) w0
        ])
    exclusive-IsChange (err e) = (inl refl, tt)
    exclusive-IsChange (ok _) = acquire-IsChange

    checked-IsChange :
        (c : Result Raised (Unit {0})) → IsChange p request w0 (when_checked_request p request c w0)
    unfolding exclusive_rotation_lock
    checked-IsChange (err e) = (inl refl, tt)
    checked-IsChange (ok _) =
        exclusive-IsChange (require_secure_directory p.lock.is_windows p.lock.directory)

-- If a run returns `True`, the keyring that is read back has the requested primary key, and every key
-- of the keyring before it, or of the old key file, with its value; if it returns `False`, the
-- requested key was the primary one and the keyring is as it was. Wherever a run stops, the keyring is
-- the file that it was or all of a keyring that has every key.
pub rotate_credential_keyring-IsChange :
    (p : KeyringCalls) (request : KeyringRequest) (w : Installation)
    → IsChange p request w (rotate_credential_keyring p request w)
unfolding rotate_credential_keyring
rotate_credential_keyring-IsChange p request w =
    checked-IsChange p request w (check_request p request)
