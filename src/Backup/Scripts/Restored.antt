-- ===== src/Backup/Scripts/Restored.antt =====
-- scripts/backup.py and scripts/restore.py: a backup is created, and then restored.
use mailgate.Backup.{ArchiveError, encrypt_stream}
use mailgate.Backup.Metadata.{is_flat}
use mailgate.Backup.Payload.{BackupError, credential_bundle}
use mailgate.Backup.Payload.Kept.{is_filled, IsBundle, kept_key, credential_bundle-Reads, not_empty}
use mailgate.Backup.RoundTrip.{IsArchive, decrypt_archive-encrypt_stream}
use mailgate.Backup.Scripts.{
  BackupCalls, from_archive, DumpRun, validate_restore_project, directory, write_files,
  recover_credential_bundle, RestoreRun, load_key, docker, publish_dump, metadata_of, create_backup,
  recover, restore_backup,
}
use mailgate.Common.{
  length, Result, ok, err, bind_ok, Text, Bytes, codes, Bool-cases, ◌==◌, nat_eq, list_eq,
  option_eq, ℕ, ◌≡◌, refl, ap, inl, inr, Bool, true, false, some, List, [], ◌∷◌, ◌++◌, map,
  append-nil, append_assoc, arith,
}

-- The file of a recovered key.
unfoldable pub line_of : Text × Text → Text × Text
line_of (name, value) = (name, value ++ codes "\n")

some_ok : (a b : Bytes) → Path (Result BackupError Bytes) (ok a) (ok b) → a ≡ b
some_ok a b h = ground arith

from_archive_lem :
    {A : Type 0} (r : Result ArchiveError A) (a : A) → from_archive r ≡ ok a → r ≡ ok a
from_archive_lem {A} (ok b) a h = ap (λ r. to_archive b r) h
  where
    to_archive : A → Result BackupError A → Result ArchiveError A
    to_archive b (ok a) = ok a
    to_archive b (err e) = ok b
from_archive_lem (err e) a h = cc

write_files_lem :
    (refuses : Text → Bool) (written items : List (Text × Text))
    → ((name : Text) → refuses name ≡ false)
    → write_files refuses written items ≡ ok (written ++ map line_of items)
unfolding line_of
write_files_lem refuses written [] h = rw (append-nil written) refl
write_files_lem refuses written ((name, value) ∷ items) h =
    rw (h name, write_files_lem refuses (written ++ (name, value ++ codes "\n") ∷ []) items h)
      (ap ok (append_assoc written ((name, value ++ codes "\n") ∷ []) (map line_of items)))

module _ (c : BackupCalls) where
  not_there :
      (run : DumpRun) (content : Bytes)
      → create_backup c run ≡ ok content
      → run.is_output_there ≡ false
  unfolding create_backup
  not_there run content h = elim (Bool-cases run.is_output_there) [
    | inl there ↦ cc (rw there at h)
    | inr free ↦ free
  ]

  -- The steps of a backup that was made.
  made :
      (run : DumpRun) (content : Bytes)
      → create_backup c run ≡ ok content
      → (key : Bytes) × (prefix : Bytes) × (load_key c ≡ ok key)
        × (docker c ≡ ok tt)
        × (credential_bundle c.bundles run.master_key run.master_keyring ≡ ok prefix)
        × (encrypt_stream c.archives key run.nonce (metadata_of c run) (prefix ++ run.dump)
            ≡ ok content)
  unfolding create_backup
  made run content h =
      let (key, k, with_key) = bind_ok (load_key c) _ content (rw (not_there run content h) at h) in
      let (prefix, p, with_prefix) =
        bind_ok (credential_bundle c.bundles run.master_key run.master_keyring) _ content
          with_key in
      let (_, d, with_docker) = bind_ok (docker c) _ content with_prefix in
      let (written, w, publishes) =
        bind_ok
          (from_archive
            (encrypt_stream c.archives key run.nonce (metadata_of c run) (prefix ++ run.dump)))
          (publish_dump c run.return_code) content with_docker in
      (
        key,
        prefix,
        k,
        d,
        p,
        rw (← published run.return_code written content publishes) (from_archive_lem _ written w),
      )
    where
      published :
          (return_code : ℕ) (written content : Bytes)
          → publish_dump c return_code written ≡ ok content
          → written ≡ content
      published return_code written content h = elim (Bool-cases (return_code == 0)) [
        | inl good ↦ some_ok _ _ (rw good at h)
        | inr bad ↦ cc (rw bad at h)
      ]

  recovered_lem :
      (back : RestoreRun) (bundle : List (Text × Text))
      → back.target ≡ some (directory 0)
      → ((name : Text) → back.fails name ≡ false)
      → recover c back.target back.fails bundle ≡ ok (map line_of bundle)
  unfolding recover_credential_bundle
  recovered_lem back bundle t f = rw t (write_files_lem back.fails [] bundle f)

-- A backup that `create_backup` made with a nonce of 12 bytes, of ASCII key files that are not blank
-- and metadata without surrogates,
-- `restore_backup` restores with the same backup key: where the project's name is accepted, the
-- confirmation is right, pg_restore takes the dump, the directory of the recovery is empty and its files
-- can be written, the run succeeds. pg_restore has then read what pg_dump wrote, no byte more or less, the
-- metadata are those of the backup, and the key files are recovered, each with its stripped text.
pub restore_backup-create_backup :
    (c : BackupCalls) (run : DumpRun) (back : RestoreRun) (content : Bytes)
    → IsArchive c.archives
    → IsBundle c.bundles
    → length run.nonce ≡ 12
    → is_filled run.master_key ≡ true
    → is_filled run.master_keyring ≡ true
    → is_flat (metadata_of c run) ≡ true
    → create_backup c run ≡ ok content
    → validate_restore_project back.project_name ≡ ok back.project_name
    → back.confirmation ≡ codes "RESTORE " ++ back.project_name
    → back.pg_restore run.dump ≡ 0
    → back.target ≡ some (directory 0)
    → ((name : Text) → back.fails name ≡ false)
    → restore_backup c back content
      ≡ ok (record {
        metadata = metadata_of c run;
        restored = run.dump;
        recovered = map line_of (
            kept_key (codes "master_key") run.master_key
            ++ kept_key (codes "master_keyring") run.master_keyring);
      })
unfolding restore_backup
restore_backup-create_backup c run back content archived bundled n first second flat h v confirmed
      pg t f =
    let (key, prefix, k, d, p, w) = made c run content h in
    let kept =
      credential_bundle-Reads c.bundles bundled prefix run.dump run.master_key run.master_keyring
        first second p in
    rw
      (
        v,
        (list_eq.agrees back.confirmation (codes "RESTORE " ++ back.project_name)).1 confirmed,
        k,
        decrypt_archive-encrypt_stream c.archives archived key run.nonce (prefix ++ run.dump)
            content (metadata_of c run) n (not_empty c.bundles _ _ kept) flat w,
        d,
        credential_bundle-Reads c.bundles bundled prefix run.dump run.master_key run.master_keyring
            first second p,
        pg,
        recovered_lem c back _ t f,
      )
      refl
