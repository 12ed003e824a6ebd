-- ===== src/Backup/Tests.antt =====
-- A run of the archive format.
use mailgate.Backup.{ArchiveLibraries, archive_of, encrypt_stream}
use mailgate.Backup.Codec.{with_bytes, field_bytes, parsed, with_bytes_lem, parsed-field_bytes}
use mailgate.Backup.Metadata.{is_flat}
use mailgate.Backup.Payload.{
  BackupError, BundleLibraries, KeyFile, absent, unreadable, holds, bundle_values,
  credential_bundle, read_chunks,
}
use mailgate.Backup.Payload.Bundled.{joined, read_chunks-IsComplete}
use mailgate.Backup.Payload.Kept.{is_filled, IsBundle, kept_key}
use mailgate.Backup.RoundTrip.{IsArchive}
use mailgate.Backup.Scripts.{
  BackupCalls, DumpRun, validate_restore_project, directory, RestoreRun, metadata_of, create_backup,
  restore_backup,
}
use mailgate.Backup.Scripts.Restored.{line_of, restore_backup-create_backup}
use mailgate.Common.{
  length, Result, ok, err, Bytes, codes, is_space, strip, ◌≡◌, refl, ap, true, false, Option, none,
  some, List, [], ◌∷◌, ◌++◌, map, arith,
}
use mailgate.Json.{Json, object, Fields, no_fields, a_field}

abbrev letters16 : Bytes
letters16 = codes "tttttttttttttttt"

abbrev plain_archive : ArchiveLibraries
plain_archive = record {
  seal = λ key nonce aad source. (source, letters16);
  unseal = λ key nonce tag aad ciphertext. some ciphertext;
  dumps = λ fs. elim fs [ no_fields ↦ some (codes "{}") | a_field k v gs ↦ none ];
  loads = λ b. some (object no_fields);
}

abbrev key32 : Bytes
key32 = codes "kkkkkkkkkkkkkkkkkkkkkkkkkkkkkkkk"

abbrev sample_archive : Bytes
sample_archive = archive_of plain_archive key32 (codes "nnnnnnnnnnnn") (codes "dump") (codes "{}")

abbrev flat_loads : Bytes → Option Json
flat_loads (x ∷ b) = some (object (parsed (length b) b))
flat_loads [] = none

abbrev flat_archive : ArchiveLibraries
flat_archive = record {
  seal = λ key nonce aad source. (source, letters16);
  unseal = λ key nonce tag aad ciphertext. some ciphertext;
  dumps = λ fs. with_bytes (b'J' ∷ []) (field_bytes fs);
  loads = flat_loads;
}

flat_IsArchive : IsArchive flat_archive
flat_IsArchive = record {
  opened = λ key nonce aad source. refl;
  tag_length = λ key nonce aad source. refl;
  same_length = λ key nonce aad source. refl;
  reads = reads_back;
}
  where
    reads_back :
        (fs : Fields) (b : Bytes)
        → is_flat fs ≡ true
        → with_bytes (b'J' ∷ []) (field_bytes fs) ≡ some b
        → flat_loads b ≡ some (object fs)
    reads_back fs b flat h =
        let (c, e, eq) = with_bytes_lem (b'J' ∷ []) (field_bytes fs) b h in
        rw (← eq) (ap (λ gs. some (object gs)) (parsed-field_bytes fs c (length c) e (omega arith)))

abbrev or_empty : Option Bytes → Bytes
or_empty none = []
or_empty (some b) = b

abbrev flat_bundles : BundleLibraries
flat_bundles = record { dumps = λ fs. b'J' ∷ or_empty (field_bytes fs); loads = flat_loads }

flat_IsBundle : IsBundle flat_bundles
unfolding field_bytes
flat_IsBundle = record { reads = reads_back; writes = λ fs. omega arith }
  where
    flat_reads :
        (fs gs : Fields) (b : Bytes)
        → field_bytes fs ≡ some b
        → Path (Result BackupError Fields) (ok fs) (ok gs)
        → flat_loads (b'J' ∷ or_empty (field_bytes gs)) ≡ some (object gs)
    flat_reads fs gs b e h =
        rw (← fields_same fs gs h, e)
          (ap (λ hs. some (object hs)) (parsed-field_bytes fs b (length b) e (omega arith)))
      where
        fields_same : (fs gs : Fields) → Path (Result BackupError Fields) (ok fs) (ok gs) → fs ≡ gs
        fields_same fs gs h = cc

    reads_back :
        (first second : KeyFile) (fs : Fields)
        → is_filled first ≡ true
        → is_filled second ≡ true
        → bundle_values first second ≡ ok fs
        → flat_loads (b'J' ∷ or_empty (field_bytes fs)) ≡ some (object fs)
    reads_back first unreadable fs full full' h = cc
    reads_back unreadable absent fs full full' h = cc
    reads_back unreadable (holds t) fs full full' h = cc
    reads_back absent absent fs full full' h = flat_reads _ fs _ refl h
    reads_back absent (holds t) fs full full' h = flat_reads _ fs _ refl h
    reads_back (holds s) absent fs full full' h = flat_reads _ fs _ refl h
    reads_back (holds s) (holds t) fs full full' h = flat_reads _ fs _ refl h

abbrev sample_calls : BackupCalls
sample_calls = record {
  archives = flat_archive;
  bundles = flat_bundles;
  decode_key = some;
  key_text = some (key32 ++ codes "\n");
  has_docker = true;
  lower = λ s. s;
}

abbrev sample_run : DumpRun
sample_run = record {
  is_output_there = false;
  master_key = holds (codes "MASTER\n");
  master_keyring = absent;
  compose_project = [];
  created_at = codes "2026-01-01T00:00:00+00:00";
  database = codes "mailgate";
  git_head = none;
  dump = codes "PGDMP";
  return_code = 0;
  nonce = codes "nnnnnnnnnnnn";
}

abbrev sample_restore : RestoreRun
sample_restore = record {
  project_name = codes "mailgate-restore";
  confirmation = codes "RESTORE mailgate-restore";
  pg_restore = λ b. 0;
  target = some (directory 0);
  fails = λ name. false;
}

abbrev content_of : Result BackupError Bytes → Bytes
content_of (ok content) = content
content_of (err e) = []

sample_created :
    create_backup sample_calls sample_run ≡ ok (content_of (create_backup sample_calls sample_run))
unfolding create_backup credential_bundle encrypt_stream field_bytes strip
sample_created = refl

sample_project : validate_restore_project (codes "mailgate-restore") ≡ ok (codes "mailgate-restore")
unfolding validate_restore_project
sample_project = refl

sample_filled : is_filled (holds (codes "MASTER\n")) ≡ true
unfolding is_filled strip is_space
sample_filled = refl

sample_flat : is_flat (metadata_of sample_calls sample_run) ≡ true
unfolding is_flat strip is_space
sample_flat = refl

sample_not_there : is_filled absent ≡ true
unfolding is_filled
sample_not_there = refl

restore_backup-create_backup_example :
    restore_backup sample_calls sample_restore (content_of (create_backup sample_calls sample_run))
    ≡ ok (record {
      metadata = metadata_of sample_calls sample_run;
      restored = codes "PGDMP";
      recovered = map line_of (
          kept_key (codes "master_key") (holds (codes "MASTER\n"))
          ++ kept_key (codes "master_keyring") absent);
    })
restore_backup-create_backup_example =
    restore_backup-create_backup sample_calls sample_run sample_restore
      (content_of (create_backup sample_calls sample_run)) flat_IsArchive flat_IsBundle refl
      sample_filled sample_not_there sample_flat sample_created sample_project refl refl refl
      (λ name. refl)

read_chunks-IsComplete_example :
    (chunks : List Bytes) × (read_chunks 9 3
        (record { prefix = codes "abcd"; source = codes "efg" })
      ≡ some chunks)
    × (joined chunks ≡ codes "abcdefg")
read_chunks-IsComplete_example =
    read_chunks-IsComplete 9 3 (record { prefix = codes "abcd"; source = codes "efg" })
      (omega arith) (omega arith)
