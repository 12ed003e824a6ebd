-- ===== src/Secrets/Tests.antt =====
-- Runs of the scripts that rotate secrets, with a cluster that obeys and one that fails midway.
use mailgate.Common.{
  length, ok, err, Text, codes, if◌then◌else◌, if-split, Bool-cases, ◌==◌, nat_eq, list_eq,
  option_eq, ℕ, zero, suc, ◌+◌, ◌-◌, ◌≡◌, refl, ◌⊎◌, inl, inr, Bool, true, false, ◌||◌, Option,
  none, some, [], ◌∷◌, ◌++◌, map,
}
use mailgate.Crypto.{Cryptography, CredentialKeyring, from_settings, decrypt}
use mailgate.Json.{Json, integer, string, object, Fields, no_fields, a_field}
use mailgate.Secrets.{
  new_value_remains, old_restored, tool, Entry, put_file, Installation, DirectoryStatus, Codec,
  read_secret,
}
use mailgate.Secrets.Keyring.{KeyringCalls, KeyringRequest, keyring_name, rotate_credential_keyring}
use mailgate.Secrets.Keyring.Changed.{IsChange}
use mailgate.Secrets.Keyring.Rotated.{rotate_credential_keyring-IsChange}
use mailgate.Secrets.Keyring.Tokens.{Decrypts, rotate_credential_keyring-Decrypts}
use mailgate.Secrets.Lock.{LockCall, exclusive_rotation_lock}
use mailgate.Secrets.Postgres.{
  Answer, Command, local_select, tcp_probe, bootstrap, set_password, succeeded, failed,
  DockerRunner, secret_name, PostgresCalls, rotate_postgres_admin_password,
}
use mailgate.Secrets.Postgres.Cluster.{without_newlines, shell_value, IsAligned, IsCluster}
use mailgate.Secrets.Postgres.Told.{old_secret, rotate_postgres_admin_password-IsTold}
use mailgate.Secrets.Postgres.Verdict.{IsTold}
use mailgate.Secrets.Writing.{posix, WriteCall, new_entry, atomic_write_secret}
use mailgate.Secrets.Writing.Atomic.{IsReplacement, atomic_write_secret-IsReplacement}

abbrev plain_codec : Codec
plain_codec = record { encode = λ s. s; decode = λ s. some s }

abbrev private_directory : DirectoryStatus
private_directory = record { is_link = false; is_directory = true; is_owned = true; mode = 448 }

abbrev good_write : WriteCall
good_write = record {
  directory = some private_directory;
  inspect_fails = false;
  token = codes "ab";
  open_fails = false;
  cut = none;
  platform = posix false 292;
  replace_fails = false;
  sync_fails = false;
  unlink_fails = false;
  identity = 9;
}

abbrev good_lock : LockCall
good_lock = record {
  is_windows = false;
  directory = some private_directory;
  open_fails = false;
  note_fails = false;
  unlink_fails = false;
}

abbrev old_password : Text
old_password = codes "old-password-old"

abbrev new_password : Text
new_password = codes "new-password-new"

abbrev secret_file : Text → Entry
secret_file s = record (new_entry 1 (s ++ codes "\n")) { mode = 292 }

abbrev sample_installation : Installation
sample_installation = record {
  files = put_file (codes "postgres_password") (some (secret_file old_password)) (λ j. none);
  password = old_password;
}

atomic_write_secret-IsReplacement_example :
    IsReplacement plain_codec good_write
      (codes "postgres_password")
      new_password
      sample_installation.files
      (atomic_write_secret good_write plain_codec
        (codes "postgres_password")
        new_password
        292
        sample_installation.files)
atomic_write_secret-IsReplacement_example =
    atomic_write_secret-IsReplacement plain_codec good_write (codes "postgres_password")
      new_password 292 sample_installation.files

-- A probe compares the file with the password; `fails` says which calls fail.
abbrev run_command : Command → Installation → Answer × Installation
run_command local_select w = (succeeded, w)
run_command bootstrap w = (succeeded, w)
run_command (set_password v) w = (succeeded, record w { password = v })
run_command tcp_probe w = (
  if shell_value plain_codec (w.files secret_name) == some w.password then succeeded else failed,
  w,
)

abbrev sample_runner : (ℕ → Bool) → DockerRunner
sample_runner fails n c w = if fails n then (failed, w) else run_command c w

sample_IsCluster : (fails : ℕ → Bool) → IsCluster plain_codec (sample_runner fails)
sample_IsCluster fails = record {
  decodes = λ s. refl;
  select_keeps = λ n w.
      if-split (λ (x : Answer × Installation). x.1 ≡ w) (fails n) _ _ (λ _. refl) (λ _. refl);
  probe_keeps = λ n w.
      if-split (λ (x : Answer × Installation). x.1 ≡ w) (fails n) _ _ (λ _. refl) (λ _. refl);
  bootstrap_keeps = λ n w.
      if-split (λ (x : Answer × Installation). x.1 ≡ w) (fails n) _ _ (λ _. refl) (λ _. refl);
  prompt_keeps = λ n v w.
      if-split (λ (x : Answer × Installation). x.1.files ≡ w.files) (fails n) _ _ (λ _. refl)
        (λ _. refl);
  prompt_sets = λ n v w.
      if-split (λ (x : Answer × Installation). (x.1.password ≡ v) ⊎ (x.1.password ≡ w.password))
        (fails n) _ _ (λ _. inr refl) (λ _. inl refl);
  prompt_done = λ n v w.
      if-split (λ (x : Answer × Installation). x.0 ≡ succeeded → x.1.password ≡ v) (fails n) _ _
        (λ _ h. cc) (λ _ h. refl);
  probe_done = λ n w.
      if-split (λ (x : Answer × Installation). x.0 ≡ succeeded → IsAligned plain_codec w) (fails n)
        _ _ (λ _ h. cc) (λ _ h. agreed w (shell_value plain_codec (w.files secret_name)) h);
}
  where
    agreed :
        (w : Installation) (o : Option Text)
        → (if o == some w.password then succeeded else failed) ≡ succeeded
        → o ≡ some w.password
    agreed w o h = elim (Bool-cases (o == some w.password)) [
      | inl e ↦ (option_eq.agrees o (some w.password)).0 e
      | inr e ↦ cc (rw e at h)
    ]

abbrev sample_calls : (ℕ → Bool) → PostgresCalls
sample_calls fails = record {
  is_repository = true;
  database_name = codes "mailgate";
  codec = plain_codec;
  is_windows = false;
  directory = some private_directory;
  lock = good_lock;
  read = λ e. some e;
  runner = sample_runner fails;
  generated = new_password;
  write = good_write;
  write_back = good_write;
  write_again = good_write;
}

rotate_postgres_admin_password-IsTold_example :
    IsTold plain_codec
      (old_secret (sample_calls (λ n. n == 4)) sample_installation)
      new_password
      sample_installation
      (rotate_postgres_admin_password (sample_calls (λ n. n == 4)) sample_installation)
rotate_postgres_admin_password-IsTold_example =
    rotate_postgres_admin_password-IsTold (sample_calls (λ n. n == 4))
      (sample_IsCluster (λ n. n == 4)) sample_installation

test_rotated :
    let x = rotate_postgres_admin_password (sample_calls (λ n. false)) sample_installation in
    (x.0 ≡ ok tt)
    × (x.1.password ≡ new_password)
    × (shell_value plain_codec (x.1.files secret_name) ≡ some new_password)
    × (x.1.files (codes ".postgres-admin.rotation.lock") ≡ none)
unfolding rotate_postgres_admin_password exclusive_rotation_lock atomic_write_secret
    without_newlines
test_rotated = (refl, refl, refl, refl)

-- The bootstrap fails.
test_restored :
    let x = rotate_postgres_admin_password (sample_calls (λ n. n == 4)) sample_installation in
    (x.0 ≡ err (tool old_restored))
    × (x.1.password ≡ old_password)
    × (shell_value plain_codec (x.1.files secret_name) ≡ some old_password)
unfolding rotate_postgres_admin_password exclusive_rotation_lock atomic_write_secret
    without_newlines
test_restored = (refl, refl, refl)

-- The bootstrap and the rollback fail.
test_new_value_remains :
    (rotate_postgres_admin_password (sample_calls (λ n. n == 4 || n == 5)) sample_installation).0
    ≡ err (tool new_value_remains)
unfolding rotate_postgres_admin_password exclusive_rotation_lock atomic_write_secret
    without_newlines
test_new_value_remains = refl

-- A keyring of one key or of two, as texts that stand for the documents.
abbrev key_fields : ℕ → Fields
key_fields zero = no_fields
key_fields (suc n) =
    a_field (codes "k" ++ (b'0' + suc n) ∷ []) (string (codes "key")) (key_fields n)

abbrev document_json : ℕ → Json
document_json n = object (
    a_field (codes "version") (integer 1) (
      a_field (codes "primary") (string (codes "k" ++ (b'0' + n) ∷ []))
        (a_field (codes "keys") (object (key_fields n)) no_fields)))

abbrev key_cryptography : Cryptography
key_cryptography = record {
  loads = λ s. some (document_json (length s));
  is_fernet_key = λ k. k == codes "key";
  fernet_encrypt = λ k n value. b'g' ∷ map (λ c. c + 100) value;
  fernet_decrypt =
      λ k token. elim token [ [] ↦ none | g ∷ value ↦ some (map (λ c. c - 100) value) ];
}

abbrev keyring_calls : KeyringCalls
keyring_calls = record {
  cryptography = key_cryptography;
  dumps = λ d. map (λ k. b'x') d.keys;
  codec = plain_codec;
  is_windows = false;
  directory = some private_directory;
  lock = good_lock;
  read = λ e. some e;
  read_legacy = λ e. some e;
  read_again = λ e. some e;
  write = good_write;
  generated = some (codes "key");
}

abbrev key_request : Text → KeyringRequest
key_request id = record { new_primary_id = id; legacy_key_id = none; activate_existing = false }

abbrev keyring_installation : Installation
keyring_installation = record {
  files = put_file keyring_name (some (secret_file (codes "x"))) (λ j. none);
  password = [];
}

rotate_credential_keyring-IsChange_example :
    IsChange keyring_calls
      (key_request (codes "k2"))
      keyring_installation
      (rotate_credential_keyring keyring_calls (key_request (codes "k2")) keyring_installation)
rotate_credential_keyring-IsChange_example =
    rotate_credential_keyring-IsChange keyring_calls (key_request (codes "k2")) keyring_installation

test_added :
    (rotate_credential_keyring keyring_calls (key_request (codes "k2")) keyring_installation).0
    ≡ ok true
unfolding rotate_credential_keyring exclusive_rotation_lock atomic_write_secret
test_added = refl

test_again :
    (rotate_credential_keyring keyring_calls (key_request (codes "k1")) keyring_installation).0
    ≡ ok false
unfolding rotate_credential_keyring exclusive_rotation_lock
test_again = refl

abbrev ring_before : CredentialKeyring
ring_before = record {
  primary_id = some (codes "k1");
  ring_keys = (codes "k1", codes "key") ∷ [];
  legacy_keys = codes "key" ∷ [];
}

settings_before : from_settings key_cryptography (codes "x") [] ≡ ok ring_before
unfolding from_settings
settings_before = refl

read_before :
    read_secret plain_codec (λ e. some e) 65536 keyring_name keyring_installation.files
    ≡ ok (codes "x", 292)
unfolding read_secret
read_before = refl

opened_before :
    decrypt key_cryptography ring_before (codes "mgk1:k1:g" ++ 212 ∷ []) ≡ ok (codes "p")
unfolding decrypt
opened_before = refl

rotate_credential_keyring-Decrypts_example :
    Decrypts keyring_calls
      (key_request (codes "k2"))
      []
      (codes "mgk1:k1:g" ++ 212 ∷ [])
      (codes "p")
      (rotate_credential_keyring keyring_calls (key_request (codes "k2")) keyring_installation).1
rotate_credential_keyring-Decrypts_example =
    rotate_credential_keyring-Decrypts keyring_calls (key_request (codes "k2")) keyring_installation
      (codes "x") [] [] ring_before (codes "mgk1:k1:g" ++ 212 ∷ []) (codes "p")
      (inl (292, read_before, refl)) settings_before opened_before test_added
