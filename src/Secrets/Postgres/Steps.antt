-- ===== src/Secrets/Postgres/Steps.antt =====
-- scripts/rotate_postgres_admin_password.py: what each step of a run leaves.
use mailgate.Common.{Result, ok, err, Text, ℕ, ◌≡◌, refl, ap, ◌⊎◌, inr, Option}
use mailgate.Secrets.{ToolError, Raised, Entry, Files, Installation, with_files, Codec}
use mailgate.Secrets.Postgres.{
  tcp_probe, set_password, require_success, secret_name, PostgresCalls, write_secret,
  write_and_probe,
}
use mailgate.Secrets.Postgres.Cluster.{
  IsAligned, IsCluster, After, After-proceed, After-weaken, After-demand,
}
use mailgate.Secrets.Writing.{WriteCall}
use mailgate.Secrets.Writing.Atomic.{
  IsComplete, IsOldOrComplete, IsReplacement, atomic_write_secret-IsReplacement,
}

abbrev pub secret : Installation → Option Entry
secret w = w.files secret_name

-- The password is `v` and the files are as they were.
abbrev pub HasPassword : Text → Installation → Installation → Type 0
HasPassword v w w' = (w'.password ≡ v) × (w'.files ≡ w.files)

abbrev pub PerhapsHasPassword : Text → Installation → Installation → Type 0
PerhapsHasPassword v w w' = ((w'.password ≡ v) ⊎ (w'.password ≡ w.password)) × (w'.files ≡ w.files)

module _ (codec : Codec) (v : Text) (w : Installation) where
  -- The secret is `v`, or perhaps still what it was.
  abbrev pub IsWritten : Installation → Type 0
  IsWritten w' = (w'.password ≡ w.password) × IsComplete codec v (secret w')

  abbrev pub IsPerhapsWritten : Installation → Type 0
  IsPerhapsWritten w' = (w'.password ≡ w.password) × IsOldOrComplete codec v (secret w) (secret w')

  abbrev pub IsProbed : Installation → Type 0
  IsProbed w' = IsWritten w' × IsAligned codec w'

module _ (p : PostgresCalls) (cluster : IsCluster p.codec p.runner) where
  pub probe-After :
      (n : ℕ) (stage : ToolError) (w : Installation)
      → After
          (λ w'. (w' ≡ w) × IsAligned p.codec w')
          (λ w'. w' ≡ w)
          (require_success p.runner n tcp_probe stage w)
  probe-After n stage w =
      let same = cluster.probe_keeps n w in
      After-demand (λ w'. (w' ≡ w) × IsAligned p.codec w') (λ w'. w' ≡ w) stage
        (p.runner n tcp_probe w) (λ done. (same, rw same (cluster.probe_done n w done))) same

  pub prompt-After :
      (n : ℕ) (v : Text) (stage : ToolError) (w : Installation)
      → After
          (HasPassword v w)
          (PerhapsHasPassword v w)
          (require_success p.runner n (set_password v) stage w)
  prompt-After n v stage w =
      After-demand (HasPassword v w) (PerhapsHasPassword v w) stage (p.runner n (set_password v) w)
        (λ done. (cluster.prompt_done n v w done, cluster.prompt_keeps n v w))
        (cluster.prompt_sets n v w, cluster.prompt_keeps n v w)

  replaced-After :
      (call : WriteCall) (v : Text) (w : Installation) (r : Result Raised (Unit {0}) × Files)
      → IsReplacement p.codec call secret_name v w.files r
      → After (IsWritten p.codec v w) (IsPerhapsWritten p.codec v w) (with_files w r)
  replaced-After call v w (ok _, files) (t, e, left, old_or_new, (complete, gone)) =
      (refl, rw (ap (λ (f : Files). f secret_name) left) complete)
  replaced-After call v w (err x, files) (t, e, left, old_or_new, _) =
      (refl, rw (ap (λ (f : Files). f secret_name) left) old_or_new)

  write-After :
      (call : WriteCall) (v : Text) (mode : ℕ) (w : Installation)
      → After (IsWritten p.codec v w) (IsPerhapsWritten p.codec v w) (write_secret p call v mode w)
  write-After call v mode w =
      replaced-After call v w _
        (atomic_write_secret-IsReplacement p.codec call secret_name v mode w.files)

  -- A write that is followed by a probe leaves the file and the database in agreement.
  pub write_and_probe-After :
      (call : WriteCall) (v : Text) (mode n : ℕ) (stage : ToolError) (w : Installation)
      → After
          (IsProbed p.codec v w)
          (IsPerhapsWritten p.codec v w)
          (write_and_probe p call v mode n stage w)
  write_and_probe-After call v mode n stage w =
      After-proceed (IsWritten p.codec v w) (IsProbed p.codec v w) (IsPerhapsWritten p.codec v w)
        (write_secret p call v mode w) _ (write-After call v mode w)
        (λ w1 written.
          After-weaken (λ w'. (w' ≡ w1) × IsAligned p.codec w') (IsProbed p.codec v w)
            (λ w'. w' ≡ w1) (IsPerhapsWritten p.codec v w) _ (λ w' h. (rw h.0 written, h.1))
            (λ w' e. rw e (written.0, inr written.1)) (probe-After n stage w1))
