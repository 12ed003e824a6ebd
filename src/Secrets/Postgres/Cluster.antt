-- ===== src/Secrets/Postgres/Cluster.antt =====
-- scripts/rotate_postgres_admin_password.py: what the cluster and the shell do, and when the password of
-- the database and the secret file agree.
use mailgate.Common.{
  length, any, Result, ok, err, Text, codes, rstrip, ltb, leb, Bool-cases, ◌==◌, nat_eq, list_eq,
  option_eq, ℕ, ◌≡◌, refl, sym, ap, ◌∙◌, ◌⊎◌, inl, inr, Bool, false, not, ◌&&◌, ◌||◌, Option, none,
  some, [], ◌∷◌, ◌++◌, arith,
}
use mailgate.Secrets.{ToolError, Raised, Entry, Installation, proceed, Codec}
use mailgate.Secrets.Postgres.{
  Answer, broken, local_select, tcp_probe, bootstrap, set_password, succeeded, failed, DockerRunner,
  demand, validate_password, secret_name,
}
use mailgate.Secrets.Writing.Atomic.{IsComplete}

-- What a shell reads from a file by `$(cat ...)`, without the line feeds at the end.
unfoldable pub without_newlines : Option Text → Option Text
unfolding rstrip
without_newlines none = none
without_newlines (some s) = some (rstrip (λ c. c == 10) s)

abbrev pub shell_value : Codec → Option Entry → Option Text
shell_value codec none = none
shell_value codec (some e) = without_newlines (codec.decode e.content)

-- The value of the secret file is the password of the database.
abbrev pub IsAligned : Codec → Installation → Type 0
IsAligned codec w = shell_value codec (w.files secret_name) ≡ some w.password

-- What Docker and PostgreSQL do: only the prompt changes anything, and that only the password, perhaps
-- also where the command fails; a probe that succeeds has authenticated with the value of the file.
pub record IsCluster (codec : Codec) (runner : DockerRunner) : Type 0 where
  pub decodes : (s : Text) → codec.decode (codec.encode s) ≡ some s
  pub select_keeps : (n : ℕ) (w : Installation) → (runner n local_select w).1 ≡ w
  pub probe_keeps : (n : ℕ) (w : Installation) → (runner n tcp_probe w).1 ≡ w
  pub bootstrap_keeps : (n : ℕ) (w : Installation) → (runner n bootstrap w).1 ≡ w
  pub prompt_keeps :
      (n : ℕ) (v : Text) (w : Installation) → (runner n (set_password v) w).1.files ≡ w.files
  pub prompt_sets :
      (n : ℕ) (v : Text) (w : Installation)
      → ((runner n (set_password v) w).1.password ≡ v)
        ⊎ ((runner n (set_password v) w).1.password ≡ w.password)
  pub prompt_done :
      (n : ℕ) (v : Text) (w : Installation)
      → (runner n (set_password v) w).0 ≡ succeeded
      → (runner n (set_password v) w).1.password ≡ v
  pub probe_done :
      (n : ℕ) (w : Installation) → (runner n tcp_probe w).0 ≡ succeeded → IsAligned codec w

abbrev pub Outcome : Type 0
Outcome = Result Raised (Unit {0}) × Installation

-- The password and the secret file are those of another world.
abbrev pub SameSecrets : Installation → Installation → Type 0
SameSecrets w w' = (w'.password ≡ w.password) × (w'.files secret_name ≡ w.files secret_name)

-- Both are the value `v`.
abbrev pub Holds : Codec → Text → Installation → Type 0
Holds codec v w = (w.password ≡ v) × IsAligned codec w

-- What holds where a step returned, and where it raised.
abbrev pub After : (Installation → Type 0) → (Installation → Type 0) → Outcome → Type 0
After P Q (ok _, w) = P w
After P Q (err _, w) = Q w

pub After-proceed :
    (P P' Q : Installation → Type 0) (m : Outcome) (k : Installation → Outcome)
    → After P Q m
    → ((w : Installation) → P w → After P' Q (k w))
    → After P' Q (proceed m (λ _. k))
After-proceed P P' Q (ok _, w) k h f = f w h
After-proceed P P' Q (err e, w) k h f = h

pub After-weaken :
    (P P' Q Q' : Installation → Type 0) (m : Outcome)
    → ((w : Installation) → P w → P' w)
    → ((w : Installation) → Q w → Q' w)
    → After P Q m
    → After P' Q' m
After-weaken P P' Q Q' (ok _, w) f g h = f w h
After-weaken P P' Q Q' (err e, w) f g h = g w h

-- A step returns where its command succeeds, and the command says what holds then.
pub After-demand :
    (P Q : Installation → Type 0) (stage : ToolError) (x : Answer × Installation)
    → (x.0 ≡ succeeded → P x.1)
    → Q x.1
    → After P Q (demand stage x)
After-demand P Q stage (succeeded, w) h k = h refl
After-demand P Q stage (failed, w) h k = k
After-demand P Q stage (broken, w) h k = k

rstrip-newline :
    (v : Text) → any (λ c. ltb c 32) v ≡ false → rstrip (λ c. c == 10) (v ++ codes "\n") ≡ v
unfolding rstrip
rstrip-newline [] h = refl
rstrip-newline (c ∷ v) h = ground (arith, rstrip-newline v)

-- The value that the shell reads from a complete secret file.
pub shell_value_complete :
    (codec : Codec)
    → ((s : Text) → codec.decode (codec.encode s) ≡ some s)
    → (v : Text) (e : Option Entry) → any (λ c. ltb c 32) v ≡ false
    → IsComplete codec v e
    → shell_value codec e ≡ some v
unfolding without_newlines
shell_value_complete codec decodes v e printable (x, at, private, bytes) =
    ap (shell_value codec) at
    ∙ ap without_newlines (ap codec.decode bytes ∙ decodes (v ++ codes "\n"))
    ∙ ap (λ s. some s) (rstrip-newline v printable)

pub same_value : {a b : Text} → some a ≡ some b → a ≡ b
same_value h = cc

pub validate_password-printable :
    (s v : Text) → validate_password s ≡ ok v → (v ≡ s) × (any (λ c. ltb c 32) v ≡ false)
unfolding validate_password
validate_password-printable s v h =
    elim (Bool-cases (not (leb 16 (length s) && leb (length s) 1024) || any (λ c. ltb c 32) s)) [
      | inl bad ↦ cc (rw bad at h)
      | inr good ↦ let e = same_ok (rw good at h) in (sym e, rw (← e) (second _ _ good))
    ]
  where
    same_ok : ◌≡◌ {A = Result Raised Text} (ok s) (ok v) → s ≡ v
    same_ok h = cc

    second : (a b : Bool) → a || b ≡ false → b ≡ false
    second a b h = ground arith
