-- ===== src/Secrets/Postgres/Verdict.antt =====
-- scripts/rotate_postgres_admin_password.py: what each end of a run tells of the two places that hold
-- the password.
-- What a message, or the return, tells the operator.
use mailgate.Common.{Result, ok, err, Text, ◌≡◌, ap, ◌∙◌, ◌⊎◌, inl, inr, Option}
use mailgate.Regex.{same}
use mailgate.Secrets.{
  lock_not_released, new_value_remains, alignment_unknown, old_file_not_restored, old_restored,
  Raised, tool, Entry, Files, Installation, Codec,
}
use mailgate.Secrets.Postgres.{secret_name}
use mailgate.Secrets.Postgres.Cluster.{Outcome, SameSecrets, Holds}
use mailgate.Secrets.Writing.Atomic.{IsComplete, IsOldOrComplete}

pub data Verdict : Type 0 where
  rotated restored file_unknown all_unknown untouched : Verdict

unfoldable pub verdict : Result Raised (Unit {0}) → Verdict
verdict (ok _) = rotated
verdict (err (tool old_restored)) = restored
verdict (err (tool new_value_remains)) = rotated
verdict (err (tool old_file_not_restored)) = file_unknown
verdict (err (tool alignment_unknown)) = all_unknown
verdict (err (tool lock_not_released)) = all_unknown
verdict (err _) = untouched

module _ (codec : Codec) (old new : Text) (w0 : Installation) where
  -- The file is what it was, or all of one of the two values.
  abbrev pub IsKnownFile : Installation → Type 0
  IsKnownFile w =
      (w.files secret_name ≡ w0.files secret_name)
      ⊎ (IsComplete codec new (w.files secret_name) ⊎ IsComplete codec old (w.files secret_name))

  abbrev pub IsKnownPassword : Installation → Type 0
  IsKnownPassword w = (w.password ≡ new) ⊎ ((w.password ≡ old) ⊎ (w.password ≡ w0.password))

  -- The state that a verdict stands for.
  abbrev pub Means : Verdict → Installation → Type 0
  Means rotated w = Holds codec new w × IsComplete codec new (w.files secret_name)
  Means restored w = Holds codec old w × IsComplete codec old (w.files secret_name)
  Means file_unknown w = (w.password ≡ old) × IsKnownFile w
  Means all_unknown w = IsKnownPassword w × IsKnownFile w
  Means untouched w = SameSecrets w0 w

  -- Whatever the verdict is, nothing but the two values has been written.
  pub Means-all_unknown : (v : Verdict) (w : Installation) → Means v w → Means all_unknown w
  Means-all_unknown rotated w (holds, complete) = (inl holds.0, inr (inl complete))
  Means-all_unknown restored w (holds, complete) = (inr (inl holds.0), inr (inr complete))
  Means-all_unknown file_unknown w (e, file) = (inr (inl e), file)
  Means-all_unknown all_unknown w h = h
  Means-all_unknown untouched w (e, file) = (inr (inr e), inl file)

  abbrev pub IsTold : Outcome → Type 0
  IsTold (r, w) = Means (verdict r) w

-- How a file that was perhaps written twice can stand.
pub known_again :
    (codec : Codec) (old new : Text) (e0 e1 e2 : Option Entry)
    → IsOldOrComplete codec new e0 e1
    → IsOldOrComplete codec old e1 e2
    → (e2 ≡ e0) ⊎ (IsComplete codec new e2 ⊎ IsComplete codec old e2)
known_again codec old new e0 e1 e2 h (inr complete) = inr (inr complete)
known_again codec old new e0 e1 e2 (inl same) (inl same') = inl (same' ∙ same)
known_again codec old new e0 e1 e2 (inr complete) (inl same') = inr (inl (rw same' complete))

pub known_new :
    (codec : Codec) (old new : Text) (e0 e1 e2 : Option Entry)
    → IsOldOrComplete codec new e0 e1
    → IsOldOrComplete codec new e1 e2
    → (e2 ≡ e0) ⊎ (IsComplete codec new e2 ⊎ IsComplete codec old e2)
known_new codec old new e0 e1 e2 h (inr complete) = inr (inl complete)
known_new codec old new e0 e1 e2 (inl same) (inl same') = inl (same' ∙ same)
known_new codec old new e0 e1 e2 (inr complete) (inl same') = inr (inl (rw same' complete))

pub known_password :
    {old new w0 w1 w2 w3 : Text}
    → w3 ≡ w2
    → (w2 ≡ old) ⊎ (w2 ≡ w1)
    → (w1 ≡ new) ⊎ (w1 ≡ w0)
    → (w3 ≡ new) ⊎ ((w3 ≡ old) ⊎ (w3 ≡ w0))
known_password e (inl a) h = inr (inl (e ∙ a))
known_password e (inr a) (inl b) = inl (e ∙ a ∙ b)
known_password e (inr a) (inr b) = inr (inr (e ∙ a ∙ b))

pub same_secret : {f g : Files} → g ≡ f → g secret_name ≡ f secret_name
same_secret e = ap (λ (f : Files). f secret_name) e
