-- ===== src/Secrets/Postgres/Rollback.antt =====
-- scripts/rotate_postgres_admin_password.py: what the change and the rollback leave.
use mailgate.Common.{
  any, ok, err, Text, ltb, if-split, ◌==◌, nat_eq, list_eq, option_eq, ℕ, ◌≡◌, refl, sym, ◌∙◌, ◌⊎◌,
  inl, inr, false,
}
use mailgate.Secrets.{
  ToolError, old_password_again, channel_unavailable, secret_not_authenticated, update_rejected,
  new_secret_failed, bootstrap_failed, rollback_rejected, new_value_remains, alignment_unknown,
  old_file_not_restored, old_restored, tool, Installation, proceed,
}
use mailgate.Secrets.Postgres.{
  Answer, broken, finish, local_select, tcp_probe, bootstrap, set_password, succeeded, failed,
  demand, require_success, PostgresCalls, write_and_probe, change, after_rollback, roll_back,
  replace_password,
}
use mailgate.Secrets.Postgres.Cluster.{
  Outcome, IsCluster, Holds, After, After-proceed, After-weaken, After-demand, shell_value_complete,
  same_value,
}
use mailgate.Secrets.Postgres.Steps.{
  secret, HasPassword, PerhapsHasPassword, IsPerhapsWritten, IsProbed, prompt-After,
  write_and_probe-After,
}
use mailgate.Secrets.Postgres.Verdict.{
  untouched, verdict, IsTold, known_again, known_new, known_password, same_secret,
}
use mailgate.Secrets.Writing.Atomic.{IsComplete, IsOldOrComplete}

module _ (p : PostgresCalls) (cluster : IsCluster p.codec p.runner) (old new : Text) (mode : ℕ)
    (printable : any (λ c. ltb c 32) new ≡ false) (w0 : Installation) where
  -- Where the change raised, the password is the new one or the first one, and so is the file.
  abbrev IsMidway : Installation → Type 0
  IsMidway w =
      ((w.password ≡ new) ⊎ (w.password ≡ w0.password))
      × IsOldOrComplete p.codec new (secret w0) (secret w)

  abbrev IsChanged : Installation → Type 0
  IsChanged w = Holds p.codec new w × IsComplete p.codec new (secret w)

  bootstrap-After :
      (w : Installation)
      → IsChanged w
      → After IsChanged IsMidway (require_success p.runner 4 bootstrap bootstrap_failed w)
  bootstrap-After w changed =
      let same = cluster.bootstrap_keeps 4 w in
      let kept : IsChanged (p.runner 4 bootstrap w).1 = rw same changed in
      After-demand IsChanged IsMidway bootstrap_failed (p.runner 4 bootstrap w) (λ _. kept)
        (inl kept.0.0, inr kept.1)

  set-After :
      After
        (HasPassword new w0)
        IsMidway
        (require_success p.runner 2 (set_password new) update_rejected w0)
  set-After =
      After-weaken (HasPassword new w0) (HasPassword new w0) (PerhapsHasPassword new w0) IsMidway
        (require_success p.runner 2 (set_password new) update_rejected w0) (λ w h. h)
        (λ w h. (h.0, inl (same_secret h.1))) (prompt-After p cluster 2 new update_rejected w0)

  written-After :
      (w : Installation)
      → HasPassword new w0 w
      → After IsChanged IsMidway (write_and_probe p p.write new mode 3 new_secret_failed w)
  written-After w (set, kept) =
      After-weaken (IsProbed p.codec new w) IsChanged (IsPerhapsWritten p.codec new w) IsMidway
        (write_and_probe p p.write new mode 3 new_secret_failed w)
        (λ w' h. ((h.0.0 ∙ set, h.1), h.0.1))
        (λ w' h. (inl (h.0 ∙ set), rw (← same_secret kept) h.1))
        (write_and_probe-After p cluster p.write new mode 3 new_secret_failed w)

  change-After : After IsChanged IsMidway (change p new mode w0)
  unfolding change
  change-After =
      After-proceed (HasPassword new w0) IsChanged IsMidway
        (require_success p.runner 2 (set_password new) update_rejected w0) _ set-After
        (λ w1 set.
          After-proceed IsChanged IsChanged IsMidway
            (write_and_probe p p.write new mode 3 new_secret_failed w1) _ (written-After w1 set)
            bootstrap-After)

  finish-IsTold :
      (good bad : ToolError) (P Q : Installation → Type 0) (m : Outcome)
      → After P Q m
      → ((w : Installation) → P w → IsTold p.codec old new w0 (err (tool good), w))
      → ((w : Installation) → Q w → IsTold p.codec old new w0 (err (tool bad), w))
      → IsTold p.codec old new w0 (finish p good bad m)
  finish-IsTold good bad P Q (ok _, w) h f g = f w h
  finish-IsTold good bad P Q (err e, w) h f g = g w h

  after_rollback-IsTold :
      (w : Installation) (x : Outcome)
      → IsMidway w
      → After (HasPassword old w) (PerhapsHasPassword old w) x
      → IsTold p.codec old new w0 (after_rollback p old new mode x)
  unfolding verdict
  after_rollback-IsTold w (ok _, w1) (password, file) (set, kept) =
      finish-IsTold old_restored old_file_not_restored (IsProbed p.codec old w1)
        (IsPerhapsWritten p.codec old w1) _
        (write_and_probe-After p cluster p.write_back old mode 6 secret_not_authenticated w1)
        (λ w' h. ((h.0.0 ∙ set, h.1), h.0.1))
        (λ w' h. (
          h.0 ∙ set,
          known_again p.codec old new (secret w0) (secret w1) (secret w')
              (rw (same_secret kept) file) h.1,
        ))
  after_rollback-IsTold w (err e, w1) (password, file) (set, kept) =
      finish-IsTold new_value_remains alignment_unknown (IsProbed p.codec new w1)
        (IsPerhapsWritten p.codec new w1) _
        (write_and_probe-After p cluster p.write_again new mode 6 secret_not_authenticated w1)
        (λ w' h. (
          (
            same_value (
                sym h.1
                ∙ shell_value_complete p.codec cluster.decodes new (secret w') printable h.0.1),
            h.1,
          ),
          h.0.1,
        ))
        (λ w' h. (
          known_password h.0 set password,
          known_new p.codec old new (secret w0) (secret w1) (secret w') (rw (same_secret kept) file)
              h.1,
        ))

  roll_back-IsTold :
      (x : Outcome)
      → After IsChanged IsMidway x
      → IsTold p.codec old new w0 (roll_back p old new mode x)
  unfolding roll_back verdict
  roll_back-IsTold (ok _, w) h = h
  roll_back-IsTold (err e, w) h =
      after_rollback-IsTold w _ h (prompt-After p cluster 5 old rollback_rejected w)

  -- A step before the change, which changes nothing.
  quiet-IsTold :
      (x : Answer × Installation) (stage : ToolError) (k : Installation → Outcome)
      → x.1 ≡ w0
      → verdict (err (tool stage)) ≡ untouched
      → IsTold p.codec old new w0 (k w0)
      → IsTold p.codec old new w0 (proceed (demand stage x) (λ _. k))
  unfolding verdict
  quiet-IsTold (succeeded, w) stage k e v h = rw e h
  quiet-IsTold (failed, w) stage k e v h = rw (v, e) (refl, refl)
  quiet-IsTold (broken, w) stage k e v h = rw e (refl, refl)

  pub replace_password-IsTold : IsTold p.codec old new w0 (replace_password p old new mode w0)
  unfolding verdict
  replace_password-IsTold =
      if-split (IsTold p.codec old new w0) (new == old) (err (tool old_password_again), w0) _
        (λ _. (refl, refl))
        (λ _.
          quiet-IsTold (p.runner 0 local_select w0) channel_unavailable _
            (cluster.select_keeps 0 w0) refl
            (quiet-IsTold (p.runner 1 tcp_probe w0) secret_not_authenticated _
              (cluster.probe_keeps 1 w0) refl (roll_back-IsTold _ change-After)))
