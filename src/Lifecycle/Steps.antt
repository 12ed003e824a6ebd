-- ===== src/Lifecycle/Steps.antt =====
-- app/gateway/lifecycle.py: each deletion of `purge_retention`, in its order, as the database that it
-- leaves to the next.
use mailgate.Common.{filter, ℕ, ◌≤◌, ◌≡◌, refl, not, some, List}
use mailgate.Lifecycle.{
  RetentionPolicy, is_old_message, is_old_token, is_old_event, Counts, count_rows, cascade,
  delete_messages, delete_tokens, delete_events, then_delete, audited, purge_events, purge_tokens,
  purge_rejected, purge_quarantined, counts_of, purge,
}
use mailgate.Lifecycle.Batches.{delete_queryset-filter}
use mailgate.Models.{State, quarantined, approved, rejected, Message, Database}

module _ (policy : RetentionPolicy) (now n : ℕ) (h : 1 ≤ n) where
  pub purge_events-eq :
      (counts : ℕ → Counts) (db : Database)
      → purge_events policy now n counts db
        ≡ some (
            audited policy now
              (counts (count_rows (is_old_event now policy.audit_days) db.events))
              (record db {
                events = filter (λ e. not (is_old_event now policy.audit_days e)) db.events;
              }))
  unfolding purge_events
  purge_events-eq counts db =
      rw
        (
          then_delete,
          delete_events,
          delete_queryset-filter (is_old_event now policy.audit_days) n db.events h,
        )
        refl

  pub purge_tokens-eq :
      (counts : ℕ → ℕ → Counts) (db : Database)
      → purge_tokens policy now n counts db
        ≡ purge_events policy now n
            (counts (count_rows (is_old_token now policy.token_days) db.tokens))
            (record db {
              tokens = filter (λ t. not (is_old_token now policy.token_days t)) db.tokens;
            })
  unfolding purge_tokens
  purge_tokens-eq counts db =
      rw
        (
          then_delete,
          delete_tokens,
          delete_queryset-filter (is_old_token now policy.token_days) n db.tokens h,
        )
        refl

  abbrev pub without : State → ℕ → Database → Database
  without s days db =
      let kept : List Message = filter (λ m. not (is_old_message s now days m)) db.messages in
      record db { messages = kept; attachments = filter (cascade kept) db.attachments }

  pub purge_rejected-eq :
      (counts : ℕ → ℕ → ℕ → Counts) (db : Database)
      → purge_rejected policy now n counts db
        ≡ purge_tokens policy now n
            (counts (count_rows (is_old_message rejected now policy.rejected_days) db.messages))
            (without rejected policy.rejected_days db)
  unfolding purge_rejected
  purge_rejected-eq counts db =
      rw
        (
          then_delete,
          delete_messages,
          delete_queryset-filter (is_old_message rejected now policy.rejected_days) n db.messages h,
        )
        refl

  pub purge_quarantined-eq :
      (counts : ℕ → ℕ → ℕ → ℕ → Counts) (db : Database)
      → purge_quarantined policy now n counts db
        ≡ purge_rejected policy now n
            (counts
              (count_rows (is_old_message quarantined now policy.quarantined_days) db.messages))
            (without quarantined policy.quarantined_days db)
  unfolding purge_quarantined
  purge_quarantined-eq counts db =
      rw
        (
          then_delete,
          delete_messages,
          delete_queryset-filter (is_old_message quarantined now policy.quarantined_days) n
              db.messages h,
        )
        refl

  pub purge-eq :
      (db : Database)
      → purge policy now n db
        ≡ purge_quarantined policy now n
            (counts_of policy now n
              (count_rows (is_old_message approved now policy.approved_days) db.messages))
            (without approved policy.approved_days db)
  unfolding purge
  purge-eq db =
      rw
        (
          then_delete,
          delete_messages,
          delete_queryset-filter (is_old_message approved now policy.approved_days) n db.messages h,
        )
        refl
