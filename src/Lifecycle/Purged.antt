-- ===== src/Lifecycle/Purged.antt =====
-- app/gateway/lifecycle.py: what a purge leaves, and that the dry run announces it.
use mailgate.Common.{
  filter, ok, SignedNumber, leb, ◌==◌, nat_eq, list_eq, option_eq, ℕ, ◌≤◌, ◌≡◌, refl, ap, ◌∙◌, Bool,
  false, not, ◌&&◌, ◌||◌, some, List, arith,
}
use mailgate.Lifecycle.{
  RetentionPolicy, is_before, retention_timestamp, is_old_message, is_old_token, is_old_event,
  retention_counts, cascade, audited, purge, purge_retention,
}
use mailgate.Lifecycle.Filters.{filter-filter, filter-ext, filter-weaker, any-filter}
use mailgate.Lifecycle.Steps.{
  purge_events-eq, purge_tokens-eq, purge_rejected-eq, purge_quarantined-eq, purge-eq,
}
use mailgate.Models.{
  State, quarantined, approved, rejected, Message, Attachment, Database, signal_eq, state_eq,
  auth_eq,
}

-- The days for which a message of a state is kept.
abbrev pub days_of : RetentionPolicy → State → ℕ
days_of policy approved = policy.approved_days
days_of policy quarantined = policy.quarantined_days
days_of policy rejected = policy.rejected_days

abbrev pub is_kept_message : RetentionPolicy → ℕ → Message → Bool
is_kept_message policy now m = not (is_before now (days_of policy m.state) (retention_timestamp m))

-- The database without the rows that the policy lets go, and with the event of the purge.
abbrev pub purged : RetentionPolicy → ℕ → Database → Database
purged policy now db =
    let kept : List Message = filter (is_kept_message policy now) db.messages in
    (audited policy now (retention_counts policy now db) (record db {
      messages = kept;
      attachments = filter (cascade kept) db.attachments;
      tokens = filter (λ t. not (is_old_token now policy.token_days t)) db.tokens;
      events = filter (λ e. not (is_old_event now policy.audit_days e)) db.events;
    })).1

second_kept :
    (s : State) (a q : Bool)
    → not (s == approved && a) && (s == quarantined && q) ≡ s == quarantined && q
second_kept approved a q = ground arith
second_kept quarantined a q = refl
second_kept rejected a q = refl

third_kept :
    (s : State) (a q r : Bool)
    → (not (s == approved && a) && not (s == quarantined && q)) && (s == rejected && r)
      ≡ s == rejected && r
third_kept approved a q r = ground arith
third_kept quarantined a q r = ground arith
third_kept rejected a q r = refl

module _ (policy : RetentionPolicy) (now : ℕ) where
  is_old : State → Message → Bool
  is_old s m = is_old_message s now (days_of policy s) m

  all_kept :
      (m : Message) (s : State)
      → m.state ≡ s
      → (not (is_old approved m) && not (is_old quarantined m)) && not (is_old rejected m)
        ≡ not (is_before now (days_of policy s) (retention_timestamp m))
  unfolding is_old is_old_message
  all_kept m approved e = rw e (ground arith)
  all_kept m quarantined e = rw e (ground arith)
  all_kept m rejected e = rw e (ground arith)

  abbrev kept1 : List Message → List Message
  kept1 ms = filter (λ m. not (is_old_message approved now policy.approved_days m)) ms

  abbrev kept2 : List Message → List Message
  kept2 ms = filter (λ m. not (is_old_message quarantined now policy.quarantined_days m)) (kept1 ms)

  abbrev kept3 : List Message → List Message
  kept3 ms = filter (λ m. not (is_old_message rejected now policy.rejected_days m)) (kept2 ms)

  kept3_lem : (ms : List Message) → kept3 ms ≡ filter (is_kept_message policy now) ms
  unfolding is_old
  kept3_lem ms =
      ap (filter (λ m. not (is_old rejected m)))
        (filter-filter (λ m. not (is_old quarantined m)) (λ m. not (is_old approved m)) ms)
      ∙ filter-filter (λ m. not (is_old rejected m))
          (λ m. not (is_old approved m) && not (is_old quarantined m)) ms
      ∙ filter-ext _ (is_kept_message policy now) (λ m. all_kept m m.state refl) ms

  quarantined_count :
      (ms : List Message)
      → filter (is_old_message quarantined now policy.quarantined_days) (kept1 ms)
        ≡ filter (is_old_message quarantined now policy.quarantined_days) ms
  unfolding is_old_message
  quarantined_count ms =
      filter-filter (is_old_message quarantined now policy.quarantined_days)
        (λ m. not (is_old_message approved now policy.approved_days m)) ms
      ∙ filter-ext _ (is_old_message quarantined now policy.quarantined_days)
          (λ m.
            second_kept m.state (is_before now policy.approved_days (retention_timestamp m))
              (is_before now policy.quarantined_days (retention_timestamp m)))
          ms

  rejected_count :
      (ms : List Message)
      → filter (is_old_message rejected now policy.rejected_days) (kept2 ms)
        ≡ filter (is_old_message rejected now policy.rejected_days) ms
  unfolding is_old_message
  rejected_count ms =
      ap (filter (is_old_message rejected now policy.rejected_days)) (
        filter-filter (λ m. not (is_old_message quarantined now policy.quarantined_days m))
          (λ m. not (is_old_message approved now policy.approved_days m)) ms)
      ∙ filter-filter (is_old_message rejected now policy.rejected_days)
          (λ m.
            not (is_old_message approved now policy.approved_days m)
            && not (is_old_message quarantined now policy.quarantined_days m))
          ms
      ∙ filter-ext _ (is_old_message rejected now policy.rejected_days)
          (λ m.
            third_kept m.state (is_before now policy.approved_days (retention_timestamp m))
              (is_before now policy.quarantined_days (retention_timestamp m))
              (is_before now policy.rejected_days (retention_timestamp m)))
          ms

  cascades :
      (ms : List Message) (as' : List Attachment)
      → filter (cascade (kept3 ms)) (filter (cascade (kept2 ms)) (filter (cascade (kept1 ms)) as'))
        ≡ filter (cascade (kept3 ms)) as'
  cascades ms as' =
      filter-weaker (cascade (kept3 ms)) (cascade (kept2 ms))
        (λ a. any-filter (λ m. m.id == a.message) _ (kept2 ms)) (filter (cascade (kept1 ms)) as')
      ∙ filter-weaker (cascade (kept3 ms)) (cascade (kept1 ms))
          (λ a h.
            any-filter (λ m. m.id == a.message) _ (kept1 ms)
              (any-filter (λ m. m.id == a.message) _ (kept2 ms) h))
          as'

  purge-purged :
      (n : ℕ) (db : Database)
      → 1 ≤ n
      → purge policy now n db ≡ some (retention_counts policy now db, purged policy now db)
  unfolding retention_counts
  purge-purged n db h =
      purge-eq policy now n h db
      ∙ purge_quarantined-eq policy now n h _ _
      ∙ purge_rejected-eq policy now n h _ _
      ∙ purge_tokens-eq policy now n h _ _
      ∙ purge_events-eq policy now n h _ _
      ∙ rw
          (
            cascades db.messages db.attachments,
            quarantined_count db.messages,
            rejected_count db.messages,
            kept3_lem db.messages,
          )
          refl

-- With a batch size from 1 to 10000, a purge ends; it returns the counts that the dry run announces,
-- and it deletes the messages, with their attachments, the tokens and the events that the policy lets
-- go by their state and their age, and nothing else; it adds its own event.
pub purge_retention-purged :
    (policy : RetentionPolicy) (now : ℕ) (batch_size : SignedNumber) (db : Database)
    → batch_size.is_negative ≡ false
    → 1 ≤ batch_size.magnitude
    → batch_size.magnitude ≤ 10_000
    → purge_retention policy now batch_size db
      ≡ ok (some (retention_counts policy now db, purged policy now db))
unfolding purge_retention
purge_retention-purged policy now batch_size db positive low' high' =
    let valid : batch_size.is_negative
          || (not (leb 1 batch_size.magnitude) || not (leb batch_size.magnitude 10_000))
        ≡ false =
      ground arith in
    rw valid (ap (λ r. ok r) (purge-purged policy now batch_size.magnitude db low'))
