-- ===== src/Lifecycle.antt =====
-- app/gateway/lifecycle.py and app/gateway/management/commands/purge_retention.py: which rows are
-- old enough to go, and how they are deleted in batches. A table is the list of its rows; a batch
-- takes the first of the rows that the query selects.
pub mod Batches
pub mod Filters
pub mod Purged
pub mod Steps
mod Tests
use mailgate.Common.{
  length, take, is_empty, any, all, filter, Result, ok, err, Text, codes, decimal, SignedNumber,
  ltb, leb, if◌then◌else◌, ◌==◌, nat_eq, list_eq, option_eq, ℕ, zero, suc, ◌+◌, ◌*◌, Bool, false,
  not, ◌&&◌, ◌||◌, Option, none, some, List, [], ◌∷◌, ◌++◌,
}
use mailgate.Models.{
  State, quarantined, approved, rejected, Message, Attachment, ApiToken, AuditEvent, Database,
  audit, signal_eq, state_eq, auth_eq,
}

-- Days are kept as numbers of seconds are: from 0 on.
pub record RetentionPolicy : Type 0 where
  pub approved_days : ℕ
  pub quarantined_days : ℕ
  pub rejected_days : ℕ
  pub token_days : ℕ
  pub audit_days : ℕ

abbrev pub day_limit : ℕ
day_limit = 36_500

abbrev pub are_valid_days : List SignedNumber → Bool
are_valid_days = all (λ n. not n.is_negative && leb n.magnitude day_limit)

-- `RetentionPolicy(...)` with `__post_init__`; `none` is `ValueError`
unfoldable pub make_policy :
    SignedNumber
    → SignedNumber
    → SignedNumber
    → SignedNumber
    → SignedNumber
    → Option RetentionPolicy
make_policy a q r t e =
    if are_valid_days (a ∷ q ∷ r ∷ t ∷ e ∷ [])
    then some (record {
      approved_days = a.magnitude;
      quarantined_days = q.magnitude;
      rejected_days = r.magnitude;
      token_days = t.magnitude;
      audit_days = e.magnitude;
    })
    else none

-- `t < now - timedelta(days=days)`
abbrev pub is_before : ℕ → ℕ → ℕ → Bool
is_before now days t = ltb (t + days * 86_400) now

-- `Coalesce("decided_at", "ingested_at")`
abbrev pub retention_timestamp : Message → ℕ
retention_timestamp m = elim m.decided_at [ some t ↦ t | none ↦ m.ingested_at ]

-- `_message_queryset`
unfoldable pub is_old_message : State → ℕ → ℕ → Message → Bool
is_old_message state now days m = m.state == state && is_before now days (retention_timestamp m)

-- `_token_queryset`
unfoldable pub is_old_token : ℕ → ℕ → ApiToken → Bool
is_old_token now days t = elim t.revoked_at [
  | some r ↦ is_before now days r
  | none ↦ elim t.expires_at [ some e ↦ is_before now days e | none ↦ false ]
]

abbrev pub is_old_event : ℕ → ℕ → AuditEvent → Bool
is_old_event now days e = is_before now days e.created_at

pub record Counts : Type 0 where
  pub approved_messages : ℕ
  pub quarantined_messages : ℕ
  pub rejected_messages : ℕ
  pub inactive_tokens : ℕ
  pub audit_events : ℕ

abbrev pub count_rows {ℓ} : {A : Type ℓ} → (A → Bool) → List A → ℕ
count_rows p rows = length (filter p rows)

-- `retention_counts`
unfoldable pub retention_counts : RetentionPolicy → ℕ → Database → Counts
unfolding is_old_message is_old_token
retention_counts policy now db = record {
  approved_messages = count_rows (is_old_message approved now policy.approved_days) db.messages;
  quarantined_messages =
      count_rows (is_old_message quarantined now policy.quarantined_days) db.messages;
  rejected_messages = count_rows (is_old_message rejected now policy.rejected_days) db.messages;
  inactive_tokens = count_rows (is_old_token now policy.token_days) db.tokens;
  audit_events = count_rows (is_old_event now policy.audit_days) db.events;
}

module _ {ℓ} {A : Type ℓ} (selected : A → Bool) where
  -- The deletion of the first `n` rows that are selected.
  abbrev pub delete_first : ℕ → List A → List A
  delete_first zero rows = rows
  delete_first (suc n) [] = []
  delete_first (suc n) (x ∷ xs) =
      let gone = delete_first n xs in
      let kept = delete_first (suc n) xs in if selected x then gone else x ∷ kept

  -- `_delete_queryset_in_batches`, on fuel: the rows that are left, and `deleted`
  unfoldable pub delete_in_batches : ℕ → ℕ → ℕ → List A → Option (List A × ℕ)
  delete_in_batches zero batch_size deleted rows = none
  delete_in_batches (suc fuel) batch_size deleted rows =
      let ids : List A = take batch_size (filter selected rows) in
      let next =
        delete_in_batches fuel batch_size (deleted + length ids) (delete_first batch_size rows) in
      if is_empty ids then some (rows, deleted) else next

  -- with a round for each row, and one that finds none
  unfoldable pub delete_queryset : ℕ → List A → Option (List A × ℕ)
  unfolding delete_in_batches
  delete_queryset batch_size rows = delete_in_batches (suc (length rows)) batch_size 0 rows

-- The database deletes the attachments of a message with it.
abbrev pub cascade : List Message → Attachment → Bool
cascade messages a = any (λ m. m.id == a.message) messages

abbrev pub delete_messages : ℕ → (Message → Bool) → Database → Option (Database × ℕ)
delete_messages batch_size selected db = elim (delete_queryset selected batch_size db.messages) [
  | none ↦ none
  | some (rows, n) ↦
      some (record db { messages = rows; attachments = filter (cascade rows) db.attachments }, n)
]

abbrev pub delete_tokens : ℕ → (ApiToken → Bool) → Database → Option (Database × ℕ)
delete_tokens batch_size selected db = elim (delete_queryset selected batch_size db.tokens) [
  | none ↦ none
  | some (rows, n) ↦ some (record db { tokens = rows }, n)
]

abbrev pub delete_events : ℕ → (AuditEvent → Bool) → Database → Option (Database × ℕ)
delete_events batch_size selected db = elim (delete_queryset selected batch_size db.events) [
  | none ↦ none
  | some (rows, n) ↦ some (record db { events = rows }, n)
]

abbrev pub then_delete : {A : Type 0} → Option (Database × ℕ) → (Database → ℕ → Option A) → Option A
then_delete none k = none
then_delete (some (db, n)) k = k db n

-- The nested dictionaries of the event, flat: a key is its path.
abbrev pub counts_metadata : Counts → List (Text × Text)
counts_metadata c =
    (codes "counts.approved_messages", decimal c.approved_messages)
    ∷ (codes "counts.quarantined_messages", decimal c.quarantined_messages)
    ∷ (codes "counts.rejected_messages", decimal c.rejected_messages)
    ∷ (codes "counts.inactive_tokens", decimal c.inactive_tokens)
    ∷ (codes "counts.audit_events", decimal c.audit_events)
    ∷ []

-- `vars(policy)`
abbrev pub policy_metadata : RetentionPolicy → List (Text × Text)
policy_metadata p =
    (codes "policy_days.approved_days", decimal p.approved_days)
    ∷ (codes "policy_days.quarantined_days", decimal p.quarantined_days)
    ∷ (codes "policy_days.rejected_days", decimal p.rejected_days)
    ∷ (codes "policy_days.token_days", decimal p.token_days)
    ∷ (codes "policy_days.audit_days", decimal p.audit_days)
    ∷ []

abbrev pub audited : RetentionPolicy → ℕ → Counts → Database → Counts × Database
audited policy now c db = (
  c,
  audit now (codes "system:retention") (codes "retention.purged") none
      (counts_metadata c ++ policy_metadata policy) db,
)

-- The transaction of `purge_retention`, from its last deletion back to its first; `none` is a loop
-- that has not ended.
module _ (policy : RetentionPolicy) (now batch_size : ℕ) where
  unfoldable pub purge_events : (ℕ → Counts) → Database → Option (Counts × Database)
  unfolding delete_queryset audit decimal
  purge_events counts db =
      then_delete (delete_events batch_size (is_old_event now policy.audit_days) db)
        (λ db e. some (audited policy now (counts e) db))

  unfoldable pub purge_tokens : (ℕ → ℕ → Counts) → Database → Option (Counts × Database)
  unfolding purge_events is_old_token
  purge_tokens counts db =
      then_delete (delete_tokens batch_size (is_old_token now policy.token_days) db)
        (λ db t. purge_events (counts t) db)

  unfoldable pub purge_rejected : (ℕ → ℕ → ℕ → Counts) → Database → Option (Counts × Database)
  unfolding purge_tokens is_old_message
  purge_rejected counts db =
      then_delete (delete_messages batch_size (is_old_message rejected now policy.rejected_days) db)
        (λ db r. purge_tokens (counts r) db)

  unfoldable pub purge_quarantined :
      (ℕ → ℕ → ℕ → ℕ → Counts) → Database → Option (Counts × Database)
  unfolding purge_rejected
  purge_quarantined counts db =
      then_delete
        (delete_messages batch_size (is_old_message quarantined now policy.quarantined_days) db)
        (λ db q. purge_rejected (counts q) db)

  abbrev pub counts_of : ℕ → ℕ → ℕ → ℕ → ℕ → Counts
  counts_of a q r t e = record {
    approved_messages = a;
    quarantined_messages = q;
    rejected_messages = r;
    inactive_tokens = t;
    audit_events = e;
  }

  unfoldable pub purge : Database → Option (Counts × Database)
  unfolding purge_quarantined
  purge db =
      then_delete (delete_messages batch_size (is_old_message approved now policy.approved_days) db)
        (λ db a. purge_quarantined (counts_of a) db)

-- `purge_retention`: `err` is `ValueError`, `none` a loop that has not ended
unfoldable pub purge_retention :
    RetentionPolicy → ℕ → SignedNumber → Database → Result (Unit {0}) (Option (Counts × Database))
unfolding purge
purge_retention policy now batch_size db =
    if batch_size.is_negative
      || (not (leb 1 batch_size.magnitude) || not (leb batch_size.magnitude 10_000))
    then err tt
    else ok (purge policy now batch_size.magnitude db)
