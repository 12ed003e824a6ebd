-- ===== src/Ingestion/Sync.antt =====
-- app/gateway/ingestion.py: `_open_imap`, `sync_mailbox` and `sync_all_mailboxes`.
pub mod Complete
pub mod Keys
pub mod Messages
pub mod Outcome
pub mod Stored
use mailgate.Common.{
  length, filter, Result, ok, err, Text, Bytes, ltb, if◌then◌else◌, ◌==◌, nat_eq, list_eq,
  option_eq, ℕ, ◌+◌, max, ◌⊎◌, inl, inr, Bool, true, false, not, ◌||◌, Option, none, some, List, [],
  ◌∷◌,
}
use mailgate.Ingestion.{
  SyncCode, egress_policy_denied, uidvalidity_missing, configuration_changed, authentication_failed,
  inbox_unavailable, search_failed, size_unavailable, fetch_failed, empty_message,
  connection_failed, code_text, SyncError, code, data_error, credential_error, Reply, broken, reply,
  Imap, response_bytes, uidvalidity_of, message_size, new_uids,
}
use mailgate.Ingestion.Store.{is_current, store_message}
use mailgate.Mail.{max_message_bytes, Libraries}
use mailgate.Models.{Signal, message_too_large, Mailbox, Database, signal_eq, state_eq, auth_eq}

-- What a run meets from outside: the settings, the server, the time and the new key for each UID, the
-- secret store, and what other processes do to the database before each transaction.
pub record World : Type 0 where
  pub allowed_host : Text
  pub imap : Imap
  pub libraries : Libraries
  pub decrypt_secret : Bytes → Option Text
  pub now : ℕ → ℕ
  pub new_id : ℕ → ℕ
  pub others : ℕ → Database → Database
  pub end_time : ℕ
  pub others_at_end : Database → Database

abbrev pub Run : Type 0 → Type 0
Run A = Database → Result SyncError A × Database

module _ {A B : Type 0} where
  abbrev pub continue : Result SyncError A × Database → (A → Run B) → Result SyncError B × Database
  continue (ok a, db) k = k a db
  continue (err e, db) k = (err e, db)

  -- a call of the server: an exception is an error of the connection
  abbrev pub with_reply : Reply A → (A → Run B) → Run B
  with_reply broken k db = (err (code connection_failed), db)
  with_reply (reply a) k db = k a db

abbrev pub fails_with : {A : Type 0} → SyncCode → Run A
fails_with c db = (err (code c), db)

module _ (w : World) (m : Mailbox) where
  -- `_open_imap`
  unfoldable pub open_imap : {B : Type 0} → Run B → Run B
  open_imap k db =
      if not (m.host == w.allowed_host) || not (m.port == 993)
      then fails_with egress_policy_denied db
      else with_reply (w.imap.connect m.host m.port) (λ _. k) db

  -- `_store_message`, in a transaction that sees what other processes did
  unfoldable pub store_uid : ℕ → ℕ → Bytes ⊎ Signal → Run Bool
  unfolding store_message
  store_uid validity uid content db =
      store_message w.libraries (w.now uid) (w.new_id uid) m validity uid content m.config_version
        (w.others uid db)

  abbrev pub store_body : ℕ → ℕ → Bool → Bytes → Run Bool
  store_body validity uid false raw = fails_with fetch_failed
  store_body validity uid true [] = fails_with empty_message
  store_body validity uid true (b ∷ raw) = store_uid validity uid (inl (b ∷ raw))

  abbrev pub fetch_body : ℕ → ℕ → Run Bool
  fetch_body validity uid =
      with_reply (w.imap.fetch_peek uid) (λ r. store_body validity uid r.0 (response_bytes r.1))

  abbrev pub fetch_sized : ℕ → ℕ → Bool → Option ℕ → Run Bool
  fetch_sized validity uid false size = fails_with size_unavailable
  fetch_sized validity uid true none = fails_with size_unavailable
  fetch_sized validity uid true (some size) =
      if ltb max_message_bytes size
      then store_uid validity uid (inr message_too_large)
      else fetch_body validity uid

  -- the body of the loop over the UIDs
  unfoldable pub fetch_one : ℕ → ℕ → Run Bool
  unfolding store_uid message_size response_bytes
  fetch_one validity uid =
      with_reply (w.imap.fetch_size uid) (λ r. fetch_sized validity uid r.0 (message_size r.1))

  abbrev pub count : Bool → ℕ
  count true = 1
  count false = 0

  -- the loop: it returns `created` and the new `last_uid`
  unfoldable pub fetch_all : ℕ → List ℕ → ℕ → ℕ → Run (ℕ × ℕ)
  unfolding fetch_one
  fetch_all validity [] created last db = (ok (created, last), db)
  fetch_all validity (uid ∷ uids) created last db =
      continue (fetch_one validity uid db)
        (λ b. fetch_all validity uids (created + count b) (max last uid))

  abbrev pub update_where : (Mailbox → Bool) → (Mailbox → Mailbox) → List Mailbox → List Mailbox
  update_where p f [] = []
  update_where p f (x ∷ xs) = (if p x then f x else x) ∷ update_where p f xs

  abbrev pub synced : ℕ → ℕ → Mailbox → Mailbox
  synced validity last x = record x {
    uid_validity = some validity;
    last_uid = last;
    last_sync_at = some w.end_time;
    last_error_code = [];
    updated_at = w.end_time;
  }

  -- the update at the end; it must change one row
  unfoldable pub record_sync : ℕ → ℕ × ℕ → Run ℕ
  record_sync validity (created, last) db =
      let seen : Database = w.others_at_end db in
      let p = is_current m.pk m.config_version in
      let rows = update_where p (synced validity last) seen.mailboxes in
      if length (filter p seen.mailboxes) == 1
      then (ok created, record seen { mailboxes = rows })
      else (err (code configuration_changed), record seen { mailboxes = rows })

  -- `last_uid` of the object after UIDVALIDITY was compared
  abbrev pub starting_uid : ℕ → Option ℕ → ℕ
  starting_uid validity known = if known == some validity then m.last_uid else 0

  abbrev pub search_and_fetch : ℕ → ℕ → ℕ → Run ℕ
  search_and_fetch batch_size validity last =
      with_reply (w.imap.search_from_uid (last + 1)) (λ r db.
        if not r.0
        then fails_with search_failed db
        else continue (fetch_all validity (new_uids last batch_size r.1) 0 last db)
            (record_sync validity))

  abbrev pub with_validity : ℕ → Option ℕ → Run ℕ
  with_validity batch_size none = fails_with uidvalidity_missing
  with_validity batch_size (some validity) =
      search_and_fetch batch_size validity (starting_uid validity m.uid_validity)

  -- the `try` block
  unfoldable pub session : ℕ → Text → Run ℕ
  unfolding open_imap fetch_all record_sync uidvalidity_of new_uids
  session batch_size password = open_imap (
      with_reply (w.imap.login m.username password) (λ logged_in.
        if not logged_in
        then fails_with authentication_failed
        else with_reply w.imap.select_readonly (λ selected.
          if not selected
          then fails_with inbox_unavailable
          else with_reply w.imap.uidvalidity
              (λ items. with_validity batch_size (uidvalidity_of items)))))

  abbrev pub is_configuration_changed : SyncCode → Bool
  is_configuration_changed configuration_changed = true
  is_configuration_changed _ = false

  abbrev pub failed_sync : SyncCode → Mailbox → Mailbox
  failed_sync c x = record x {
    last_error_code = code_text c;
    last_sync_at = some w.end_time;
    updated_at = w.end_time;
  }

  -- the `except` clause: only a `MailboxSyncError`, or what became one, is recorded
  unfoldable pub record_failure : Result SyncError ℕ × Database → Result SyncError ℕ × Database
  record_failure (ok n, db) = (ok n, db)
  record_failure (err (code c), db) = if is_configuration_changed c then (err (code c), db) else (
    err (code c),
    record db {
      mailboxes = update_where (is_current m.pk m.config_version) (failed_sync c) db.mailboxes;
    },
  )
  record_failure (err data_error, db) = (err data_error, db)
  record_failure (err credential_error, db) = (err credential_error, db)

  abbrev pub with_password : ℕ → Option Text → Run ℕ
  with_password batch_size none db = (err credential_error, db)
  with_password batch_size (some password) db = record_failure (session batch_size password db)

  -- `sync_mailbox`
  unfoldable pub sync_mailbox : ℕ → Run ℕ
  unfolding session record_failure
  sync_mailbox batch_size db =
      if m.enabled
      then with_password batch_size (w.decrypt_secret m.password_encrypted) db
      else (ok 0, db)

abbrev pub tally : Result SyncError ℕ × Database → ℕ → ℕ → ℕ × ℕ × Database
tally (ok n, db) processed errors = (processed + n, errors, db)
tally (err _, db) processed errors = (processed, errors + 1, db)

-- The loop of `sync_all_mailboxes`, over the mailboxes that it reads; `worlds` is what each run meets.
unfoldable pub sync_each : (Mailbox → World) → List Mailbox → ℕ × ℕ × Database → ℕ × ℕ × Database
unfolding sync_mailbox
sync_each worlds [] s = s
sync_each worlds (m ∷ ms) (processed, errors, db) =
    sync_each worlds ms (tally (sync_mailbox (worlds m) m 50 db) processed errors)

-- `sync_all_mailboxes`
unfoldable pub sync_all_mailboxes : (Mailbox → World) → Database → ℕ × ℕ × Database
unfolding sync_each
sync_all_mailboxes worlds db = sync_each worlds (filter (λ m. m.enabled) db.mailboxes) (0, 0, db)
