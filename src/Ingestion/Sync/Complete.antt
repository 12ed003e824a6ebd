-- ===== src/Ingestion/Sync/Complete.antt =====
-- A run of `sync_mailbox` of app/gateway/ingestion.py that succeeds has skipped no message.
use mailgate.Common.{
  All, Result, ok, err, Text, Bool-cases, ◌==◌, nat_eq, list_eq, option_eq, ℕ, ◌+◌, ◌≡◌, inl, inr,
  true, not, ◌||◌, Option, none, some, List,
}
use mailgate.Ingestion.{
  SyncError, code, data_error, credential_error, ImapItem, reply, uidvalidity_of, new_uids,
}
use mailgate.Ingestion.Sync.{
  World, open_imap, fetch_all, record_sync, starting_uid, search_and_fetch, session,
  is_configuration_changed, record_failure, with_password, sync_mailbox,
}
use mailgate.Ingestion.Sync.Outcome.{Ensures, Ensures-continue, Ensures-with_reply, Ensures-ok}
use mailgate.Ingestion.Sync.Stored.{
  HasKey, KeepsKeys, AllStored, fetch_all-Stored, record_sync-Stored,
}
use mailgate.Json.{keys}
use mailgate.Models.{Mailbox, Database, signal_eq, state_eq, auth_eq}

module _ (w : World) (m : Mailbox) (keys : KeepsKeys w m) where
  module _ (validity batch_size : ℕ) (items hits : List ImapItem)
      (announced : w.imap.uidvalidity ≡ reply items) (parsed : uidvalidity_of items ≡ some validity)
      (searched : w.imap.search_from_uid (starting_uid w m validity m.uid_validity + 1)
        ≡ reply (true, hits)) where
    -- the UIDs of the batch
    abbrev batch : List ℕ
    batch = new_uids (starting_uid w m validity m.uid_validity) batch_size hits

    abbrev P : ℕ → Database → Type 0
    P _ = AllStored w m keys validity batch

    search_and_fetch-Stored :
        (db : Database)
        → Ensures P
            (search_and_fetch w m batch_size validity (starting_uid w m validity m.uid_validity) db)
    search_and_fetch-Stored db = rw searched (
        Ensures-continue P (λ _. AllStored w m keys validity batch)
          (fetch_all w m validity batch 0 (starting_uid w m validity m.uid_validity) db)
          (record_sync w m validity)
          (fetch_all-Stored w m keys validity batch 0 (starting_uid w m validity m.uid_validity) db)
          (record_sync-Stored w m keys validity batch))

    session-Stored :
        (password : Text) (db : Database) → Ensures P (session w m batch_size password db)
    unfolding session open_imap
    session-Stored password db =
        elim (Bool-cases (not (m.host == w.allowed_host) || not (m.port == 993))) [
          | inl denied ↦ rw denied tt
          | inr allowed ↦ rw allowed (
              Ensures-with_reply P (w.imap.connect m.host m.port) _ db λ _ _.
                Ensures-with_reply P (w.imap.login m.username password) _ db λ logged_in _.
                  elim (Bool-cases logged_in) [
                    | inr bad ↦ rw bad tt
                    | inl good ↦ rw good (
                        Ensures-with_reply P w.imap.select_readonly _ db λ selected _.
                          elim (Bool-cases selected) [
                            | inr bad ↦ rw bad tt
                            | inl good ↦
                                rw good (rw (announced, parsed) (search_and_fetch-Stored db))
                          ])
                  ])
        ]

    record_failure-Stored :
        (r : Result SyncError ℕ × Database) → Ensures P r → Ensures P (record_failure w m r)
    unfolding record_failure
    record_failure-Stored (ok n, db) h = h
    record_failure-Stored (err (code c), db) h =
        elim (Bool-cases (is_configuration_changed w m c)) [ inl e ↦ rw e tt | inr e ↦ rw e tt ]
    record_failure-Stored (err data_error, db) h = tt
    record_failure-Stored (err credential_error, db) h = tt

    with_password-Stored :
        (p : Option Text) (db : Database) → Ensures P (with_password w m batch_size p db)
    with_password-Stored none db = tt
    with_password-Stored (some p) db =
        record_failure-Stored (session w m batch_size p db) (session-Stored p db)

-- Where the other processes delete no message of the mailbox, a run of `sync_mailbox` that returns has
-- stored a message for every UID of its batch, under the UIDVALIDITY that the server announced.
pub sync_mailbox_complete :
    (w : World) (m : Mailbox)
    → KeepsKeys w m
    → (validity batch_size : ℕ) (items hits : List ImapItem) (db : Database) (n : ℕ)
    → w.imap.uidvalidity ≡ reply items
    → uidvalidity_of items ≡ some validity
    → w.imap.search_from_uid (starting_uid w m validity m.uid_validity + 1) ≡ reply (true, hits)
    → m.enabled ≡ true
    → (sync_mailbox w m batch_size db).0 ≡ ok n
    → All
        (λ uid. HasKey m.pk validity uid (sync_mailbox w m batch_size db).1.messages)
        (new_uids (starting_uid w m validity m.uid_validity) batch_size hits)
unfolding sync_mailbox
sync_mailbox_complete w m keys validity batch_size items hits db n announced parsed searched on h =
    Ensures-ok
      (λ d.
        All (λ uid. HasKey m.pk validity uid d.messages)
          (new_uids (starting_uid w m validity m.uid_validity) batch_size hits))
      (sync_mailbox w m batch_size db) n
      (rw on (
        with_password-Stored w m keys validity batch_size items hits announced parsed searched
          (w.decrypt_secret m.password_encrypted) db))
      h
