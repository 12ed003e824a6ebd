-- ===== src/Ingestion/Sync/Messages.antt =====
-- What a run of `sync_mailbox` of app/gateway/ingestion.py can do to the stored messages.
use mailgate.Common.{
  length, any, filter, Result, ok, err, Text, Bytes, ltb, if-split, Bool-cases, ◌==◌, nat_eq,
  list_eq, option_eq, ℕ, ◌+◌, max, ◌≡◌, ◌⊎◌, inl, inr, Bool, true, false, not, ◌||◌, Option, none,
  some, List, [], ◌∷◌, ◌++◌,
}
use mailgate.Ingestion.{
  egress_policy_denied, configuration_changed, SyncError, code, data_error, credential_error, Reply,
  broken, reply, response_bytes, uidvalidity_of, message_size, new_uids,
}
use mailgate.Ingestion.Store.{Processed, process, is_current, has_key, new_message}
use mailgate.Ingestion.Store.Effect.{Effect, store_message-Effect}
use mailgate.Ingestion.Sync.{
  World, Run, continue, with_reply, fails_with, open_imap, store_uid, store_body, fetch_sized,
  fetch_one, count, fetch_all, record_sync, starting_uid, search_and_fetch, with_validity, session,
  is_configuration_changed, record_failure, with_password, sync_mailbox,
}
use mailgate.Mail.{max_message_bytes}
use mailgate.Models.{
  Signal, message_too_large, quarantined, Mailbox, Message, Database, signal_eq, state_eq, auth_eq,
}

-- A property of the messages that ingestion keeps: adding a quarantined message with a new key keeps
-- it, and so does what other processes do.
pub record IsKept (w : World) (Q : List Message → Type 0) : Type 0 where
  pub adding :
      (msgs : List Message) (x : Message)
      → Q msgs
      → x.state ≡ quarantined
      → any (has_key x.mailbox x.uid_validity x.uid) msgs ≡ false
      → Q (msgs ++ x ∷ [])
  pub by_others : (uid : ℕ) (db : Database) → Q db.messages → Q (w.others uid db).messages
  pub by_others_at_end : (db : Database) → Q db.messages → Q (w.others_at_end db).messages

module _ (w : World) (m : Mailbox) (Q : List Message → Type 0) (kept : IsKept w Q) where
  -- A result whose database has the property.
  abbrev pub Keeps : {A : Type 0} → Result SyncError A × Database → Type 0
  Keeps r = Q r.1.messages

  Keeps-Effect :
      (now id pk version validity uid : ℕ) (r : Processed) (db : Database)
      (res : Result SyncError Bool × Database)
      → r.state ≡ quarantined
      → Effect now id pk version validity uid r db res
      → Q db.messages
      → Keeps res
  unfolding new_message
  Keeps-Effect now id pk version validity uid r db (err (code c), db') q (_, _, e) h = rw e h
  Keeps-Effect now id pk version validity uid r db (err data_error, db') q (_, _, _, e) h = rw e h
  Keeps-Effect now id pk version validity uid r db (err credential_error, db') q e h = elim e [ ]
  Keeps-Effect now id pk version validity uid r db (ok false, db') q (_, _, e) h = rw e h
  Keeps-Effect now id pk version validity uid r db (ok true, db') q (_, new, _, e, _, _, _) h =
      rw e (kept.adding db.messages (new_message now id pk validity uid r) h q new)

  Keeps-store_uid :
      (validity uid : ℕ) (content : Bytes ⊎ Signal) (db : Database)
      → Q db.messages
      → Keeps (store_uid w m validity uid content db)
  unfolding store_uid
  Keeps-store_uid validity uid content db h =
      let seen : Database = w.others uid db in
      let (effect, q) =
        store_message-Effect w.libraries (w.now uid) (w.new_id uid) m validity uid content
          m.config_version seen in
      Keeps-Effect (w.now uid) (w.new_id uid) m.pk m.config_version validity uid
        (process w.libraries m content) seen _ q effect (kept.by_others uid db h)

  module _ {A B : Type 0} where
    Keeps-continue :
        (r : Result SyncError A × Database) (k : A → Run B)
        → Keeps r
        → ((a : A) (db : Database) → Q db.messages → Keeps (k a db))
        → Keeps (continue r k)
    Keeps-continue (ok a, db) k h g = g a db h
    Keeps-continue (err e, db) k h g = h

    Keeps-with_reply :
        (r : Reply A) (k : A → Run B) (db : Database)
        → Q db.messages
        → ((a : A) → Keeps (k a db))
        → Keeps (with_reply r k db)
    Keeps-with_reply broken k db h g = h
    Keeps-with_reply (reply a) k db h g = g a

  Keeps-store_body :
      (validity uid : ℕ) (okay : Bool) (raw : Bytes) (db : Database)
      → Q db.messages
      → Keeps (store_body w m validity uid okay raw db)
  Keeps-store_body validity uid false raw db h = h
  Keeps-store_body validity uid true [] db h = h
  Keeps-store_body validity uid true (b ∷ raw) db h =
      Keeps-store_uid validity uid (inl (b ∷ raw)) db h

  Keeps-fetch_sized :
      (validity uid : ℕ) (okay : Bool) (size : Option ℕ) (db : Database)
      → Q db.messages
      → Keeps (fetch_sized w m validity uid okay size db)
  Keeps-fetch_sized validity uid false size db h = h
  Keeps-fetch_sized validity uid true none db h = h
  Keeps-fetch_sized validity uid true (some size) db h =
      elim (Bool-cases (ltb max_message_bytes size)) [
        | inl large ↦ rw large (Keeps-store_uid validity uid (inr message_too_large) db h)
        | inr small ↦ rw small (
            Keeps-with_reply (w.imap.fetch_peek uid) _ db h
              (λ r. Keeps-store_body validity uid r.0 (response_bytes r.1) db h))
      ]

  Keeps-fetch_one :
      (validity uid : ℕ) (db : Database) → Q db.messages → Keeps (fetch_one w m validity uid db)
  unfolding fetch_one
  Keeps-fetch_one validity uid db h =
      Keeps-with_reply (w.imap.fetch_size uid) _ db h
        (λ r. Keeps-fetch_sized validity uid r.0 (message_size r.1) db h)

  pub Keeps-fetch_all :
      (validity : ℕ) (uids : List ℕ) (created last : ℕ) (db : Database)
      → Q db.messages
      → Keeps (fetch_all w m validity uids created last db)
  unfolding fetch_all
  Keeps-fetch_all validity [] created last db h = h
  Keeps-fetch_all validity (uid ∷ uids) created last db h =
      Keeps-continue (fetch_one w m validity uid db) _ (Keeps-fetch_one validity uid db h)
        (λ b db' k. Keeps-fetch_all validity uids (created + count w m b) (max last uid) db' k)

  Keeps-record_sync :
      (validity : ℕ) (found : ℕ × ℕ) (db : Database)
      → Q db.messages
      → Keeps (record_sync w m validity found db)
  unfolding record_sync
  Keeps-record_sync validity (created, last) db h =
      if-split Keeps
        (length (filter (is_current m.pk m.config_version) (w.others_at_end db).mailboxes) == 1)
        (ok created, _) (err (code configuration_changed), _) (λ _. kept.by_others_at_end db h)
        (λ _. kept.by_others_at_end db h)

  Keeps-search_and_fetch :
      (batch_size validity last : ℕ) (db : Database)
      → Q db.messages
      → Keeps (search_and_fetch w m batch_size validity last db)
  Keeps-search_and_fetch batch_size validity last db h =
      Keeps-with_reply (w.imap.search_from_uid (last + 1)) _ db h λ (okay, items).
        elim (Bool-cases okay) [
          | inr bad ↦ rw bad h
          | inl good ↦ rw good (
              Keeps-continue (fetch_all w m validity (new_uids last batch_size items) 0 last db)
                (record_sync w m validity)
                (Keeps-fetch_all validity (new_uids last batch_size items) 0 last db h)
                (Keeps-record_sync validity))
        ]

  Keeps-with_validity :
      (batch_size : ℕ) (found : Option ℕ) (db : Database)
      → Q db.messages
      → Keeps (with_validity w m batch_size found db)
  Keeps-with_validity batch_size none db h = h
  Keeps-with_validity batch_size (some validity) db h =
      Keeps-search_and_fetch batch_size validity (starting_uid w m validity m.uid_validity) db h

  Keeps-open_imap :
      {B : Type 0} (k : Run B) (db : Database)
      → Q db.messages
      → Keeps (k db)
      → Keeps (open_imap w m k db)
  unfolding open_imap
  Keeps-open_imap k db h g =
      if-split Keeps (not (m.host == w.allowed_host) || not (m.port == 993))
        (fails_with egress_policy_denied db) (with_reply (w.imap.connect m.host m.port) (λ _. k) db)
        (λ _. h) (λ _. Keeps-with_reply (w.imap.connect m.host m.port) (λ _. k) db h (λ _. g))

  Keeps-session :
      (batch_size : ℕ) (password : Text) (db : Database)
      → Q db.messages
      → Keeps (session w m batch_size password db)
  unfolding session
  Keeps-session batch_size password db h = Keeps-open_imap _ db h (
      Keeps-with_reply (w.imap.login m.username password) _ db h λ logged_in.
        elim (Bool-cases logged_in) [
          | inr bad ↦ rw bad h
          | inl good ↦ rw good (
              Keeps-with_reply w.imap.select_readonly _ db h λ selected.
                elim (Bool-cases selected) [
                  | inr bad ↦ rw bad h
                  | inl good ↦ rw good (
                      Keeps-with_reply w.imap.uidvalidity _ db h
                        (λ items. Keeps-with_validity batch_size (uidvalidity_of items) db h))
                ])
        ])

  Keeps-record_failure :
      (r : Result SyncError ℕ × Database) → Keeps r → Keeps (record_failure w m r)
  unfolding record_failure
  Keeps-record_failure (ok n, db) h = h
  Keeps-record_failure (err (code c), db) h = elim (Bool-cases (is_configuration_changed w m c)) [
    | inl e ↦ rw e h
    | inr e ↦ rw e h
  ]
  Keeps-record_failure (err data_error, db) h = h
  Keeps-record_failure (err credential_error, db) h = h

  Keeps-with_password :
      (batch_size : ℕ) (p : Option Text) (db : Database)
      → Q db.messages
      → Keeps (with_password w m batch_size p db)
  Keeps-with_password batch_size none db h = h
  Keeps-with_password batch_size (some p) db h =
      Keeps-record_failure (session w m batch_size p db) (Keeps-session batch_size p db h)

  pub Keeps-sync_mailbox :
      (batch_size : ℕ) (db : Database) → Q db.messages → Keeps (sync_mailbox w m batch_size db)
  unfolding sync_mailbox
  Keeps-sync_mailbox batch_size db h = elim (Bool-cases m.enabled) [
    | inl on ↦ rw on (Keeps-with_password batch_size (w.decrypt_secret m.password_encrypted) db h)
    | inr off ↦ rw off h
  ]
