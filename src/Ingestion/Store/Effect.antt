-- ===== src/Ingestion/Store/Effect.antt =====
-- What `_store_message` of app/gateway/ingestion.py does to the stored messages.
use mailgate.Common.{
  length, any, all, length-append, Result, ok, err, Bytes, Unicode, Bool-cases, ℕ, ◌+◌, ◌≡◌, refl,
  ◌⊎◌, inl, inr, Bool, true, false, ◌&&◌, [], ◌∷◌, ◌++◌, map,
}
use mailgate.Ingestion.{configuration_changed, SyncError, code, data_error, credential_error}
use mailgate.Ingestion.Store.{
  Processed, process_result, process, is_current, has_key, new_message, message_fits,
  attachment_fits, attachment_row, parsed_attachments, store_processed, store_message,
}
use mailgate.Mail.{ParsedMessage, MailError, unsafe, unexpected, Libraries}
use mailgate.Mail.Claims.{trusted_ids}
use mailgate.Mail.Parse.{parse_message}
use mailgate.Mail.Policy.Decisions.{assess-quarantined}
use mailgate.Models.{Signal, quarantined, Mailbox, Database}

process_result-state :
    (u : Unicode) (r : Result MailError ParsedMessage) → (process_result u r).state ≡ quarantined
process_result-state u (ok p) = (assess-quarantined p).0
process_result-state u (err (unsafe reason)) = refl
process_result-state u (err unexpected) = refl

-- Whatever the raw bytes are, their message is quarantined.
pub process-quarantined :
    (l : Libraries) (m : Mailbox) (content : Bytes ⊎ Signal)
    → (process l m content).state ≡ quarantined
unfolding process
process-quarantined l m (inl raw) =
    process_result-state l.unicode
      (parse_message l (trusted_ids l.unicode m.trusted_authserv_ids) raw)
process-quarantined l m (inr reason) = refl

-- The effect of the transaction on `db`, by its result.
module _ (now id pk version validity uid : ℕ) (r : Processed) (db : Database) where
  -- whether the new row and its attachments fit their columns
  abbrev pub row_fits : Bool
  row_fits =
      message_fits (new_message now id pk validity uid r)
      && all attachment_fits (parsed_attachments r.parsed)

  abbrev pub Effect : Result SyncError Bool × Database → Type 0
  Effect (err (code c), db') =
      (c ≡ configuration_changed) × (any (is_current pk version) db.mailboxes ≡ false) × (db' ≡ db)
  Effect (err data_error, db') =
      (any (is_current pk version) db.mailboxes ≡ true)
      × (any (has_key pk validity uid) db.messages ≡ false)
      × (row_fits ≡ false)
      × (db' ≡ db)
  Effect (err credential_error, db') = ⊥
  Effect (ok false, db') =
      (any (is_current pk version) db.mailboxes ≡ true)
      × (any (has_key pk validity uid) db.messages ≡ true)
      × (db' ≡ db)
  Effect (ok true, db') =
      (any (is_current pk version) db.mailboxes ≡ true)
      × (any (has_key pk validity uid) db.messages ≡ false)
      × (row_fits ≡ true)
      × (db'.messages ≡ db.messages ++ new_message now id pk validity uid r ∷ [])
      × (db'.attachments ≡ db.attachments ++ map (attachment_row id) (parsed_attachments r.parsed))
      × (db'.mailboxes ≡ db.mailboxes)
      × (length db'.events ≡ length db.events + 1)

  store_processed-Effect : Effect (store_processed now id pk version validity uid r db)
  unfolding store_processed
  store_processed-Effect = elim (Bool-cases (any (is_current pk version) db.mailboxes)) [
    | inr stale ↦ rw stale (refl, stale, refl)
    | inl current ↦ elim (Bool-cases (any (has_key pk validity uid) db.messages)) [
      | inl known ↦ rw (current, known) (current, known, refl)
      | inr new ↦ elim (Bool-cases row_fits) [
        | inr long ↦ rw (current, new, long) (current, new, long, refl)
        | inl short ↦
            rw (current, new, short)
              (current, new, short, refl, refl, refl, length-append db.events _)
      ]
    ]
  ]

-- `_store_message` on `db`, by its result: it raises `configuration_changed` exactly where no enabled
-- mailbox row has the key and the version that the run started with; a message that is
-- there already is left as it is; and where the new row or one of its attachments is wider than its
-- columns, the database refuses it. All three leave the database as it is. Otherwise, and only then, the
-- message is appended with its attachments and one audit event, and it is quarantined.
pub store_message-Effect :
    (l : Libraries) (now id : ℕ) (m : Mailbox) (validity uid : ℕ) (content : Bytes ⊎ Signal)
    (version : ℕ) (db : Database)
    → Effect now id m.pk version validity uid
        (process l m content)
        db
        (store_message l now id m validity uid content version db)
      × ((process l m content).state ≡ quarantined)
unfolding store_message
store_message-Effect l now id m validity uid content version db = (
  store_processed-Effect now id m.pk version validity uid (process l m content) db,
  process-quarantined l m content,
)
