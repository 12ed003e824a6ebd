-- ===== src/Ingestion/Store.antt =====
-- app/gateway/ingestion.py: `_store_message`.
pub mod Effect
pub mod Oversized
use mailgate.Common.{
  length, any, all, Result, ok, err, Text, Bytes, codes, Unicode, leb, if◌then◌else◌, ◌==◌, nat_eq,
  list_eq, option_eq, ℕ, ◌⊎◌, inl, inr, Bool, true, false, not, ◌&&◌, Option, none, some, List, [],
  ◌∷◌, ◌++◌, map,
}
use mailgate.Ingestion.{configuration_changed, SyncError, code, data_error}
use mailgate.Mail.{ParsedAttachment, ParsedMessage, MailError, unsafe, unexpected, Libraries}
use mailgate.Mail.Claims.{trusted_ids}
use mailgate.Mail.Parse.{parse_message}
use mailgate.Mail.Policy.{Classification, classify, Assessment, assess}
use mailgate.Models.{
  Signal, processing_error, signals, State, quarantined, approved, rejected, Risk, low, medium,
  high, Mailbox, Message, Attachment, Database, audit, signal_eq, state_eq, auth_eq,
}

-- What becomes of the raw bytes: the variables that the `try` statement sets.
pub record Processed : Type 0 where
  pub parsed : Option ParsedMessage
  pub risk : Risk
  pub state : State
  pub reasons : List Signal
  pub category : Text
  pub priority : ℕ
  pub summary : Text

abbrev pub process_ok : Unicode → ParsedMessage → Processed
process_ok u p =
    let a : Assessment = assess p in
    let c : Classification = classify u p in
    record {
      parsed = some p;
      risk = a.risk;
      state = a.state;
      reasons = a.reasons;
      category = c.category;
      priority = c.priority;
      summary = c.summary;
    }

abbrev pub process_failed : Signal → Text → Processed
process_failed reason summary = record {
  parsed = none;
  risk = high;
  state = quarantined;
  reasons = reason ∷ [];
  category = codes "unsafe";
  priority = 1;
  summary = summary;
}

abbrev pub process_result : Unicode → Result MailError ParsedMessage → Processed
process_result u (ok p) = process_ok u p
process_result u (err (unsafe reason)) =
    process_failed reason (codes "Message quarantined because safe parsing failed")
process_result u (err unexpected) =
    process_failed processing_error (codes "Message quarantined because processing failed")

-- The `try` statement: the raw bytes, or the reason for which they were not fetched.
unfoldable pub process : Libraries → Mailbox → Bytes ⊎ Signal → Processed
unfolding parse_message assess classify trusted_ids
process l mailbox (inl raw) =
    process_result l.unicode
      (parse_message l (trusted_ids l.unicode mailbox.trusted_authserv_ids) raw)
process l mailbox (inr reason) = process_result l.unicode (err (unsafe reason))

-- The row that the filter `pk=…, enabled=True, config_version=…` finds.
abbrev pub is_current : ℕ → ℕ → Mailbox → Bool
is_current pk version m = m.pk == pk && m.enabled && m.config_version == version

abbrev pub has_key : ℕ → ℕ → ℕ → Message → Bool
has_key pk validity uid m = m.mailbox == pk && m.uid_validity == validity && m.uid == uid

abbrev pub field_of {ℓ} : {A : Type ℓ} → A → (ParsedMessage → A) → Option ParsedMessage → A
field_of d f none = d
field_of d f (some p) = f p

-- The row that `get_or_create` makes; `now` is the time, `id` the new key.
unfoldable pub new_message : ℕ → ℕ → ℕ → ℕ → ℕ → Processed → Message
new_message now id pk validity uid r = record {
  id = id;
  mailbox = pk;
  uid_validity = validity;
  uid = uid;
  message_id_hash = field_of [] (λ p. p.message_id_hash) r.parsed;
  sender = field_of [] (λ p. p.sender) r.parsed;
  sender_name = field_of [] (λ p. p.sender_name) r.parsed;
  recipients = field_of [] (λ p. p.recipients) r.parsed;
  subject = field_of [] (λ p. p.subject) r.parsed;
  received_at = field_of none (λ p. p.received_at) r.parsed;
  sanitized_text = field_of [] (λ p. p.text) r.parsed;
  links = field_of [] (λ p. p.links) r.parsed;
  authentication = field_of none (λ p. some p.authentication) r.parsed;
  signals = r.reasons;
  risk = r.risk;
  category = r.category;
  priority = r.priority;
  summary = r.summary;
  state = r.state;
  ingested_at = now;
  decided_at = some now;
}

-- The `max_length` of the columns of `Message`, which the database enforces.
unfoldable pub message_fits : Message → Bool
message_fits m =
    leb (length m.sender) 320
    && leb (length m.sender_name) 320
    && leb (length m.subject) 998
    && leb (length m.message_id_hash) 64
    && leb (length m.category) 80

abbrev pub attachment_fits : ParsedAttachment → Bool
attachment_fits a =
    leb (length a.filename) 255 && leb (length a.content_type) 255 && leb (length a.sha256) 64

abbrev pub attachment_row : ℕ → ParsedAttachment → Attachment
attachment_row id a = record {
  message = id;
  filename = a.filename;
  content_type = a.content_type;
  size = a.size;
  sha256 = a.sha256;
  dangerous = a.dangerous;
}

abbrev pub state_text : State → Text
state_text quarantined = codes "quarantined"
state_text approved = codes "approved"
state_text rejected = codes "rejected"

abbrev pub risk_text : Risk → Text
risk_text low = codes "low"
risk_text medium = codes "medium"
risk_text high = codes "high"

abbrev pub parsed_attachments : Option ParsedMessage → List ParsedAttachment
parsed_attachments = field_of [] (λ p. p.attachments)

-- the branch `created`: the row, its attachments and the audit event
unfoldable pub create_message : ℕ → Message → List ParsedAttachment → Database → Database
unfolding audit
create_message now m attachments db =
    audit now (codes "worker") (codes "message.ingested") (some (codes "Message", m.id))
      ((codes "state", state_text m.state) ∷ (codes "risk", risk_text m.risk) ∷ [])
      (record db {
        messages = db.messages ++ m ∷ [];
        attachments = db.attachments ++ map (attachment_row m.id) attachments;
      })

-- The transaction of `_store_message`: an error leaves the database as it was.
unfoldable pub store_processed :
    ℕ → ℕ → ℕ → ℕ → ℕ → ℕ → Processed → Database → Result SyncError Bool × Database
unfolding new_message message_fits create_message
store_processed now id pk version validity uid r db =
    let m : Message = new_message now id pk validity uid r in
    if not (any (is_current pk version) db.mailboxes)
    then (err (code configuration_changed), db)
    else if any (has_key pk validity uid) db.messages
    then (ok false, db)
    else if not (message_fits m && all attachment_fits (parsed_attachments r.parsed))
    then (err data_error, db)
    else (ok true, create_message now m (parsed_attachments r.parsed) db)

-- `_store_message`
unfoldable pub store_message :
    Libraries
    → ℕ
    → ℕ
    → Mailbox
    → ℕ
    → ℕ
    → Bytes ⊎ Signal
    → ℕ
    → Database
    → Result SyncError Bool × Database
unfolding process store_processed
store_message l now id mailbox validity uid content version db =
    store_processed now id mailbox.pk version validity uid (process l mailbox content) db
