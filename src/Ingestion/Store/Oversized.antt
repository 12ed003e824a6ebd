-- ===== src/Ingestion/Store/Oversized.antt =====
-- `_store_message` of app/gateway/ingestion.py on a message whose sender's name is of hidden
-- characters: they are cut to the width of the column before they are spelled out.
use mailgate.Common.{
  length, any, All, ok, err, or_raise, Ensures, Ensures-bind, Ensures-any, Text, Bytes, ltb,
  if-split, ℕ, ◌≤◌, ◌<◌, ◌≡◌, refl, ap, ◌∙◌, inl, true, false, List, [], arith,
}
use mailgate.Ingestion.{data_error}
use mailgate.Ingestion.Store.{
  process_ok, process, is_current, has_key, new_message, message_fits, store_processed,
  store_message,
}
use mailgate.Mail.{max_message_bytes, max_parts, ParsedMessage, unexpected, Email, Libraries}
use mailgate.Mail.Claims.{trusted_ids}
use mailgate.Mail.Parse.{
  first_sender, PartState, tables, read_headers, show_header_controls, read_parts, finish,
  parse_email, parse_message,
}
use mailgate.Mail.Sanitise.{safe_header, visible_controls}
use mailgate.Mail.Sanitise.Visible.{IsHidden, length-visible_controls}
use mailgate.Models.{Verification, Mailbox, Database}

module _ (l : Libraries) where
  -- The sender's name that the headers give, cut.
  abbrev pub sender_name_of : Email → Text
  sender_name_of e = safe_header (first_sender e.senders).0 320

  abbrev HasName : Email → ParsedMessage → Type 0
  HasName e p = p.sender_name ≡ (visible_controls (tables l) (sender_name_of e)).0

  finish-name : (p : ParsedMessage) (s : PartState) → (finish l p s).sender_name ≡ p.sender_name
  unfolding finish
  finish-name p s = refl

  shown-name :
      (trusted : List Text) (dkim : Verification) (e : Email)
      → HasName e (show_header_controls l (read_headers l trusted dkim e))
  unfolding show_header_controls read_headers
  shown-name trusted dkim e = refl

  parse_email-name :
      (trusted : List Text) (e : Email) (dkim : Verification)
      → Ensures (HasName e) (parse_email l trusted e dkim)
  unfolding parse_email
  parse_email-name trusted e dkim =
      let p : ParsedMessage = show_header_controls l (read_headers l trusted dkim e) in
      let start : PartState = record { attachments = []; signals = p.signals; text_parts = [] } in
      if-split (Ensures (HasName e)) (ltb max_parts (length e.parts)) (err _) _ (λ _. tt)
        (λ _.
          Ensures-bind (λ _. Unit {0}) (HasName e) (read_parts l e.parts start)
            (λ s. ok (finish l p s)) (Ensures-any _)
            (λ s _. finish-name p s ∙ shown-name trusted dkim e))

  parse_message-name :
      (trusted : List Text) (raw : Bytes)
      → Ensures (HasName (l.parse_bytes raw)) (parse_message l trusted raw)
  unfolding parse_message
  parse_message-name trusted raw =
      if-split (Ensures (HasName (l.parse_bytes raw))) (ltb max_message_bytes (length raw)) (err _)
        _ (λ _. tt)
        (λ _.
          Ensures-bind (λ _. Unit {0}) (HasName (l.parse_bytes raw)) (or_raise _ unexpected)
            (parse_email l trusted (l.parse_bytes raw)) (Ensures-any _)
            (λ dkim _. parse_email-name trusted (l.parse_bytes raw) dkim))

  wide_name :
      (now id pk validity uid : ℕ) (p : ParsedMessage)
      → 320 < length p.sender_name
      → message_fits (new_message now id pk validity uid (process_ok l.unicode p)) ≡ false
  unfolding message_fits new_message
  wide_name now id pk validity uid p h = ground arith

-- A message with a sender's name of thirty or more hidden characters that `parse_message` accepts is
-- not stored, although the parser cuts the name to the 320 characters of its column: spelled out, it
-- is too long, and the database refuses the row with an error.
pub store_message-oversized :
    (l : Libraries) (now id : ℕ) (m : Mailbox) (validity uid : ℕ) (raw : Bytes) (version : ℕ)
    (db : Database) (p : ParsedMessage)
    → parse_message l (trusted_ids l.unicode m.trusted_authserv_ids) raw ≡ ok p
    → All (IsHidden l.unicode) (sender_name_of l (l.parse_bytes raw))
    → 30 ≤ length (sender_name_of l (l.parse_bytes raw))
    → any (is_current m.pk version) db.mailboxes ≡ true
    → any (has_key m.pk validity uid) db.messages ≡ false
    → store_message l now id m validity uid (inl raw) version db ≡ (err data_error, db)
unfolding store_message process store_processed
store_message-oversized l now id m validity uid raw version db p parsed hidden long current new =
    let name : HasName l (l.parse_bytes raw) p =
      rw parsed at (parse_message-name l (trusted_ids l.unicode m.trusted_authserv_ids) raw) in
    let wide = length-visible_controls l.unicode (sender_name_of l (l.parse_bytes raw)) hidden in
    let refused = wide_name l now id m.pk validity uid p (omega (arith, ap length name)) in
    rw (current, new, parsed, refused) refl
