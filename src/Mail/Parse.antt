-- ===== src/Mail/Parse.antt =====
-- app/gateway/mail.py: `parse_message`, in the steps of its body.
pub mod Limits
use mailgate.Common.{
  length, take, is_empty, contains, Result, ok, err, ◌>>=◌, or_raise, Text, Bytes, codes, is_space,
  rstrip, strip, has_char, join, remove_char, splitlines, last_part, Unicode, ltb, leb,
  if◌then◌else◌, ◌==◌, nat_eq, list_eq, option_eq, Bool, not, ◌||◌, Option, none, some, List, [],
  ◌∷◌, ◌++◌, map,
}
use mailgate.Dkim.{verify_dkim}
use mailgate.Mail.{
  max_message_bytes, max_parts, max_text_chars, max_attachments, ParsedAttachment, ParsedMessage,
  MailError, unsafe, unexpected, Part, Email, Libraries,
}
use mailgate.Mail.Claims.{parse_authentication_results}
use mailgate.Mail.Injection.{has_prompt_injection_indicators}
use mailgate.Mail.Links.{find_links}
use mailgate.Mail.Sanitise.{safe_header, visible_controls, html_to_text}
use mailgate.Models.{
  Signal, mime_defect, unicode_controls_in_headers, attachment_present,
  attachment_content_not_inspected, dangerous_attachment, unknown_charset, text_truncated,
  unicode_controls, too_many_links, prompt_injection_suspected, message_too_large,
  too_many_mime_parts, too_many_attachments, Verification, signal_eq, state_eq, auth_eq,
}

-- `DANGEROUS_EXTENSIONS`
abbrev pub dangerous_extensions : List Text
dangerous_extensions = map codes (
    ".app" ∷ ".bat" ∷ ".cmd" ∷ ".com" ∷ ".cpl" ∷ ".exe" ∷ ".hta" ∷ ".js" ∷ ".jse" ∷ ".lnk" ∷ ".msi"
    ∷ ".ps1" ∷ ".scr" ∷ ".vbs" ∷ ".vbe" ∷ ".wsf" ∷ [])

abbrev pub dangerous_types : List Text
dangerous_types =
    map codes ("application/x-msdownload" ∷ "application/x-dosexec" ∷ "application/javascript" ∷ [])

abbrev pub first_sender : List (Text × Text) → Text × Text
first_sender [] = ([], [])
first_sender (a ∷ _) = a

-- The loops' state: `parsed.attachments`, `parsed.signals` and `text_parts`.
pub record PartState : Type 0 where
  pub attachments : List ParsedAttachment
  pub signals : List Signal
  pub text_parts : List Text

module _ (l : Libraries) where
  abbrev pub tables : Unicode
  tables = l.unicode

  abbrev pub hash_of : Text → Text
  hash_of [] = []
  hash_of (c ∷ s) = l.sha256 (l.utf8 (c ∷ s))

  -- `ParsedMessage(...)`, before controls are made visible
  unfoldable pub read_headers : List Text → Verification → Email → ParsedMessage
  unfolding safe_header parse_authentication_results
  read_headers trusted dkim e =
      let (name, address) = first_sender e.senders in
      record {
        sender = safe_header address 320;
        sender_name = safe_header name 320;
        recipients = map (λ r. safe_header r 320) (take 100 e.recipients);
        subject = safe_header e.subject 998;
        received_at = e.date;
        text = [];
        links = [];
        attachments = [];
        message_id_hash = hash_of (safe_header e.message_id 998);
        authentication = record {
          provider_claims = parse_authentication_results tables e.authentication_results trusted;
          independent_dkim = dkim;
        };
        signals = if e.has_defects then mime_defect ∷ [] else [];
      }

  abbrev pub flag_headers : Bool → List Signal → List Signal
  flag_headers found signals =
      if found then signals ++ unicode_controls_in_headers ∷ [] else signals

  abbrev pub visible_all : List Text → List Signal → List Text × List Signal
  visible_all [] signals = ([], signals)
  visible_all (r ∷ rs) signals =
      let (v, found) = visible_controls tables r in
      let (vs, signals') = visible_all rs (flag_headers found signals) in (v ∷ vs, signals')

  -- the loops over the fields and over the recipients
  unfoldable pub show_header_controls : ParsedMessage → ParsedMessage
  unfolding visible_controls
  show_header_controls p =
      let (sender, f1) = visible_controls tables p.sender in
      let (sender_name, f2) = visible_controls tables p.sender_name in
      let (subject, f3) = visible_controls tables p.subject in
      let (recipients, signals) =
        visible_all p.recipients (flag_headers f3 (flag_headers f2 (flag_headers f1 p.signals))) in
      record p {
        sender = sender;
        sender_name = sender_name;
        subject = subject;
        recipients = recipients;
        signals = signals;
      }

  -- `suffix`
  unfoldable pub suffix_of : Text → Text
  unfolding has_char last_part
  suffix_of filename =
      if has_char b'.' filename then codes "." ++ tables.lower (last_part b'.' filename) else []

  -- The inventory entry of a part; its content is only measured and hashed.
  unfoldable pub attachment_of : Text → Part → ParsedAttachment
  unfolding suffix_of
  attachment_of filename p =
      let content_type : Text = tables.lower p.content_type in
      record {
        filename = filename;
        content_type = content_type;
        size = length p.payload;
        sha256 = l.sha256 p.payload;
        dangerous =
            contains dangerous_extensions (suffix_of filename)
            || contains dangerous_types content_type;
      }

  abbrev pub attachment_signals : Bool → List Signal
  attachment_signals dangerous =
      attachment_present
      ∷ attachment_content_not_inspected
      ∷ (if dangerous then dangerous_attachment ∷ [] else [])

  unfoldable pub add_attachment : Text → Part → PartState → Result MailError PartState
  unfolding attachment_of
  add_attachment filename p s =
      let a : ParsedAttachment = attachment_of filename p in
      if leb max_attachments (length s.attachments)
      then err (unsafe too_many_attachments)
      else ok (record s {
        attachments = s.attachments ++ a ∷ [];
        signals = s.signals ++ attachment_signals a.dangerous;
      })

  abbrev pub shown_text : Part → Text → Text
  shown_text p value = if p.content_type == codes "text/html" then html_to_text l value else value

  abbrev pub decode_part : Part → Option Text → PartState → PartState
  decode_part p (some value) s = record s { text_parts = s.text_parts ++ shown_text p value ∷ [] }
  decode_part p none s = record s {
    text_parts = s.text_parts ++ shown_text p (l.decode_utf8 p.payload) ∷ [];
    signals = s.signals ++ unknown_charset ∷ [];
  }

  unfoldable pub add_text : Part → PartState → PartState
  unfolding html_to_text
  add_text p s =
      if contains (codes "text/plain" ∷ codes "text/html" ∷ []) p.content_type
      then decode_part p (l.decode p.charset p.payload) s
      else s

  -- the body of the loop over the parts
  unfoldable pub read_part : Part → PartState → Result MailError PartState
  unfolding add_attachment add_text safe_header
  read_part p s =
      let filename : Text = safe_header p.filename 255 in
      if p.is_multipart
      then ok s
      else if p.is_attachment || not (is_empty filename)
      then add_attachment filename p s
      else ok (add_text p s)

  unfoldable pub read_parts : List Part → PartState → Result MailError PartState
  unfolding read_part
  read_parts [] s = ok s
  read_parts (p ∷ ps) s = read_part p s >>= read_parts ps

  -- `"\n".join(line.rstrip() for line in text.replace("\r", "").splitlines()).strip()`
  unfoldable pub tidy : Text → Text
  unfolding strip splitlines remove_char is_space join
  tidy text =
      strip is_space (join (codes "\n") (map (rstrip is_space) (splitlines (remove_char 13 text))))

  -- the text: joined, cut, made visible, tidied
  unfoldable pub read_text : List Text → List Signal → Text × List Signal
  unfolding tidy visible_controls
  read_text text_parts signals =
      let joined : Text = join (codes "\n\n") text_parts in
      let long : Bool = ltb max_text_chars (length joined) in
      let cut : Text = if long then take max_text_chars joined else joined in
      let signals' : List Signal = if long then signals ++ text_truncated ∷ [] else signals in
      let (shown, found) = visible_controls tables cut in
      (tidy shown, if found then signals' ++ unicode_controls ∷ [] else signals')

  -- the rest of the body, once the parts are read
  unfoldable pub finish : ParsedMessage → PartState → ParsedMessage
  unfolding read_text find_links has_prompt_injection_indicators
  finish p s =
      let (text, signals) = read_text s.text_parts s.signals in
      let (links, stopped) = find_links l text in
      let signals' : List Signal = if stopped then signals ++ too_many_links ∷ [] else signals in
      let suspected : Bool =
        has_prompt_injection_indicators tables
          (p.sender ∷ p.sender_name ∷ p.subject ∷ text ∷ links) in
      record p {
        text = text;
        links = links;
        attachments = s.attachments;
        signals = if suspected then signals' ++ prompt_injection_suspected ∷ [] else signals';
      }

  unfoldable pub parse_email : List Text → Email → Verification → Result MailError ParsedMessage
  unfolding read_headers show_header_controls read_parts finish
  parse_email trusted e dkim =
      let p : ParsedMessage = show_header_controls (read_headers trusted dkim e) in
      if ltb max_parts (length e.parts)
      then err (unsafe too_many_mime_parts)
      else read_parts e.parts (record { attachments = []; signals = p.signals; text_parts = [] })
        >>= λ s. ok (finish p s)

  -- `parse_message`
  unfoldable pub parse_message : List Text → Bytes → Result MailError ParsedMessage
  unfolding parse_email verify_dkim
  parse_message trusted raw =
      let e : Email = l.parse_bytes raw in
      let dkim : Option Verification =
        (verify_dkim tables l.resolver l.clock (l.dkim_verifier raw) e.dkim_signatures).0 in
      if ltb max_message_bytes (length raw)
      then err (unsafe message_too_large)
      else or_raise dkim unexpected >>= parse_email trusted e
