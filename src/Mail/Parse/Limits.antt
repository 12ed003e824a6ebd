-- ===== src/Mail/Parse/Limits.antt =====
-- What `parse_message` of app/gateway/mail.py guarantees about a message that it returns.
use mailgate.Common.{
  length, take, is_empty, any, length-append, contains, contains-append, ok, err, or_raise, Ensures,
  Ensures-bind, Ensures-map, Ensures-any, Text, Bytes, codes, join, ltb, leb, if◌then◌else◌,
  if-split, ltb-false, leb-false, nat_eq, list_eq, option_eq, ◌≤◌, ◌≡◌, refl, ◌∙◌, inl, Bool, true,
  false, not, ◌||◌, Option, none, some, List, [], ◌∷◌, ◌++◌, arith,
}
use mailgate.Mail.{
  max_message_bytes, max_parts, max_text_chars, max_attachments, max_links, ParsedAttachment,
  ParsedMessage, unexpected, Part, Email, Libraries,
}
use mailgate.Mail.Injection.{has_prompt_injection_indicators}
use mailgate.Mail.Links.{find_links}
use mailgate.Mail.Links.Bounds.{AreLinks, find_links-AreCollected}
use mailgate.Mail.Parse.{
  PartState, tables, read_headers, show_header_controls, attachment_of, attachment_signals,
  add_attachment, decode_part, add_text, read_part, read_parts, read_text, finish, parse_email,
  parse_message,
}
use mailgate.Mail.Policy.{assess}
use mailgate.Mail.Policy.Decisions.{assess-quarantined, assess-high_iff}
use mailgate.Mail.Sanitise.{safe_header, visible_controls}
use mailgate.Models.{
  Signal, dangerous_attachment, unknown_charset, text_truncated, unicode_controls, too_many_links,
  prompt_injection_suspected, signals, quarantined, high, Verification, signal_eq, state_eq,
  auth_eq,
}

-- Every attachment that is marked dangerous has left its signal.
abbrev pub IsFlagged : List ParsedAttachment → List Signal → Type 0
IsFlagged attachments signals =
    any (λ a. a.dangerous) attachments ≡ true → contains signals dangerous_attachment ≡ true

any-append :
    (xs : List ParsedAttachment) (a : ParsedAttachment)
    → any (λ b. b.dangerous) (xs ++ a ∷ []) ≡ any (λ b. b.dangerous) xs || a.dangerous
any-append [] a = ground arith
any-append (x ∷ xs) a = ground (arith, any-append xs a)

record IsCounted (s : PartState) : Type 0 where
  few : length s.attachments ≤ max_attachments
  flagged : IsFlagged s.attachments s.signals

contains-flag_if :
    (b : Bool) (signals : List Signal) (x s : Signal)
    → contains signals s ≡ true
    → contains (if b then signals ++ x ∷ [] else signals) s ≡ true
contains-flag_if true signals x s h = contains-append signals (x ∷ []) s ∙ rw h refl
contains-flag_if false signals x s h = h

module _ (l : Libraries) where
  IsFlagged-add :
      (xs : List ParsedAttachment) (a : ParsedAttachment) (signals : List Signal)
      → IsFlagged xs signals
      → IsFlagged (xs ++ a ∷ []) (signals ++ attachment_signals l a.dangerous)
  IsFlagged-add xs a signals f h =
      contains-append signals (attachment_signals l a.dangerous) dangerous_attachment
      ∙ either _ _ _ _ f (any-append xs a) h (flag a.dangerous)
    where
      flag : (d : Bool) → d ≡ true → contains (attachment_signals l d) dangerous_attachment ≡ true
      flag true h = refl
      flag false h = cc

      either :
          (x y z w : Bool) {v : Bool}
          → (x ≡ true → z ≡ true)
          → v ≡ x || y
          → v ≡ true
          → (y ≡ true → w ≡ true)
          → z || w ≡ true
      either true y z w f e h g = rw (f refl) refl
      either false true z w f e h g = rw (g refl) ground arith
      either false false z w f e h g = cc

  add_attachment-IsCounted :
      (filename : Text) (p : Part) (s : PartState)
      → IsCounted s
      → Ensures IsCounted (add_attachment l filename p s)
  unfolding add_attachment
  add_attachment-IsCounted filename p s c =
      let a : ParsedAttachment = attachment_of l filename p in
      if-split (Ensures IsCounted) (leb max_attachments (length s.attachments)) (err _) (ok _)
        (λ _. tt)
        (λ room. record {
          few = omega (arith, length-append s.attachments (a ∷ []), leb-false _ _ room);
          flagged = IsFlagged-add s.attachments a s.signals c.flagged;
        })

  add_text-IsCounted : (p : Part) (s : PartState) → IsCounted s → IsCounted (add_text l p s)
  unfolding add_text
  add_text-IsCounted p s c =
      if-split IsCounted (contains (codes "text/plain" ∷ codes "text/html" ∷ []) p.content_type)
        (decode_part l p (l.decode p.charset p.payload) s) s
        (λ _. decoded (l.decode p.charset p.payload)) (λ _. c)
    where
      decoded : (value : Option Text) → IsCounted (decode_part l p value s)
      decoded (some value) = record { few = c.few; flagged = c.flagged }
      decoded none = record {
        few = c.few;
        flagged = λ h.
            contains-append s.signals (unknown_charset ∷ []) dangerous_attachment
            ∙ rw (c.flagged h) refl;
      }

  read_part-IsCounted :
      (p : Part) (s : PartState) → IsCounted s → Ensures IsCounted (read_part l p s)
  unfolding read_part
  read_part-IsCounted p s c =
      let filename : Text = safe_header p.filename 255 in
      if-split (Ensures IsCounted) p.is_multipart (ok s) _ (λ _. c)
        (λ _.
          if-split (Ensures IsCounted) (p.is_attachment || not (is_empty filename))
            (add_attachment l filename p s) (ok (add_text l p s))
            (λ _. add_attachment-IsCounted filename p s c) (λ _. add_text-IsCounted p s c))

  read_parts-IsCounted :
      (ps : List Part) (s : PartState) → IsCounted s → Ensures IsCounted (read_parts l ps s)
  unfolding read_parts
  read_parts-IsCounted [] s c = c
  read_parts-IsCounted (p ∷ ps) s c =
      Ensures-bind IsCounted IsCounted (read_part l p s) (read_parts l ps)
        (read_part-IsCounted p s c) (read_parts-IsCounted ps)

  read_text-keeps :
      (texts : List Text) (signals : List Signal) (s : Signal)
      → contains signals s ≡ true
      → contains (read_text l texts signals).1 s ≡ true
  unfolding read_text
  read_text-keeps texts signals s h =
      let joined : Text = join (codes "\n\n") texts in
      let long : Bool = ltb max_text_chars (length joined) in
      let cut : Text = if long then take max_text_chars joined else joined in
      let found : Bool = (visible_controls (tables l) cut).1 in
      contains-flag_if found (if long then signals ++ text_truncated ∷ [] else signals)
        unicode_controls s (contains-flag_if long signals text_truncated s h)

  -- What holds of a message that `parse_message` returns.
  abbrev pub IsBounded : ParsedMessage → Type 0
  IsBounded p =
      (length p.attachments ≤ max_attachments)
      × (length p.links ≤ max_links)
      × AreLinks p.links
      × IsFlagged p.attachments p.signals

  finish-IsBounded : (p : ParsedMessage) (s : PartState) → IsCounted s → IsBounded (finish l p s)
  unfolding finish
  finish-IsBounded p s c =
      let read = read_text l s.text_parts s.signals in
      let (text, signals) = read in
      let found = find_links l text in
      let (links, stopped) = found in
      let (good, few, flag) = find_links-AreCollected l text in
      let signals' : List Signal = if stopped then signals ++ too_many_links ∷ [] else signals in
      let suspected : Bool =
        has_prompt_injection_indicators (tables l)
          (p.sender ∷ p.sender_name ∷ p.subject ∷ text ∷ links) in
      (
        c.few,
        few,
        good,
        λ h. contains-flag_if suspected signals' prompt_injection_suspected dangerous_attachment (
            contains-flag_if stopped signals too_many_links dangerous_attachment
              (read_text-keeps s.text_parts s.signals dangerous_attachment (c.flagged h))),
      )

  parse_email-IsBounded :
      (trusted : List Text) (e : Email) (dkim : Verification)
      → Ensures (λ p. IsBounded p × (length e.parts ≤ max_parts)) (parse_email l trusted e dkim)
  unfolding parse_email
  parse_email-IsBounded trusted e dkim =
      let p : ParsedMessage = show_header_controls l (read_headers l trusted dkim e) in
      let start : PartState = record { attachments = []; signals = p.signals; text_parts = [] } in
      if-split (Ensures _) (ltb max_parts (length e.parts)) (err _) _ (λ _. tt)
        (λ few.
          Ensures-bind IsCounted _ (read_parts l e.parts start) (λ s. ok (finish l p s))
            (read_parts-IsCounted e.parts start (record { few = omega arith; flagged = λ h. cc }))
            (λ s c. (finish-IsBounded p s c, ltb-false _ _ few)))

  parse_message-Ensures :
      (trusted : List Text) (raw : Bytes)
      → Ensures
          (λ p.
            IsBounded p
            × (length (l.parse_bytes raw).parts ≤ max_parts)
            × (length raw ≤ max_message_bytes))
          (parse_message l trusted raw)
  unfolding parse_message
  parse_message-Ensures trusted raw =
      if-split (Ensures _) (ltb max_message_bytes (length raw)) (err _) _ (λ _. tt)
        (λ small.
          Ensures-bind (λ _. Unit {0}) _ (or_raise _ unexpected)
            (parse_email l trusted (l.parse_bytes raw)) (Ensures-any _)
            (λ dkim _.
              Ensures-map (λ p. IsBounded p × (length (l.parse_bytes raw).parts ≤ max_parts)) _
                (parse_email l trusted (l.parse_bytes raw) dkim)
                (λ p h. (h.0, h.1, ltb-false _ _ small))
                (parse_email-IsBounded trusted (l.parse_bytes raw) dkim)))

-- A message that `parse_message` returns was at most 10 MiB long and had at most 100 parts; it has at
-- most 25 attachments, and at most 100 different links of 1 to 2048 characters; and if one of its
-- attachments is marked dangerous, then its signals say so.
pub parse_message-IsBounded :
    (l : Libraries) (trusted : List Text) (raw : Bytes) (p : ParsedMessage)
    → parse_message l trusted raw ≡ ok p
    → IsBounded l p
      × (length (l.parse_bytes raw).parts ≤ max_parts)
      × (length raw ≤ max_message_bytes)
parse_message-IsBounded l trusted raw p h = rw h at (parse_message-Ensures l trusted raw)

-- A message with a dangerous attachment that `parse_message` returns is of high risk, and is
-- quarantined.
pub parse_message-assess-dangerous :
    (l : Libraries) (trusted : List Text) (raw : Bytes) (p : ParsedMessage)
    → parse_message l trusted raw ≡ ok p
    → any (λ a. a.dangerous) p.attachments ≡ true
    → ((assess p).risk ≡ high) × ((assess p).state ≡ quarantined)
parse_message-assess-dangerous l trusted raw p h k =
    let ((few, links, good, flagged), parts, small) = parse_message-IsBounded l trusted raw p h in
    ((assess-high_iff p).1 (inl (flagged k)), (assess-quarantined p).0)
