-- ===== src/Mail.antt =====
-- app/gateway/mail.py: the limits, the parsed message, and what the module takes from its libraries.
-- The children model its functions.
pub mod Sanitise
pub mod Links
pub mod Injection
pub mod Claims
pub mod Policy
pub mod Parse
mod Tests
use mailgate.Common.{Text, Bytes, Unicode, ℕ, ◌*◌, Bool, Option, List}
use mailgate.Dkim.{Verifier}
use mailgate.Dns.{Resolver}
use mailgate.Models.{Signal, Authentication}

abbrev pub max_message_bytes : ℕ
max_message_bytes = 10 * 1024 * 1024

abbrev pub max_parts : ℕ
max_parts = 100

abbrev pub max_text_chars : ℕ
max_text_chars = 200_000

abbrev pub max_attachments : ℕ
max_attachments = 25

abbrev pub max_links : ℕ
max_links = 100

pub record ParsedAttachment : Type 0 where
  pub filename : Text
  pub content_type : Text
  pub size : ℕ
  pub sha256 : Text
  pub dangerous : Bool

pub record ParsedMessage : Type 0 where
  pub sender : Text
  pub sender_name : Text
  pub recipients : List Text
  pub subject : Text
  pub received_at : Option ℕ
  pub text : Text
  pub links : List Text
  pub attachments : List ParsedAttachment
  pub message_id_hash : Text
  pub authentication : Authentication
  pub signals : List Signal

-- `UnsafeMessage` with its code, or an exception that a library raised.
pub data MailError : Type 0 where
  unsafe : Signal → MailError
  unexpected : MailError

-- A part of a parsed message, as its methods report it.
pub record Part : Type 0 where
  pub is_multipart : Bool
  -- `get_payload(decode=True) or b""`
  pub payload : Bytes
  -- `get_content_disposition() == "attachment"`
  pub is_attachment : Bool
  -- `get_filename()`, empty for `None`
  pub filename : Text
  pub content_type : Text
  -- `get_content_charset() or "utf-8"`
  pub charset : Text

-- What the `email` package finds in a message.
pub record Email : Type 0 where
  pub has_defects : Bool
  -- `getaddresses` of From: names with addresses
  pub senders : List (Text × Text)
  -- the addresses of To and Cc
  pub recipients : List Text
  -- `parsedate_to_datetime` of Date; `none` where it raises
  pub date : Option ℕ
  pub message_id : Text
  pub subject : Text
  pub authentication_results : List Text
  pub dkim_signatures : List Text
  -- `list(message.walk())`
  pub parts : List Part

-- The calls that `HTMLParser.feed` makes.
pub data HtmlEvent : Type 0 where
  start_tag : Text → HtmlEvent
  end_tag : Text → HtmlEvent
  text_data : Text → HtmlEvent

-- What `urlsplit` returns; `port` is `none` where reading it raises `ValueError`.
pub record SplitUrl : Type 0 where
  pub scheme : Text
  pub hostname : Option Text
  pub port : Option (Option ℕ)
  pub path : Text
  pub query : Text

-- The libraries that the module calls.
pub record Libraries : Type 0 where
  pub unicode : Unicode
  pub parse_bytes : Bytes → Email
  pub sha256 : Bytes → Text
  pub utf8 : Text → Bytes
  -- `payload.decode(charset, errors="replace")`; `none` is `LookupError`
  pub decode : Text → Bytes → Option Text
  pub decode_utf8 : Bytes → Text
  pub html_events : Text → List HtmlEvent
  pub html_unescape : Text → Text
  -- `none` is `ValueError`
  pub urlsplit : Text → Option SplitUrl
  -- `encode("idna").decode("ascii")`; `none` is `UnicodeError`
  pub idna : Text → Option Text
  -- of scheme, netloc, path and query, with no fragment
  pub urlunsplit : Text → Text → Text → Text → Text
  pub resolver : Resolver
  pub clock : ℕ → ℕ
  -- `dkim.DKIM(raw).verify(idx)`
  pub dkim_verifier : Bytes → ℕ → Verifier
