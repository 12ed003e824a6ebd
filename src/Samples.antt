-- ===== src/Samples.antt =====
-- A small mailbox, its messages and its surroundings, for the tests of the other modules.
use mailgate.Common.{
  Text, Bytes, codes, is_digit, is_lower, is_upper, ascii_lower, starts_with, format, control,
  plain, Unicode, ltb, if◌then◌else◌, ◌==◌, nat_eq, list_eq, option_eq, ℕ, ◌-◌, true, false, ◌||◌,
  none, some, List, [], ◌∷◌, ◌++◌,
}
use mailgate.Dkim.{verified, returns}
use mailgate.Dns.{replied}
use mailgate.Ingestion.{raw_item, tuple_item, reply, Imap}
use mailgate.Ingestion.Sync.{World}
use mailgate.Mail.{Part, Libraries}
use mailgate.Models.{
  State, quarantined, approved, low, Mailbox, Message, ApiToken, Database, signal_eq, state_eq,
  auth_eq,
}

-- ASCII, and the zero-width space.
abbrev pub ascii : Unicode
ascii = record {
  lower = ascii_lower;
  nfkc = λ s. s;
  char_name = λ c. if c == 8203 then codes "ZERO WIDTH SPACE" else [];
  category = λ c.
      if c == 8203
      then format
      else if ltb c 32
      then control
      else if c == 127
      then control
      else plain;
  is_word = λ c. is_digit c || is_lower c || is_upper c || c == b'_';
  digit_value = λ c. if is_digit c then some (c - b'0') else none;
}

abbrev pub text_part : Text → Part
text_part s = record {
  is_multipart = false;
  payload = s;
  is_attachment = false;
  filename = [];
  content_type = codes "text/plain";
  charset = codes "utf-8";
}

abbrev pub program_part : Part
program_part = record {
  is_multipart = false;
  payload = codes "MZ";
  is_attachment = true;
  filename = codes "Tool.EXE";
  content_type = codes "application/octet-stream";
  charset = codes "utf-8";
}

-- A parser that takes all bytes as the text, and attaches a program if they begin with a P.
abbrev pub parts_of : Bytes → List Part
parts_of s = if starts_with (codes "P") s then text_part s ∷ program_part ∷ [] else text_part s ∷ []

abbrev pub sample_libraries : Libraries
sample_libraries = record {
  unicode = ascii;
  parse_bytes = λ raw. record {
    has_defects = false;
    senders = (codes "Ann", codes "ann@example.org") ∷ [];
    recipients = codes "bob@example.org" ∷ [];
    date = some 100;
    message_id = codes "<1@example.org>";
    subject = codes "Hello";
    authentication_results = [];
    dkim_signatures = [];
    parts = parts_of raw;
  };
  sha256 = λ s. codes "hash";
  utf8 = λ s. s;
  decode = λ charset s. some s;
  decode_utf8 = λ s. s;
  html_events = λ s. [];
  html_unescape = λ s. s;
  urlsplit = λ s. some (record {
    scheme = codes "https";
    hostname = some (codes "example.org");
    port = some none;
    path = codes "/a";
    query = [];
  });
  idna = λ s. some s;
  urlunsplit = λ scheme host path query. scheme ++ codes "://" ++ host ++ path;
  resolver = λ name t. replied (some (codes "v=DKIM1; p=x"));
  clock = λ n. n;
  dkim_verifier = λ raw index. returns (verified true);
}

abbrev pub sample_mailbox : Mailbox
sample_mailbox = record {
  pk = 1;
  name = codes "Work";
  provider_key = codes "custom";
  preset_version = 1;
  host = codes "imap.example.org";
  port = 993;
  username = codes "bob";
  password_encrypted = codes "token";
  trusted_authserv_ids = [];
  enabled = true;
  uid_validity = some 7;
  last_uid = 4;
  last_sync_at = none;
  last_error_code = [];
  config_version = 3;
  created_at = 0;
  updated_at = 0;
}

abbrev pub sample_message : ℕ → ℕ → State → Message
sample_message id uid state = record {
  id = id;
  mailbox = 1;
  uid_validity = 7;
  uid = uid;
  message_id_hash = codes "hash";
  sender = codes "ann@example.org";
  sender_name = codes "Ann";
  recipients = [];
  subject = codes "Hello";
  received_at = some 100;
  sanitized_text = codes "Hi";
  links = [];
  authentication = none;
  signals = [];
  risk = low;
  category = codes "general";
  priority = 3;
  summary = codes "Hi";
  state = state;
  ingested_at = 100;
  decided_at = some 100;
}

abbrev pub sample_hash : Text
sample_hash = codes "aaaaaaaaaaaaaaaaaaaaaaaaaaaaaaaaaaaaaaaaaaaaaaaaaaaaaaaaaaaaaaaa"

abbrev pub sample_token : ApiToken
sample_token = record {
  pk = 1;
  name = codes "Agent";
  prefix = codes "mg_abcdefghi";
  token_hash = sample_hash;
  scope = codes "messages:read:approved";
  created_at = 0;
  expires_at = some 1000;
  last_used_at = none;
  revoked_at = none;
}

-- One approved and one quarantined message, of UIDs 3 and 4.
abbrev pub sample_database : Database
sample_database = record {
  owners = [];
  mailboxes = sample_mailbox ∷ [];
  messages = sample_message 11 3 approved ∷ sample_message 12 4 quarantined ∷ [];
  attachments = [];
  tokens = sample_token ∷ [];
  events = [];
}

abbrev pub sample_imap : Imap
sample_imap = record {
  connect = λ host port. reply tt;
  login = λ user password. reply true;
  select_readonly = reply true;
  uidvalidity = reply (raw_item (codes "7") ∷ []);
  search_from_uid = λ n. reply (true, raw_item (codes "5") ∷ []);
  fetch_size = λ uid. reply (true, raw_item (codes "5 (RFC822.SIZE 2)") ∷ []);
  fetch_peek = λ uid. reply (true, tuple_item (some (codes "5")) (some (codes "Hi")) ∷ []);
}

abbrev pub sample_world : World
sample_world = record {
  allowed_host = codes "imap.example.org";
  imap = sample_imap;
  libraries = sample_libraries;
  decrypt_secret = λ b. some (codes "password");
  now = λ uid. 200;
  new_id = λ uid. 13;
  others = λ uid db. db;
  end_time = 201;
  others_at_end = λ db. db;
}
