-- ===== src/Ingestion.antt =====
-- app/gateway/ingestion.py: its errors, the answers of an IMAP server, and what the module reads out
-- of them. The children model the storing of a message and the synchronisation.
pub mod Store
pub mod Sync
mod Tests
use mailgate.Common.{
  take, Text, Bytes, codes, is_digit, lower_char, is_byte_space, words, join, digits_value,
  is_decimal, ltb, if◌then◌else◌, ◌==◌, nat_eq, list_eq, option_eq, ℕ, Bool, false, ◌&&◌, Option,
  none, some, List, [], ◌∷◌,
}
use mailgate.Regex.{Regex, eps, chars, seq, plus, search_group}

-- The codes of `MailboxSyncError`.
pub data SyncCode : Type 0 where
  egress_policy_denied uidvalidity_missing configuration_changed authentication_failed : SyncCode
  inbox_unavailable search_failed size_unavailable fetch_failed empty_message : SyncCode
  connection_failed : SyncCode

abbrev pub code_text : SyncCode → Text
code_text egress_policy_denied = codes "egress_policy_denied"
code_text uidvalidity_missing = codes "uidvalidity_missing"
code_text configuration_changed = codes "configuration_changed"
code_text authentication_failed = codes "authentication_failed"
code_text inbox_unavailable = codes "inbox_unavailable"
code_text search_failed = codes "search_failed"
code_text size_unavailable = codes "size_unavailable"
code_text fetch_failed = codes "fetch_failed"
code_text empty_message = codes "empty_message"
code_text connection_failed = codes "connection_failed"

-- What leaves `sync_mailbox`: a `MailboxSyncError`, a database error on a row that does not fit its
-- columns, or the error of a credential that cannot be decrypted.
pub data SyncError : Type 0 where
  code : SyncCode → SyncError
  data_error : SyncError
  credential_error : SyncError

-- An element of an `imaplib` response: bytes, a tuple with its first two elements where these are
-- bytes, or something else.
pub data ImapItem : Type 0 where
  raw_item : Bytes → ImapItem
  tuple_item : Option Bytes → Option Bytes → ImapItem
  other_item : ImapItem

-- A call that raises `TimeoutError`, `OSError` or an IMAP error, or returns.
pub data Reply {ℓ} (A : Type ℓ) : Type ℓ where
  broken : Reply A
  reply : A → Reply A

-- One session with the server of a mailbox. A Boolean says that the status was "OK".
pub record Imap : Type 0 where
  pub connect : Text → ℕ → Reply (Unit {0})
  pub login : Text → Text → Reply Bool
  -- `select("INBOX", readonly=True)`
  pub select_readonly : Reply Bool
  -- `response("UIDVALIDITY")`
  pub uidvalidity : Reply (List ImapItem)
  -- `uid("SEARCH", None, "UID n:*")`
  pub search_from_uid : ℕ → Reply (Bool × List ImapItem)
  -- `uid("FETCH", uid, "(RFC822.SIZE)")`
  pub fetch_size : ℕ → Reply (Bool × List ImapItem)
  -- `uid("FETCH", uid, "(BODY.PEEK[])")`
  pub fetch_peek : ℕ → Reply (Bool × List ImapItem)

-- `_response_bytes`
unfoldable pub response_bytes : List ImapItem → Bytes
response_bytes [] = []
response_bytes (raw_item b ∷ items) = b
response_bytes (tuple_item a (some b) ∷ items) = b
response_bytes (tuple_item a none ∷ items) = response_bytes items
response_bytes (other_item ∷ items) = response_bytes items

abbrev pub raw_items : List ImapItem → List Bytes
raw_items [] = []
raw_items (raw_item b ∷ items) = b ∷ raw_items items
raw_items (_ ∷ items) = raw_items items

abbrev pub header_items : List ImapItem → List Bytes
header_items [] = []
header_items (raw_item b ∷ items) = b ∷ header_items items
header_items (tuple_item (some a) b ∷ items) = a ∷ header_items items
header_items (tuple_item none b ∷ items) = header_items items
header_items (other_item ∷ items) = header_items items

-- A literal in capitals, in a `bytes` pattern under `re.I`.
abbrev pub byte_word : Text → Regex
byte_word [] = eps
byte_word (c ∷ s) = seq (chars (λ d. lower_char d == lower_char c)) (byte_word s)

-- `rb"NAME\s+(\d+)"`, searched for: the number.
unfoldable pub number_after : Text → Bytes → Option Bytes
unfolding search_group is_byte_space
number_after name raw =
    search_group (λ _. false) (seq (byte_word name) (plus (chars is_byte_space))) is_digit none raw

-- `_uidvalidity`, from the items of the response
unfoldable pub uidvalidity_of : List ImapItem → Option ℕ
unfolding number_after join
uidvalidity_of items =
    let raw : Bytes = join (codes " ") (raw_items items) in
    elim (number_after (codes "UIDVALIDITY") raw) [
      | some digits ↦ some (digits_value 0 digits)
      | none ↦ if is_decimal raw then some (digits_value 0 raw) else none
    ]

-- `_message_size`
unfoldable pub message_size : List ImapItem → Option ℕ
unfolding number_after join
message_size items =
    elim (number_after (codes "RFC822.SIZE") (join (codes " ") (header_items items))) [
      | some digits ↦ some (digits_value 0 digits)
      | none ↦ none
    ]

abbrev pub numbers_above : ℕ → List Bytes → List ℕ
numbers_above last [] = []
numbers_above last (w ∷ ws) =
    let rest = numbers_above last ws in
    if is_decimal w && ltb last (digits_value 0 w) then digits_value 0 w ∷ rest else rest

-- the UIDs of a search that are new, in the order of the response, at most `batch_size`
unfoldable pub new_uids : ℕ → ℕ → List ImapItem → List ℕ
unfolding response_bytes words is_byte_space
new_uids last batch_size items =
    take batch_size (numbers_above last (words is_byte_space (response_bytes items)))
