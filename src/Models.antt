-- ===== src/Models.antt =====
-- app/gateway/models.py: the tables and the audit log. A key is a number, a time a number of
-- seconds, and a table the list of its rows, oldest first.
use mailgate.Common.{
  take, Text, Bytes, codes, ltb, Comparable, nth, numbered_eq, ℕ, ◌≡◌, refl, Bool, true, false,
  Option, none, some, List, [], ◌∷◌, ◌++◌,
}

-- The codes that stand in `Message.signals`: those of app/gateway/mail.py, and
-- `processing_error` of app/gateway/ingestion.py.
pub data Signal : Type 0 where
  mime_defect unicode_controls_in_headers attachment_present : Signal
  attachment_content_not_inspected dangerous_attachment unknown_charset text_truncated : Signal
  unicode_controls too_many_links prompt_injection_suspected authentication_failure : Signal
  independent_dkim_failure independent_dkim_temperror missing_sender independent_dkim_pass : Signal
  provider_authentication_pass manual_review_required message_too_large : Signal
  too_many_mime_parts too_many_attachments processing_error : Signal

abbrev pub signals : List Signal
signals =
    mime_defect ∷ unicode_controls_in_headers ∷ attachment_present
    ∷ attachment_content_not_inspected ∷ dangerous_attachment ∷ unknown_charset ∷ text_truncated
    ∷ unicode_controls ∷ too_many_links ∷ prompt_injection_suspected ∷ authentication_failure
    ∷ independent_dkim_failure ∷ independent_dkim_temperror ∷ missing_sender ∷ independent_dkim_pass
    ∷ provider_authentication_pass ∷ manual_review_required ∷ message_too_large
    ∷ too_many_mime_parts ∷ too_many_attachments ∷ processing_error ∷ []

abbrev pub signal_number : Signal → ℕ
signal_number mime_defect = 0
signal_number unicode_controls_in_headers = 1
signal_number attachment_present = 2
signal_number attachment_content_not_inspected = 3
signal_number dangerous_attachment = 4
signal_number unknown_charset = 5
signal_number text_truncated = 6
signal_number unicode_controls = 7
signal_number too_many_links = 8
signal_number prompt_injection_suspected = 9
signal_number authentication_failure = 10
signal_number independent_dkim_failure = 11
signal_number independent_dkim_temperror = 12
signal_number missing_sender = 13
signal_number independent_dkim_pass = 14
signal_number provider_authentication_pass = 15
signal_number manual_review_required = 16
signal_number message_too_large = 17
signal_number too_many_mime_parts = 18
signal_number too_many_attachments = 19
signal_number processing_error = 20

pub nth-signal_number : (s : Signal) → nth mime_defect signals (signal_number s) ≡ s
nth-signal_number mime_defect = refl
nth-signal_number _ = refl

instance abbrev pub signal_eq : Comparable Signal
signal_eq = numbered_eq signal_number mime_defect signals nth-signal_number

-- `Message.State`
pub data State : Type 0 where
  quarantined approved rejected : State

abbrev pub state_number : State → ℕ
state_number quarantined = 0
state_number approved = 1
state_number rejected = 2

pub nth-state_number :
    (s : State) → nth quarantined (quarantined ∷ approved ∷ rejected ∷ []) (state_number s) ≡ s
nth-state_number quarantined = refl
nth-state_number _ = refl

instance abbrev pub state_eq : Comparable State
state_eq =
    numbered_eq state_number quarantined (quarantined ∷ approved ∷ rejected ∷ []) nth-state_number

-- `Message.Risk`
pub data Risk : Type 0 where
  low medium high : Risk

-- The results of DKIM, SPF, DMARC and ARC checks.
pub data AuthResult : Type 0 where
  pass fail softfail neutral absent temperror permerror unknown : AuthResult

abbrev pub auth_number : AuthResult → ℕ
auth_number pass = 0
auth_number fail = 1
auth_number softfail = 2
auth_number neutral = 3
auth_number absent = 4
auth_number temperror = 5
auth_number permerror = 6
auth_number unknown = 7

abbrev pub auth_results : List AuthResult
auth_results = pass ∷ fail ∷ softfail ∷ neutral ∷ absent ∷ temperror ∷ permerror ∷ unknown ∷ []

pub nth-auth_number : (r : AuthResult) → nth pass auth_results (auth_number r) ≡ r
nth-auth_number pass = refl
nth-auth_number _ = refl

instance abbrev pub auth_eq : Comparable AuthResult
auth_eq = numbered_eq auth_number pass auth_results nth-auth_number

-- What the provider's Authentication-Results claim.
pub record Claims : Type 0 where
  pub spf : AuthResult
  pub dkim : AuthResult
  pub dmarc : AuthResult
  pub arc : AuthResult
  pub authserv_id : Text

pub record Signature : Type 0 where
  pub domain : Text
  pub selector : Text
  -- `none` is the empty string: not decided yet
  pub result : Option AuthResult

pub record Verification : Type 0 where
  pub result : AuthResult
  pub signatures : List Signature
  pub too_many : Bool

-- `Message.authentication`
pub record Authentication : Type 0 where
  pub provider_claims : Claims
  pub independent_dkim : Verification

pub record Mailbox : Type 0 where
  pub pk : ℕ
  pub name : Text
  pub provider_key : Text
  pub preset_version : ℕ
  pub host : Text
  pub port : ℕ
  pub username : Text
  pub password_encrypted : Bytes
  pub trusted_authserv_ids : Text
  pub enabled : Bool
  pub uid_validity : Option ℕ
  pub last_uid : ℕ
  pub last_sync_at : Option ℕ
  pub last_error_code : Text
  pub config_version : ℕ
  pub created_at : ℕ
  pub updated_at : ℕ

pub record Message : Type 0 where
  pub id : ℕ
  pub mailbox : ℕ
  pub uid_validity : ℕ
  pub uid : ℕ
  pub message_id_hash : Text
  pub sender : Text
  pub sender_name : Text
  pub recipients : List Text
  pub subject : Text
  pub received_at : Option ℕ
  pub sanitized_text : Text
  pub links : List Text
  -- `none` is the empty document
  pub authentication : Option Authentication
  pub signals : List Signal
  pub risk : Risk
  pub category : Text
  pub priority : ℕ
  pub summary : Text
  pub state : State
  pub ingested_at : ℕ
  pub decided_at : Option ℕ

pub record Attachment : Type 0 where
  pub message : ℕ
  pub filename : Text
  pub content_type : Text
  pub size : ℕ
  pub sha256 : Text
  pub dangerous : Bool

pub record ApiToken : Type 0 where
  pub pk : ℕ
  pub name : Text
  pub prefix : Text
  pub token_hash : Text
  pub scope : Text
  pub created_at : ℕ
  pub expires_at : Option ℕ
  pub last_used_at : Option ℕ
  pub revoked_at : Option ℕ

-- `obj.__class__.__name__` and the key of the object that an event is about.
pub record AuditEvent : Type 0 where
  pub actor : Text
  pub action : Text
  pub object_type : Text
  pub object_id : Option ℕ
  pub metadata : List (Text × Text)
  pub created_at : ℕ

pub record Owner : Type 0 where
  pub pk : ℕ
  pub username : Text
  pub is_staff : Bool
  pub is_superuser : Bool

pub record Database : Type 0 where
  pub owners : List Owner
  pub mailboxes : List Mailbox
  pub messages : List Message
  pub attachments : List Attachment
  pub tokens : List ApiToken
  pub events : List AuditEvent

-- `audit`, at the time `now`.
unfoldable pub audit :
    ℕ → Text → Text → Option (Text × ℕ) → List (Text × Text) → Database → Database
audit now actor action obj metadata db = record db {
  events =
      db.events
      ++ record {
        actor = take 120 actor;
        action = take 120 action;
        object_type = elim obj [ none ↦ [] | some (t, k) ↦ t ];
        object_id = elim obj [ none ↦ none | some (t, k) ↦ some k ];
        metadata = metadata;
        created_at = now;
      }
        ∷ [];
}

-- `ApiToken.active`
unfoldable pub active : ℕ → ApiToken → Bool
active now token = elim token.revoked_at [
  | some _ ↦ false
  | none ↦ elim token.expires_at [ none ↦ true | some t ↦ ltb now t ]
]

-- `ApiToken.issue`: `raw` is what `secrets.token_urlsafe(32)` returned, `sha256` the hash of a
-- text's UTF-8 bytes, `fresh` the key that the table gives.
unfoldable pub issue :
    (Text → Text) → ℕ → ℕ → Text → Text → Option ℕ → Database → Database × ApiToken × Text
issue sha256 fresh now secret name expires_at db =
    let raw : Text = codes "mg_" ++ secret in
    let token : ApiToken = record {
      pk = fresh;
      name = name;
      prefix = take 12 raw;
      token_hash = sha256 raw;
      scope = codes "messages:read:approved";
      created_at = now;
      expires_at = expires_at;
      last_used_at = none;
      revoked_at = none;
    } in
    (record db { tokens = db.tokens ++ token ∷ [] }, token, raw)
