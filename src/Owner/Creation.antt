-- ===== src/Owner/Creation.antt =====
-- `mailbox_create` of app/gateway/views.py with `MailboxForm` of app/gateway/forms.py.
pub mod Connectable
use mailgate.Common.{
  Text, Bytes, codes, is_space, rstrip, strip, Unicode, if◌then◌else◌, ◌==◌, nat_eq, list_eq,
  option_eq, ℕ, Bool, ◌&&◌, Option, none, some, [], ◌∷◌, ◌++◌,
}
use mailgate.Mail.Claims.{trusted_ids}
use mailgate.Models.{Mailbox, Database, audit, signal_eq, state_eq, auth_eq}
use mailgate.Owner.{
  Page, redirected, rendered, get_provider_preset, effective_imap_host, normalise_authserv_ids,
}
use mailgate.Owner.Mailboxes.{CleanedEdit, cleaned_with}

-- The fields of the form for a new mailbox.
pub record NewMailboxPost : Type 0 where
  pub name : Text
  pub provider_key : Text
  pub host : Text
  pub port : ℕ
  pub username : Text
  pub trusted_ids_text : Text
  pub is_enabled : Bool
  -- whether Django's own field checks accept them, and the password
  pub is_accepted : Bool

-- `is_valid` of the form for a new mailbox
unfoldable pub clean_create : Unicode → Text → NewMailboxPost → Option CleanedEdit
unfolding normalise_authserv_ids get_provider_preset strip is_space rstrip
clean_create u allowed post =
    if post.is_accepted
      && post.port == 993
      && rstrip (λ c. c == b'.') (u.lower (strip is_space post.host)) == allowed
    then cleaned_with (normalise_authserv_ids u post.trusted_ids_text)
        (get_provider_preset post.provider_key) allowed
    else none

-- The row that the form saves, with the defaults of the model; `token` is what the password encrypts
-- to and `pk` the key that the table gives.
unfoldable pub created : ℕ → Text → ℕ → Bytes → NewMailboxPost → CleanedEdit → Mailbox
created now allowed pk token post cleaned =
    let (version, host) = cleaned.preset in
    record {
      pk = pk;
      name = post.name;
      provider_key = post.provider_key;
      preset_version = version;
      host = effective_imap_host host allowed;
      port = 993;
      username = post.username;
      password_encrypted = token;
      trusted_authserv_ids = cleaned.trusted_ids;
      enabled = post.is_enabled;
      uid_validity = none;
      last_uid = 0;
      last_sync_at = none;
      last_error_code = [];
      config_version = 1;
      created_at = now;
      updated_at = now;
    }

abbrev pub create_cleaned :
    ℕ → Text → Text → ℕ → Bytes → NewMailboxPost → Option CleanedEdit → Database → Page × Database
create_cleaned now user allowed pk token post none db = (rendered, db)
create_cleaned now user allowed pk token post (some cleaned) db = (
  redirected (codes "dashboard"),
  audit now user (codes "mailbox.created") (some (codes "Mailbox", pk)) []
      (record db { mailboxes = db.mailboxes ++ created now allowed pk token post cleaned ∷ [] }),
)

-- `mailbox_create`, for a POST
unfoldable pub mailbox_create :
    Unicode → ℕ → Text → Text → ℕ → Bytes → NewMailboxPost → Database → Page × Database
unfolding clean_create created audit
mailbox_create u now user allowed pk token post db =
    create_cleaned now user allowed pk token post (clean_create u allowed post) db
