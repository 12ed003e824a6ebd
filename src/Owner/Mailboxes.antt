-- ===== src/Owner/Mailboxes.antt =====
-- `mailbox_edit` of app/gateway/views.py with `MailboxForm` of app/gateway/forms.py, and the trigger of
-- app/gateway/migrations/0005_provider_presets_and_authentication_schema.py that numbers the
-- configurations of a mailbox.
pub mod Edited
use mailgate.Common.{
  is_empty, modify, find, Text, Bytes, codes, is_space, rstrip, strip, join, Unicode, if◌then◌else◌,
  ◌==◌, nat_eq, list_eq, option_eq, ℕ, ◌+◌, Bool, not, ◌&&◌, ◌||◌, Option, none, some, List, [],
  ◌∷◌,
}
use mailgate.Models.{Mailbox, Database, audit, signal_eq, state_eq, auth_eq}
use mailgate.Owner.{
  Page, redirected, rendered, not_found, get_provider_preset, effective_imap_host,
  normalise_authserv_ids,
}

-- The fields of the form that an edit may change; the others are disabled.
pub record MailboxPost : Type 0 where
  pub name : Text
  -- empty if the stored password is to stay
  pub password : Text
  pub trusted_ids_text : Text
  pub is_enabled : Bool
  -- whether Django's own field checks accept them
  pub is_accepted : Bool

abbrev pub same_flag : Bool → Bool → Bool
same_flag a b = if a then b else not b

abbrev pub same_connection : Mailbox → Mailbox → Bool
same_connection x y =
    x.provider_key == y.provider_key
    && x.preset_version == y.preset_version
    && x.host == y.host
    && x.port == y.port
    && x.username == y.username
    && x.password_encrypted == y.password_encrypted
    && x.trusted_authserv_ids == y.trusted_authserv_ids
    && same_flag x.enabled y.enabled

-- `mailgate_bump_mailbox_config_version`, of the new row and the old one
unfoldable pub bump_config_version : Mailbox → Mailbox → Mailbox
bump_config_version new old =
    if not (same_connection new old)
    then record new { config_version = old.config_version + 1 }
    else record new { config_version = old.config_version }

-- What `MailboxForm` leaves of a valid edit: the identifiers, and the version and host of the preset.
pub record CleanedEdit : Type 0 where
  pub trusted_ids : Text
  pub preset : ℕ × Option Text

abbrev pub cleaned_with : Option Text → Option (ℕ × Option Text) → Text → Option CleanedEdit
cleaned_with none preset allowed = none
cleaned_with (some ids) none allowed = none
cleaned_with (some ids) (some (version, host)) allowed =
    if effective_imap_host host allowed == allowed
    then some (record { trusted_ids = ids; preset = (version, host) })
    else none

-- `is_valid` of the form for an existing mailbox
unfoldable pub clean_edit : Unicode → Text → Mailbox → MailboxPost → Option CleanedEdit
unfolding normalise_authserv_ids get_provider_preset strip is_space rstrip
clean_edit u allowed m post =
    if post.is_accepted
      && m.port == 993
      && rstrip (λ c. c == b'.') (u.lower (strip is_space m.host)) == allowed
    then cleaned_with (normalise_authserv_ids u post.trusted_ids_text)
        (get_provider_preset m.provider_key) allowed
    else none

abbrev pub new_password : Mailbox → Text → Bytes → Bytes
new_password m [] token = m.password_encrypted
new_password m (c ∷ s) token = token

-- Whether the page forgets the last synchronisation.
abbrev pub is_restarted : Mailbox → MailboxPost → Bool
is_restarted m post = not (is_empty post.password) || (not m.enabled && post.is_enabled)

-- The row that the page saves; `token` is what the password encrypts to.
unfoldable pub edited : ℕ → Text → Bytes → MailboxPost → CleanedEdit → Mailbox → Mailbox
edited now allowed token post cleaned m =
    let (version, host) = cleaned.preset in
    record m {
      name = post.name;
      preset_version = version;
      host = effective_imap_host host allowed;
      port = 993;
      password_encrypted = new_password m post.password token;
      trusted_authserv_ids = cleaned.trusted_ids;
      enabled = post.is_enabled;
      last_sync_at = if is_restarted m post then none else m.last_sync_at;
      last_error_code = if is_restarted m post then [] else m.last_error_code;
      updated_at = now;
    }

abbrev pub named_if : Bool → Text → List Text → List Text
named_if b name names = if b then name ∷ names else names

-- `sorted(form.changed_data)`
abbrev pub changed_fields : Mailbox → MailboxPost → List Text
changed_fields m post = named_if (not (same_flag m.enabled post.is_enabled)) (codes "enabled") (
    named_if (not (m.name == post.name)) (codes "name") (
      named_if (not (is_empty post.password)) (codes "password") (
        named_if (not (m.trusted_authserv_ids == post.trusted_ids_text))
          (codes "trusted_authserv_ids") [])))

-- the transaction, with the trigger
unfoldable pub save_edit :
    ℕ → Text → Text → Bytes → MailboxPost → CleanedEdit → Mailbox → Database → Database
unfolding edited bump_config_version audit join
save_edit now user allowed token post cleaned m db =
    audit now user (codes "mailbox.updated") (some (codes "Mailbox", m.pk))
      ((codes "changed_fields", join (codes ",") (changed_fields m post)) ∷ [])
      (record db {
        mailboxes =
            modify (λ x. x.pk == m.pk)
              (λ _. bump_config_version (edited now allowed token post cleaned m) m) db.mailboxes;
      })

-- The new password, encrypted; `encrypt_secret` returned `token`, or raised.
abbrev pub encrypted : Text → Option Bytes → Option Bytes
encrypted [] token = some []
encrypted (c ∷ s) token = token

-- The answer of the page; `none` is an exception that it does not catch.
abbrev pub edit_encrypted :
    ℕ
    → Text
    → Text
    → MailboxPost
    → CleanedEdit
    → Mailbox
    → Option Bytes
    → Database
    → Option Page × Database
edit_encrypted now user allowed post cleaned m none db = (none, db)
edit_encrypted now user allowed post cleaned m (some token) db =
    (some (redirected (codes "dashboard")), save_edit now user allowed token post cleaned m db)

abbrev pub edit_cleaned :
    ℕ
    → Text
    → Text
    → Option Bytes
    → MailboxPost
    → Option CleanedEdit
    → Mailbox
    → Database
    → Option Page × Database
edit_cleaned now user allowed token post none m db = (some rendered, db)
edit_cleaned now user allowed token post (some cleaned) m db =
    edit_encrypted now user allowed post cleaned m (encrypted post.password token) db

-- The transaction, on the row that it locks; `DoesNotExist` if there is none any more.
abbrev pub edit_locked :
    Unicode
    → ℕ
    → Text
    → Text
    → Option Bytes
    → MailboxPost
    → Option Mailbox
    → Database
    → Option Page × Database
edit_locked u now user allowed token post none db = (none, db)
edit_locked u now user allowed token post (some m) db =
    edit_cleaned now user allowed token post (clean_edit u allowed m post) m db

-- What follows the first check of the form; `following` is what other processes do before the transaction.
abbrev pub edit_checked :
    Unicode
    → ℕ
    → Text
    → Text
    → Option Bytes
    → MailboxPost
    → ℕ
    → (Database → Database)
    → Option CleanedEdit
    → Database
    → Option Page × Database
edit_checked u now user allowed token post mailbox_id following none db = (some rendered, db)
edit_checked u now user allowed token post mailbox_id following (some _) db =
    edit_locked u now user allowed token post
      (find (λ x. x.pk == mailbox_id) (following db).mailboxes) (following db)

-- The first check, on the row that is read before the transaction.
abbrev pub edit_found :
    Unicode
    → ℕ
    → Text
    → Text
    → Option Bytes
    → MailboxPost
    → ℕ
    → (Database → Database)
    → Option Mailbox
    → Database
    → Option Page × Database
edit_found u now user allowed token post mailbox_id following none db = (some not_found, db)
edit_found u now user allowed token post mailbox_id following (some m) db =
    edit_checked u now user allowed token post mailbox_id following (clean_edit u allowed m post) db

-- `mailbox_edit`, for a POST
unfoldable pub mailbox_edit :
    Unicode
    → ℕ
    → Text
    → Text
    → Option Bytes
    → MailboxPost
    → ℕ
    → (Database → Database)
    → Database
    → Option Page × Database
unfolding clean_edit save_edit
mailbox_edit u now user allowed token post mailbox_id following db =
    edit_found u now user allowed token post mailbox_id following
      (find (λ m. m.pk == mailbox_id) db.mailboxes) db
