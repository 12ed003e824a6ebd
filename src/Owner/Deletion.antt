-- ===== src/Owner/Deletion.antt =====
-- `mailbox_delete` of app/gateway/views.py with `MailboxDeleteForm` of app/gateway/forms.py.
pub mod Gone
use mailgate.Api.{messages}
use mailgate.Common.{
  length, is_empty, any, filter, Text, codes, is_space, strip, decimal, leb, if◌then◌else◌, ◌==◌,
  nat_eq, list_eq, option_eq, ℕ, Bool, not, ◌&&◌, Option, none, some, List, [], ◌∷◌, ◌++◌,
}
use mailgate.Lifecycle.{count_rows, cascade}
use mailgate.Models.{Message, Attachment, Database, audit, signal_eq, state_eq, auth_eq}
use mailgate.Owner.{Page, redirected, rendered, not_found}

-- `self.challenge`
unfoldable pub challenge : ℕ → Text
unfolding decimal
challenge pk = codes "DELETE " ++ decimal pk

-- `is_valid` of the form. A `CharField` strips its value, which is required.
unfoldable pub is_confirmed : ℕ → Text → Bool
unfolding strip is_space challenge
is_confirmed pk confirmation =
    let value : Text = strip is_space confirmation in
    not (is_empty value) && leb (length value) 32 && value == challenge pk

abbrev pub is_of : ℕ → Message → Bool
is_of pk m = m.mailbox == pk

-- `Attachment.objects.filter(message__mailbox=mailbox)`
abbrev pub is_attached : ℕ → List Message → Attachment → Bool
is_attached pk messages a = any (λ m. m.id == a.message && is_of pk m) messages

-- `mailbox.delete()`: the rows that refer to the mailbox go first, and those that refer to them.
unfoldable pub delete_row : ℕ → Database → Database
delete_row pk db =
    let gone : List Message = filter (is_of pk) db.messages in
    record db {
      mailboxes = filter (λ m. not (m.pk == pk)) db.mailboxes;
      messages = filter (λ m. not (is_of pk m)) db.messages;
      attachments = filter (λ a. not (cascade gone a)) db.attachments;
    }

-- the event, with both counts
unfoldable pub audit_deletion : ℕ → Text → ℕ → ℕ → ℕ → Database → Database
unfolding audit decimal
audit_deletion now user pk message_count attachment_count db =
    audit now user (codes "mailbox.deleted") (some (codes "Mailbox", pk))
      ((codes "messages_deleted", decimal message_count)
        ∷ (codes "attachments_deleted", decimal attachment_count)
        ∷ [])
      db

-- The transaction, once it has the row; `none` is `Mailbox.DoesNotExist`.
unfoldable pub delete_locked : ℕ → Text → ℕ → Database → Option Page × Database
unfolding delete_row audit_deletion
delete_locked now user pk db =
    if any (λ m. m.pk == pk) db.mailboxes
    then (
      some (redirected (codes "dashboard")),
      delete_row pk (
          audit_deletion now user pk (count_rows (is_of pk) db.messages)
            (count_rows (is_attached pk db.messages) db.attachments) db),
    )
    else (none, db)

-- `mailbox_delete` for a POST: `others` is what other processes do between the two reads of the row.
unfoldable pub mailbox_delete :
    ℕ → Text → (Database → Database) → Text → ℕ → Database → Option Page × Database
unfolding is_confirmed delete_locked
mailbox_delete now user others confirmation pk db =
    if not (any (λ m. m.pk == pk) db.mailboxes)
    then (some not_found, db)
    else if is_confirmed pk confirmation
    then delete_locked now user pk (others db)
    else (some rendered, db)
