-- ===== src/Owner/Tests.antt =====
-- Runs of the owner's pages.
use mailgate.Common.{
  length, All, codes, ascii_lower, ◌≡◌, refl, ◌⊎◌, true, false, none, some, [], ◌∷◌, map,
}
use mailgate.Models.{Mailbox, Database, active}
use mailgate.Owner.{redirected, rendered}
use mailgate.Owner.Creation.{NewMailboxPost, mailbox_create}
use mailgate.Owner.Creation.Connectable.{IsCreation, mailbox_create-IsCreation}
use mailgate.Owner.Decisions.{message_decide, AreDecided, message_decide-AreDecided}
use mailgate.Owner.Deletion.{audit_deletion, mailbox_delete}
use mailgate.Owner.Deletion.Gone.{IsOutcome, mailbox_delete-IsOutcome}
use mailgate.Owner.Mailboxes.{MailboxPost, mailbox_edit}
use mailgate.Owner.Mailboxes.Edited.{IsEdit, mailbox_edit-IsEdit}
use mailgate.Owner.Setup.{OwnerPost, clean_owner, setup_owner, IsSetup, setup_owner-IsSetup}
use mailgate.Owner.Tokens.{token_revoke, token_revoke-inactive}
use mailgate.Samples.{ascii, sample_mailbox, sample_database}

abbrev owner_post : OwnerPost
owner_post = record { username = codes "ann"; setup_token = codes "setup"; is_accepted = true }

setup_owner-IsSetup_example :
    IsSetup
      (codes "setup")
      (λ db. db)
      (some owner_post)
      sample_database
      (setup_owner (codes "setup") false 1 1 (λ db. db) (some owner_post) sample_database).1
setup_owner-IsSetup_example =
    setup_owner-IsSetup (codes "setup") false 1 1 (λ db. db) (some owner_post) sample_database

test_setup :
    length
      (setup_owner (codes "setup") false 1 1 (λ db. db) (some owner_post) sample_database).1.owners
    ≡ 1
unfolding setup_owner clean_owner
test_setup = refl

message_decide-AreDecided_example :
    let db' = (message_decide 300 (codes "ann") true 12 (codes "approved") sample_database).1 in
    AreDecided 300 12 sample_database.messages db'.messages × (true ≡ false → db' ≡ sample_database)
message_decide-AreDecided_example =
    message_decide-AreDecided 300 (codes "ann") true 12 (codes "approved") sample_database

token_revoke-inactive_example :
    All
      (λ t. t.pk ≡ 1 → active 60 t ≡ false)
      (token_revoke 50 (codes "ann") true 1 sample_database).1.tokens
token_revoke-inactive_example =
    token_revoke-inactive 50 (codes "ann") 1 sample_database 60 (refl, tt)

-- A mailbox whose preset is known, and the edit that disables it.
abbrev known_mailbox : Mailbox
known_mailbox = record sample_mailbox { provider_key = codes "generic_imaps" }

abbrev known_database : Database
known_database = record sample_database { mailboxes = known_mailbox ∷ [] }

abbrev disabling : MailboxPost
disabling = record {
  name = codes "Work";
  password = [];
  trusted_ids_text = [];
  is_enabled = false;
  is_accepted = true;
}

mailbox_edit-IsEdit_example :
    let db' =
      (mailbox_edit ascii 300
        (codes "ann")
        (codes "imap.example.org")
        none
        disabling
        1
        (λ d. d)
        known_database).1 in
    (db' ≡ known_database)
    ⊎ ((db' ≡ known_database) ⊎ IsEdit (codes "imap.example.org") known_mailbox known_database db')
mailbox_edit-IsEdit_example =
    mailbox_edit-IsEdit ascii 300 (codes "ann") (codes "imap.example.org") none disabling
      known_mailbox (λ d. d) known_database (refl, tt) refl

-- The edit is saved, with the next version.
test_edit :
    map
      (λ (m : Mailbox). m.config_version)
      (mailbox_edit ascii 300
        (codes "ann")
        (codes "imap.example.org")
        none
        disabling
        1
        (λ d. d)
        known_database).1.mailboxes
    ≡ 4 ∷ []
unfolding mailbox_edit ascii_lower
test_edit = refl

-- A program in the approved message, and the deletion of the mailbox.
abbrev attached_database : Database
attached_database = record sample_database {
  attachments =
      record {
        message = 11;
        filename = codes "Tool.EXE";
        content_type = codes "application/octet-stream";
        size = 2;
        sha256 = codes "hash";
        dangerous = true;
      }
      ∷ [];
}

mailbox_delete-IsOutcome_example :
    IsOutcome 1 70
      (codes "ann")
      (codes " DELETE 1")
      attached_database
      attached_database
      (mailbox_delete 70 (codes "ann") (λ db. db) (codes " DELETE 1") 1 attached_database)
mailbox_delete-IsOutcome_example =
    mailbox_delete-IsOutcome 70 (codes "ann") (λ db. db) (codes " DELETE 1") 1 attached_database
      refl

test_deletion :
    mailbox_delete 70 (codes "ann") (λ db. db) (codes " DELETE 1") 1 attached_database ≡ (
      some (redirected (codes "dashboard")),
      record attached_database {
        mailboxes = [];
        messages = [];
        attachments = [];
        events = (audit_deletion 70 (codes "ann") 1 2 1 attached_database).events;
      },
    )
unfolding mailbox_delete audit_deletion
test_deletion = refl

test_not_confirmed :
    mailbox_delete 70 (codes "ann") (λ db. db) (codes "DELETE 2") 1 attached_database
    ≡ (some rendered, attached_database)
unfolding mailbox_delete
test_not_confirmed = refl

abbrev new_post : NewMailboxPost
new_post = record {
  name = codes "Work";
  provider_key = codes "generic_imaps";
  host = codes " IMAP.example.org. ";
  port = 993;
  username = codes "bob";
  trusted_ids_text = codes "mx.example.org";
  is_enabled = true;
  is_accepted = true;
}

mailbox_create-IsCreation_example :
    IsCreation ascii (codes "imap.example.org") 2 (codes "token") new_post sample_database (
      mailbox_create ascii 80
        (codes "ann")
        (codes "imap.example.org")
        2
        (codes "token")
        new_post
        sample_database)
mailbox_create-IsCreation_example =
    mailbox_create-IsCreation ascii 80 (codes "ann") (codes "imap.example.org") 2 (codes "token")
      new_post sample_database

test_creation :
    map
      (λ m. m.pk)
      (mailbox_create ascii 80
        (codes "ann")
        (codes "imap.example.org")
        2
        (codes "token")
        new_post
        sample_database).1.mailboxes
    ≡ 1 ∷ 2 ∷ []
unfolding mailbox_create ascii_lower
test_creation = refl

test_other_host :
    mailbox_create ascii 80
      (codes "ann")
      (codes "imap.example.com")
      2
      (codes "token")
      new_post
      sample_database
    ≡ (rendered, sample_database)
unfolding mailbox_create ascii_lower
test_other_host = refl
