-- ===== src/Owner/Deletion/Gone.antt =====
-- What `mailbox_delete` of app/gateway/views.py leaves.
use mailgate.Common.{
  length, is_empty, any, all, filter, Text, is_space, strip, leb, Bool-cases, ◌==◌, nat_eq, list_eq,
  option_eq, ℕ, ◌+◌, ◌≡◌, refl, ap, inl, inr, Bool, true, false, not, ◌&&◌, Option, none, some,
  List, [], ◌∷◌, arith,
}
use mailgate.Lifecycle.{count_rows, cascade}
use mailgate.Models.{Message, Attachment, Database, audit, signal_eq, state_eq, auth_eq}
use mailgate.Owner.{Page, redirected, rendered, not_found, not_allowed}
use mailgate.Owner.Deletion.{
  challenge, is_confirmed, is_of, is_attached, delete_row, audit_deletion, delete_locked,
  mailbox_delete,
}

-- Every attachment has its message.
abbrev pub HasMessages : Database → Type 0
HasMessages db = all (cascade db.messages) db.attachments ≡ true

length-filter-not :
    {A : Type 0} (p : A → Bool) (xs : List A)
    → length xs ≡ length (filter p xs) + length (filter (λ x. not (p x)) xs)
length-filter-not p [] = omega arith
length-filter-not p (x ∷ xs) = ground (arith, length-filter-not p xs)

filter-same :
    {A : Type 0} (p q : A → Bool)
    → ((x : A) → p x ≡ q x)
    → (xs : List A) → filter p xs ≡ filter q xs
filter-same p q h [] = refl
filter-same p q h (x ∷ xs) = rw (h x, filter-same p q h xs) refl

all-filter :
    {A : Type 0} (p q r : A → Bool)
    → ((x : A) → p x ≡ true → q x ≡ true → r x ≡ true)
    → (xs : List A) → all p xs ≡ true
    → all r (filter q xs) ≡ true
all-filter p q r h [] e = refl
all-filter p q r h (x ∷ xs) e = ground (arith, all-filter p q r h xs, h x)

module _ (pk : ℕ) where
  attached_lem :
      (ms : List Message) (a : Attachment) → cascade (filter (is_of pk) ms) a ≡ is_attached pk ms a
  attached_lem [] a = refl
  attached_lem (m ∷ ms) a = ground (arith, attached_lem ms a)

  cascade_kept :
      (ms : List Message) (a : Attachment)
      → cascade ms a ≡ true
      → not (cascade (filter (is_of pk) ms) a) ≡ true
      → cascade (filter (λ m. not (is_of pk m)) ms) a ≡ true
  cascade_kept [] a h k = h
  cascade_kept (m ∷ ms) a h k = ground (arith, cascade_kept ms a)

  -- The mailbox and what belongs to it are gone, all else is there; the event counts what is gone.
  abbrev pub IsDeletion : ℕ → Text → Database → Database → Type 0
  IsDeletion now user d d' =
      (n : ℕ) × (k : ℕ) × (d'.mailboxes ≡ filter (λ m. not (m.pk == pk)) d.mailboxes)
      × (d'.messages ≡ filter (λ m. not (is_of pk m)) d.messages)
      × (d'.attachments ≡ filter (λ a. not (is_attached pk d.messages a)) d.attachments)
      × (length d.messages ≡ n + length d'.messages)
      × (length d.attachments ≡ k + length d'.attachments)
      × HasMessages d'
      × (d'.events ≡ (audit_deletion now user pk n k d).events)
      × (d'.tokens ≡ d.tokens)
      × (d'.owners ≡ d.owners)

  -- What each answer of the page comes with: `d` is the database at the first read, `e` at the second.
  abbrev pub IsOutcome : ℕ → Text → Text → Database → Database → Option Page × Database → Type 0
  IsOutcome now user confirmation d e (none, d') =
      (any (λ m. m.pk == pk) e.mailboxes ≡ false) × (d' ≡ e)
  IsOutcome now user confirmation d e (some (redirected page), d') =
      (strip is_space confirmation ≡ challenge pk) × IsDeletion now user e d'
  IsOutcome now user confirmation d e (some rendered, d') =
      (is_confirmed pk confirmation ≡ false) × (d' ≡ d)
  IsOutcome now user confirmation d e (some not_found, d') =
      (any (λ m. m.pk == pk) d.mailboxes ≡ false) × (d' ≡ d)
  IsOutcome now user confirmation d e (some not_allowed, d') = ⊥

  is_confirmed-challenge : (s : Text) → is_confirmed pk s ≡ true → strip is_space s ≡ challenge pk
  unfolding is_confirmed
  is_confirmed-challenge s h = (list_eq.agrees (strip is_space s) (challenge pk)).0 (
      last_part (not (is_empty (strip is_space s))) (leb (length (strip is_space s)) 32)
        (strip is_space s == challenge pk) h)
    where
      last_part : (a b c : Bool) → a && b && c ≡ true → c ≡ true
      last_part a b c h = ground arith

  delete_row-IsDeletion :
      (now : ℕ) (user : Text) (d : Database)
      → HasMessages d
      → IsDeletion now user d (
          delete_row pk (
            audit_deletion now user pk
              (count_rows (is_of pk) d.messages)
              (count_rows (is_attached pk d.messages) d.attachments)
              d))
  unfolding delete_row audit_deletion audit
  delete_row-IsDeletion now user d h =
      let same =
        filter-same (λ a. not (cascade (filter (is_of pk) d.messages) a))
          (λ a. not (is_attached pk d.messages a)) (λ a. ap not (attached_lem d.messages a))
          d.attachments in
      (
        count_rows (is_of pk) d.messages,
        count_rows (is_attached pk d.messages) d.attachments,
        refl,
        refl,
        same,
        length-filter-not (is_of pk) d.messages,
        rw same (length-filter-not (is_attached pk d.messages) d.attachments),
        all-filter (cascade d.messages) (λ a. not (cascade (filter (is_of pk) d.messages) a)) _
            (cascade_kept d.messages) d.attachments h,
        refl,
        refl,
        refl,
      )

-- Where every attachment has its message, the page deletes the mailbox only if the confirmation is,
-- without the spaces around it, the challenge of that mailbox; it then removes the mailbox, its
-- messages and their attachments and nothing else, no attachment is left without its message, and
-- the event's counts are the numbers of the removed messages and attachments. With another
-- confirmation, or where the mailbox is not there at the first or at the second read, it changes
-- nothing.
pub mailbox_delete-IsOutcome :
    (now : ℕ) (user : Text) (others : Database → Database) (confirmation : Text) (pk : ℕ)
    (db : Database)
    → HasMessages (others db)
    → IsOutcome pk now user confirmation db
        (others db)
        (mailbox_delete now user others confirmation pk db)
unfolding mailbox_delete delete_locked
mailbox_delete-IsOutcome now user others confirmation pk db h =
    elim (Bool-cases (any (λ m. m.pk == pk) db.mailboxes)) [
      | inr gone ↦ rw gone (gone, refl)
      | inl here ↦ elim (Bool-cases (is_confirmed pk confirmation)) [
        | inr wrong ↦ rw (here, wrong) (wrong, refl)
        | inl right ↦ elim (Bool-cases (any (λ m. m.pk == pk) (others db).mailboxes)) [
          | inr gone ↦ rw (here, right, gone) (gone, refl)
          | inl there ↦
              rw (here, right, there)
                (
                  is_confirmed-challenge pk confirmation right,
                  delete_row-IsDeletion pk now user (others db) h,
                )
        ]
      ]
    ]
