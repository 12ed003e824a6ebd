-- ===== src/Owner/Creation/Connectable.antt =====
-- What `mailbox_create` of app/gateway/views.py stores.
use mailgate.Common.{
  length, is_some, length-append, Text, Bytes, is_space, rstrip, strip, Unicode, Bool-cases, ◌==◌,
  nat_eq, list_eq, option_eq, ℕ, ◌+◌, ◌≡◌, refl, sym, ap, ◌∙◌, inl, inr, true, false, not, ◌&&◌,
  ◌||◌, Option, none, some, [], ◌∷◌, ◌++◌,
}
use mailgate.Crypto.Envelope.{list_beq_refl}
use mailgate.Models.{Mailbox, Database, audit, signal_eq, state_eq, auth_eq}
use mailgate.Owner.{
  Page, redirected, rendered, get_provider_preset, effective_imap_host, normalise_authserv_ids,
}
use mailgate.Owner.Creation.{NewMailboxPost, clean_create, created, create_cleaned, mailbox_create}
use mailgate.Owner.Mailboxes.{CleanedEdit, cleaned_with}
use mailgate.Regex.{same}

-- The worker opens a connection for the mailbox: `open_imap` does not refuse its host or its port.
abbrev pub IsConnectable : Text → Mailbox → Type 0
IsConnectable allowed m = not (m.host == allowed) || not (m.port == 993) ≡ false

abbrev pub IsCreation :
    Unicode → Text → ℕ → Bytes → NewMailboxPost → Database → Page × Database → Type 0
IsCreation u allowed pk token post db (redirected page, d') =
    (m : Mailbox) × (d'.mailboxes ≡ db.mailboxes ++ m ∷ [])
    × IsConnectable allowed m
    × (m.pk ≡ pk)
    × (m.password_encrypted ≡ token)
    × (normalise_authserv_ids u post.trusted_ids_text ≡ some m.trusted_authserv_ids)
    × (is_some (get_provider_preset m.provider_key) ≡ true)
    × (m.uid_validity ≡ none)
    × (m.last_uid ≡ 0)
    × (length d'.events ≡ length db.events + 1)
    × (d'.messages ≡ db.messages)
    × (d'.attachments ≡ db.attachments)
    × (d'.tokens ≡ db.tokens)
    × (d'.owners ≡ db.owners)
IsCreation u allowed pk token post db (rendered, d') =
    (clean_create u allowed post ≡ none) × (d' ≡ db)
IsCreation u allowed pk token post db _ = ⊥

-- What a form that is valid has checked.
abbrev pub IsChecked : Unicode → Text → NewMailboxPost → CleanedEdit → Type 0
IsChecked u allowed post cleaned =
    (normalise_authserv_ids u post.trusted_ids_text ≡ some cleaned.trusted_ids)
    × (get_provider_preset post.provider_key ≡ some cleaned.preset)
    × (effective_imap_host (cleaned.preset).1 allowed ≡ allowed)

some_cleaned : {a b : CleanedEdit} → some a ≡ some b → a ≡ b
some_cleaned h = cc

cleaned_with-IsChecked :
    (ids : Option Text) (preset : Option (ℕ × Option Text)) (allowed : Text) (cleaned : CleanedEdit)
    → cleaned_with ids preset allowed ≡ some cleaned
    → (ids ≡ some cleaned.trusted_ids)
      × (preset ≡ some cleaned.preset)
      × (effective_imap_host (cleaned.preset).1 allowed ≡ allowed)
cleaned_with-IsChecked none preset allowed cleaned h = cc
cleaned_with-IsChecked (some ids) none allowed cleaned h = cc
cleaned_with-IsChecked (some ids) (some (version, host)) allowed cleaned h =
    elim (Bool-cases (effective_imap_host host allowed == allowed)) [
      | inr other' ↦ cc (rw other' at h)
      | inl same ↦
          parts (rw same at h) ((list_eq.agrees (effective_imap_host host allowed) allowed).0 same)
    ]
  where
    parts :
        some (record { trusted_ids = ids; preset = (version, host) }) ≡ some cleaned
        → effective_imap_host host allowed ≡ allowed
        → (some ids ≡ some cleaned.trusted_ids)
          × (some (version, host) ≡ some cleaned.preset)
          × (effective_imap_host (cleaned.preset).1 allowed ≡ allowed)
    parts e k =
        let q = some_cleaned e in
        (
          ap (λ x. some x.trusted_ids) q,
          ap (λ x. some x.preset) q,
          ap (λ x. effective_imap_host (x.preset).1 allowed) (sym q) ∙ k,
        )

clean_create-IsChecked :
    (u : Unicode) (allowed : Text) (post : NewMailboxPost) (cleaned : CleanedEdit)
    → clean_create u allowed post ≡ some cleaned
    → IsChecked u allowed post cleaned
unfolding clean_create
clean_create-IsChecked u allowed post cleaned h =
    elim (Bool-cases (
      post.is_accepted
      && post.port == 993
      && rstrip (λ c. c == b'.') (u.lower (strip is_space post.host)) == allowed)) [
        | inr wrong ↦ cc (rw wrong at h)
        | inl right ↦ cleaned_with-IsChecked _ _ allowed cleaned (rw right at h)
      ]

create_cleaned-IsCreation :
    (u : Unicode) (now : ℕ) (user allowed : Text) (pk : ℕ) (token : Bytes) (post : NewMailboxPost)
    (c : Option CleanedEdit) (db : Database)
    → clean_create u allowed post ≡ c
    → IsCreation u allowed pk token post db (create_cleaned now user allowed pk token post c db)
unfolding created audit
create_cleaned-IsCreation u now user allowed pk token post none db e = (e, refl)
create_cleaned-IsCreation u now user allowed pk token post (some cleaned) db e =
    let (ids, preset, same) = clean_create-IsChecked u allowed post cleaned e in
    (
      created now allowed pk token post cleaned,
      refl,
      rw same (rw (list_beq_refl allowed) refl),
      refl,
      refl,
      ids,
      ap is_some preset,
      refl,
      refl,
      length-append db.events _,
      refl,
      refl,
      refl,
      refl,
    )

-- A POST to `mailbox_create` with a valid form adds one mailbox and one event and changes nothing else.
-- The mailbox has a known provider, the identifiers that the form accepts and the encrypted password,
-- its synchronisation starts from UID 0, and the worker does not refuse its host or its port. With an
-- invalid form nothing changes.
pub mailbox_create-IsCreation :
    (u : Unicode) (now : ℕ) (user allowed : Text) (pk : ℕ) (token : Bytes) (post : NewMailboxPost)
    (db : Database)
    → IsCreation u allowed pk token post db (mailbox_create u now user allowed pk token post db)
unfolding mailbox_create
mailbox_create-IsCreation u now user allowed pk token post db =
    create_cleaned-IsCreation u now user allowed pk token post (clean_create u allowed post) db refl
