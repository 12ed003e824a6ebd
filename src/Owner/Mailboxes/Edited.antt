-- ===== src/Owner/Mailboxes/Edited.antt =====
-- An edit of a mailbox, and the synchronisation that began before it.
use mathlib.Core.Path.{subst}
use mailgate.Common.{
  any, modify, find, err, Text, Bytes, is_space, rstrip, strip, Unicode, Bool-cases, ◌==◌, nat_eq,
  list_eq, option_eq, ℕ, ◌+◌, ◌≡◌, refl, ap, ◌⊎◌, inl, inr, true, false, ◌&&◌, Option, none, some,
  List, [], ◌∷◌, arith,
}
use mailgate.Ingestion.{configuration_changed, code}
use mailgate.Ingestion.Store.{Processed, is_current, store_processed}
use mailgate.Models.{Mailbox, Database, audit, signal_eq, state_eq, auth_eq}
use mailgate.Owner.{effective_imap_host}
use mailgate.Owner.Mailboxes.{
  MailboxPost, same_connection, bump_config_version, CleanedEdit, cleaned_with, clean_edit, edited,
  save_edit, encrypted, edit_encrypted, edit_cleaned, edit_checked, edit_found, mailbox_edit,
}

-- The keys of the mailboxes are unique.
abbrev pub HasUniquePks : List Mailbox → Type 0
HasUniquePks [] = Unit
HasUniquePks (m ∷ ms) = (any (λ x. x.pk == m.pk) ms ≡ false) × HasUniquePks ms

other_rows :
    (pk version : ℕ) (ms : List Mailbox)
    → any (λ x. x.pk == pk) ms ≡ false
    → any (is_current pk version) ms ≡ false
other_rows pk version [] h = refl
other_rows pk version (m ∷ ms) h = ground (arith, other_rows pk version ms)

modify_none :
    (pk : ℕ) (f : Mailbox → Mailbox) (ms : List Mailbox)
    → any (λ x. x.pk == pk) ms ≡ false
    → modify (λ x. x.pk == pk) f ms ≡ ms
modify_none pk f [] h = refl
modify_none pk f (m ∷ ms) h = elim (Bool-cases (m.pk == pk)) [
  | inl e ↦ cc (rw e at h)
  | inr e ↦ rw e (ap (λ xs. m ∷ xs) (modify_none pk f ms (rw e at h)))
]

some_mailbox : {a b : Mailbox} → some a ≡ some b → a ≡ b
some_mailbox h = cc

stale :
    (pk version : ℕ) (new : Mailbox)
    → new.config_version ≡ version + 1
    → is_current pk version new ≡ false
stale pk version new h = ground arith

-- No row with the key has the old version, once the row with the key is replaced.
replaced-stale :
    (pk : ℕ) (ms : List Mailbox) (m new : Mailbox)
    → HasUniquePks ms
    → find (λ x. x.pk == pk) ms ≡ some m
    → new.config_version ≡ m.config_version + 1
    → any (is_current pk m.config_version) (modify (λ x. x.pk == pk) (λ _. new) ms) ≡ false
replaced-stale pk [] m new u h e = cc
replaced-stale pk (x ∷ xs) m new (n, u) h e = elim (Bool-cases (x.pk == pk)) [
  | inl own ↦
      let key : x.pk ≡ pk = (nat_eq.agrees x.pk pk).0 own in
      let others' = rw key at n in
      rw (own, modify_none pk (λ _. new) xs others', stale pk m.config_version new e)
        (other_rows pk m.config_version xs others')
  | inr other' ↦ rw (other', other') (replaced-stale pk xs m new u (rw other' at h) e)
]

some_cleaned : {a b : CleanedEdit} → some a ≡ some b → a ≡ b
some_cleaned h = cc

abbrev HasAllowedHost : Text → CleanedEdit → Type 0
HasAllowedHost allowed c = effective_imap_host c.preset.1 allowed ≡ allowed

cleaned_with-host :
    (ids : Option Text) (preset : Option (ℕ × Option Text)) (allowed : Text) (c : CleanedEdit)
    → cleaned_with ids preset allowed ≡ some c
    → HasAllowedHost allowed c
cleaned_with-host none preset allowed c h = cc
cleaned_with-host (some ids) none allowed c h = cc
cleaned_with-host (some ids) (some (version, host)) allowed c h =
    elim (Bool-cases (effective_imap_host host allowed == allowed)) [
      | inl e ↦
          subst (HasAllowedHost allowed) (some_cleaned (rw e at h))
            ((list_eq.agrees (effective_imap_host host allowed) allowed).0 e)
      | inr e ↦ cc (rw e at h)
    ]

clean_edit-host :
    (u : Unicode) (allowed : Text) (m : Mailbox) (post : MailboxPost) (c : CleanedEdit)
    → clean_edit u allowed m post ≡ some c
    → HasAllowedHost allowed c
unfolding clean_edit
clean_edit-host u allowed m post c h =
    elim (Bool-cases (
      post.is_accepted
      && m.port == 993
      && rstrip (λ c. c == b'.') (u.lower (strip is_space m.host)) == allowed)) [
        | inl e ↦ cleaned_with-host _ _ allowed c (rw e at h)
        | inr e ↦ cc (rw e at h)
      ]

-- The saved row `new`, of the row `m`: the identity of the mailbox stays, the connection is the one
-- that the installation allows, and either the connection is as it was, or no run that began with `m`
-- can store a message any more.
abbrev pub IsEdit : Text → Mailbox → Database → Database → Type 0
IsEdit allowed m db db' =
    (new : Mailbox) × (db'.mailboxes ≡ modify (λ x. x.pk == m.pk) (λ _. new) db.mailboxes)
    × (new.host ≡ allowed)
    × (new.port ≡ 993)
    × (new.pk ≡ m.pk)
    × (new.username ≡ m.username)
    × (new.provider_key ≡ m.provider_key)
    × (((same_connection new m ≡ true) × (new.config_version ≡ m.config_version))
        ⊎ ((same_connection new m ≡ false)
            × ((now id validity uid : ℕ) (r : Processed)
                → (store_processed now id m.pk m.config_version validity uid r db').0
                  ≡ err (code configuration_changed))))

refused :
    (now id pk version validity uid : ℕ) (r : Processed) (db : Database)
    → any (is_current pk version) db.mailboxes ≡ false
    → (store_processed now id pk version validity uid r db).0 ≡ err (code configuration_changed)
unfolding store_processed
refused now id pk version validity uid r db h = rw h refl

module _ (now : ℕ) (user allowed : Text) (post : MailboxPost) (m : Mailbox) (db : Database)
    (unique_pks : HasUniquePks db.mailboxes)
    (row : find (λ x. x.pk == m.pk) db.mailboxes ≡ some m) where
  save_edit-IsEdit :
      (token : Bytes) (c : CleanedEdit)
      → HasAllowedHost allowed c
      → IsEdit allowed m db (save_edit now user allowed token post c m db)
  unfolding save_edit bump_config_version edited audit
  save_edit-IsEdit token c host =
      let e : Mailbox = edited now allowed token post c m in
      elim (Bool-cases (same_connection e m)) [
        | inl same' ↦ rw same' (
          record e { config_version = m.config_version },
          refl,
          host,
          refl,
          refl,
          refl,
          refl,
          inl (same', refl),
        )
        | inr other' ↦ rw other' (
          record e { config_version = m.config_version + 1 },
          refl,
          host,
          refl,
          refl,
          refl,
          refl,
          inr (
            other',
            λ now id validity uid r. refused now id m.pk m.config_version validity uid r _ (
                replaced-stale m.pk db.mailboxes m
                  (record e { config_version = m.config_version + 1 }) unique_pks row refl),
          ),
        )
      ]

  edit_encrypted-IsEdit :
      (c : CleanedEdit) (token' : Option Bytes)
      → HasAllowedHost allowed c
      → ((edit_encrypted now user allowed post c m token' db).1 ≡ db)
        ⊎ IsEdit allowed m db (edit_encrypted now user allowed post c m token' db).1
  edit_encrypted-IsEdit c none h = inl refl
  edit_encrypted-IsEdit c (some token) h = inr (save_edit-IsEdit token c h)

  edit_cleaned-IsEdit :
      (token : Option Bytes) (o : Option CleanedEdit)
      → ((c : CleanedEdit) → o ≡ some c → HasAllowedHost allowed c)
      → ((edit_cleaned now user allowed token post o m db).1 ≡ db)
        ⊎ IsEdit allowed m db (edit_cleaned now user allowed token post o m db).1
  edit_cleaned-IsEdit token none h = inl refl
  edit_cleaned-IsEdit token (some c) h =
      edit_encrypted-IsEdit c (encrypted post.password token) (h c refl)

-- Other processes may change the database between the two reads of the row; `m` is the row that the
-- transaction locks. An edit is refused or fails and changes nothing, or it saves a row that keeps the
-- mailbox's identity and is connected to the allowed host on port 993. If anything of the connection has
-- changed, the database refuses every message of a synchronisation that began before.
pub mailbox_edit-IsEdit :
    (u : Unicode) (now : ℕ) (user allowed : Text) (token : Option Bytes) (post : MailboxPost)
    (m : Mailbox) (following : Database → Database) (db : Database)
    → HasUniquePks (following db).mailboxes
    → find (λ x. x.pk == m.pk) (following db).mailboxes ≡ some m
    → let db' = (mailbox_edit u now user allowed token post m.pk following db).1 in
      (db' ≡ db) ⊎ ((db' ≡ following db) ⊎ IsEdit allowed m (following db) db')
unfolding mailbox_edit
mailbox_edit-IsEdit u now user allowed token post m following db unique_pks row =
    by_row (find (λ x. x.pk == m.pk) db.mailboxes)
  where
    by_check :
        (o : Option CleanedEdit)
        → let db' = (edit_checked u now user allowed token post m.pk following o db).1 in
          (db' ≡ db) ⊎ ((db' ≡ following db) ⊎ IsEdit allowed m (following db) db')
    by_check none = inl refl
    by_check (some c) = rw row (
        inr (
          edit_cleaned-IsEdit now user allowed post m (following db) unique_pks row token
            (clean_edit u allowed m post) (clean_edit-host u allowed m post)))

    by_row :
        (o : Option Mailbox)
        → let db' = (edit_found u now user allowed token post m.pk following o db).1 in
          (db' ≡ db) ⊎ ((db' ≡ following db) ⊎ IsEdit allowed m (following db) db')
    by_row none = inl refl
    by_row (some first) = by_check (clean_edit u allowed first post)
