-- ===== src/Ingestion/Sync/Stored.antt =====
-- app/gateway/ingestion.py: every UID that `sync_mailbox` fetches has its message in the database.
use mailgate.Common.{
  length, any, filter, All, Result, ok, err, Bytes, ltb, if-split, Bool-cases, ◌==◌, nat_eq,
  list_eq, option_eq, ℕ, ◌+◌, max, ◌≡◌, ◌⊎◌, inl, inr, Bool, true, false, Option, none, some, List,
  [], ◌∷◌, ◌++◌, arith,
}
use mailgate.Ingestion.{configuration_changed, SyncError, code, response_bytes, message_size}
use mailgate.Ingestion.Store.{Processed, process, is_current, has_key, new_message}
use mailgate.Ingestion.Store.Effect.{Effect, store_message-Effect}
use mailgate.Ingestion.Sync.{
  World, store_uid, store_body, fetch_sized, fetch_one, count, fetch_all, record_sync,
}
use mailgate.Ingestion.Sync.Messages.{IsKept, Keeps-fetch_all}
use mailgate.Ingestion.Sync.Outcome.{Ensures, Ensures-continue, Ensures-with_reply, Ensures-and}
use mailgate.Mail.{max_message_bytes}
use mailgate.Models.{
  Signal, message_too_large, Mailbox, Message, Database, signal_eq, state_eq, auth_eq,
}

abbrev pub HasKey : ℕ → ℕ → ℕ → List Message → Type 0
HasKey pk validity uid msgs = any (has_key pk validity uid) msgs ≡ true

any-append_true :
    (p : Message → Bool) (xs ys : List Message) → any p xs ≡ true → any p (xs ++ ys) ≡ true
any-append_true p [] ys h = cc
any-append_true p (x ∷ xs) ys h = ground (arith, any-append_true p xs ys)

any-append_last :
    (p : Message → Bool) (xs : List Message) (x : Message)
    → p x ≡ true
    → any p (xs ++ x ∷ []) ≡ true
any-append_last p [] x h = ground arith
any-append_last p (y ∷ xs) x h = ground (arith, any-append_last p xs x)

has_key_new :
    (now id pk validity uid : ℕ) (r : Processed)
    → has_key pk validity uid (new_message now id pk validity uid r) ≡ true
unfolding new_message
has_key_new now id pk validity uid r = ground arith

-- The other processes remove no message of the mailbox.
pub record KeepsKeys (w : World) (m : Mailbox) : Type 0 where
  pub before :
      (validity uid x : ℕ) (d : Database)
      → HasKey m.pk validity uid d.messages
      → HasKey m.pk validity uid (w.others x d).messages
  pub at_last :
      (validity uid : ℕ) (d : Database)
      → HasKey m.pk validity uid d.messages
      → HasKey m.pk validity uid (w.others_at_end d).messages

module _ (w : World) (m : Mailbox) (keys : KeepsKeys w m) where
  key-IsKept : (validity uid : ℕ) → IsKept w (HasKey m.pk validity uid)
  key-IsKept validity uid = record {
    adding = λ msgs x h _ _. any-append_true _ msgs (x ∷ []) h;
    by_others = keys.before validity uid;
    by_others_at_end = keys.at_last validity uid;
  }

  -- the key of `uid` is there
  abbrev Stored : ℕ → ℕ → Database → Type 0
  Stored validity uid db = HasKey m.pk validity uid db.messages

  Effect-Stored :
      (now id validity uid : ℕ) (r : Processed) (db : Database)
      (res : Result SyncError Bool × Database)
      → Effect now id m.pk m.config_version validity uid r db res
      → Ensures (λ _. Stored validity uid) res
  Effect-Stored now id validity uid r db (err e, db') h = tt
  Effect-Stored now id validity uid r db (ok false, db') (_, known, e) = rw e known
  Effect-Stored now id validity uid r db (ok true, db') (_, _, _, e, _, _, _) = rw e (
      any-append_last (has_key m.pk validity uid) db.messages
        (new_message now id m.pk validity uid r) (has_key_new now id m.pk validity uid r))

  store_uid-Stored :
      (validity uid : ℕ) (content : Bytes ⊎ Signal) (db : Database)
      → Ensures (λ _. Stored validity uid) (store_uid w m validity uid content db)
  unfolding store_uid
  store_uid-Stored validity uid content db =
      Effect-Stored (w.now uid) (w.new_id uid) validity uid (process w.libraries m content)
        (w.others uid db) _
        (store_message-Effect w.libraries (w.now uid) (w.new_id uid) m validity uid content
          m.config_version (w.others uid db)).0

  store_body-Stored :
      (validity uid : ℕ) (okay : Bool) (raw : Bytes) (db : Database)
      → Ensures (λ _. Stored validity uid) (store_body w m validity uid okay raw db)
  store_body-Stored validity uid false raw db = tt
  store_body-Stored validity uid true [] db = tt
  store_body-Stored validity uid true (b ∷ raw) db =
      store_uid-Stored validity uid (inl (b ∷ raw)) db

  fetch_sized-Stored :
      (validity uid : ℕ) (okay : Bool) (size : Option ℕ) (db : Database)
      → Ensures (λ _. Stored validity uid) (fetch_sized w m validity uid okay size db)
  fetch_sized-Stored validity uid false size db = tt
  fetch_sized-Stored validity uid true none db = tt
  fetch_sized-Stored validity uid true (some size) db =
      elim (Bool-cases (ltb max_message_bytes size)) [
        | inl large ↦ rw large (store_uid-Stored validity uid (inr message_too_large) db)
        | inr small ↦ rw small (
            Ensures-with_reply (λ _. Stored validity uid) (w.imap.fetch_peek uid) _ db
              (λ r _. store_body-Stored validity uid r.0 (response_bytes r.1) db))
      ]

  fetch_one-Stored :
      (validity uid : ℕ) (db : Database)
      → Ensures (λ _. Stored validity uid) (fetch_one w m validity uid db)
  unfolding fetch_one
  fetch_one-Stored validity uid db =
      Ensures-with_reply (λ _. Stored validity uid) (w.imap.fetch_size uid) _ db
        (λ r _. fetch_sized-Stored validity uid r.0 (message_size r.1) db)

  abbrev pub AllStored : ℕ → List ℕ → Database → Type 0
  AllStored validity uids db = All (λ uid. Stored validity uid db) uids

  pub fetch_all-Stored :
      (validity : ℕ) (uids : List ℕ) (created last : ℕ) (db : Database)
      → Ensures (λ _. AllStored validity uids) (fetch_all w m validity uids created last db)
  unfolding fetch_all
  fetch_all-Stored validity [] created last db = tt
  fetch_all-Stored validity (uid ∷ uids) created last db =
      Ensures-continue (λ _. AllStored validity (uid ∷ uids)) (λ _. Stored validity uid)
        (fetch_one w m validity uid db) _ (fetch_one-Stored validity uid db)
        λ b db' h.
          Ensures-and (AllStored validity uids) (HasKey m.pk validity uid)
            (fetch_all w m validity uids (created + count w m b) (max last uid) db')
            (fetch_all-Stored validity uids (created + count w m b) (max last uid) db')
            (Keeps-fetch_all w m (HasKey m.pk validity uid) (key-IsKept validity uid) validity uids
              (created + count w m b) (max last uid) db' h)

  at_last-AllStored :
      (validity : ℕ) (uids : List ℕ) (db : Database)
      → AllStored validity uids db
      → AllStored validity uids (w.others_at_end db)
  at_last-AllStored validity [] db h = tt
  at_last-AllStored validity (uid ∷ uids) db (h, hs) =
      (keys.at_last validity uid db h, at_last-AllStored validity uids db hs)

  pub record_sync-Stored :
      (validity : ℕ) (uids : List ℕ) (found : ℕ × ℕ) (db : Database)
      → AllStored validity uids db
      → Ensures (λ _. AllStored validity uids) (record_sync w m validity found db)
  unfolding record_sync
  record_sync-Stored validity uids (created, last) db h =
      if-split (Ensures (λ _. AllStored validity uids))
        (length (filter (is_current m.pk m.config_version) (w.others_at_end db).mailboxes) == 1)
        (ok created, _) (err (code configuration_changed), _)
        (λ _. at_last-AllStored validity uids db h) (λ _. tt)
