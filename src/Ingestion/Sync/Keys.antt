-- ===== src/Ingestion/Sync/Keys.antt =====
-- The messages that a run of `sync_mailbox` of app/gateway/ingestion.py leaves: their keys are
-- unique, and it approves none.
use mailgate.Common.{
  any, All, All-append, ℕ, ◌≡◌, refl, sym, ◌∙◌, Bool, false, ◌||◌, List, [], ◌∷◌, ◌++◌, arith,
}
use mailgate.Ingestion.Store.{has_key}
use mailgate.Ingestion.Sync.{World, sync_mailbox}
use mailgate.Ingestion.Sync.Messages.{Keeps-sync_mailbox}
use mailgate.Models.{quarantined, approved, Mailbox, Message, Database}

-- No two messages have one mailbox, UIDVALIDITY and UID.
abbrev pub IsUnique : List Message → Type 0
IsUnique [] = Unit
IsUnique (x ∷ xs) = (any (has_key x.mailbox x.uid_validity x.uid) xs ≡ false) × IsUnique xs

or_false : (a b : Bool) → a || b ≡ false → (a ≡ false) × (b ≡ false)
or_false a b h = ground arith

any-append_false :
    (p : Message → Bool) (xs : List Message) (x : Message)
    → any p xs ≡ false
    → p x ≡ false
    → any p (xs ++ x ∷ []) ≡ false
any-append_false p [] x h k = ground arith
any-append_false p (y ∷ xs) x h k = ground (arith, any-append_false p xs x)

has_key_sym :
    (x y : Message)
    → has_key x.mailbox x.uid_validity x.uid y ≡ has_key y.mailbox y.uid_validity y.uid x
has_key_sym x y = ground arith

IsUnique-append :
    (xs : List Message) (x : Message)
    → IsUnique xs
    → any (has_key x.mailbox x.uid_validity x.uid) xs ≡ false
    → IsUnique (xs ++ x ∷ [])
IsUnique-append [] x h k = (refl, tt)
IsUnique-append (y ∷ xs) x (n, h) k =
    let (k1, k2) = or_false _ _ k in
    (any-append_false _ xs x n (sym (has_key_sym x y) ∙ k1), IsUnique-append xs x h k2)

-- Where other processes keep it so, a run of `sync_mailbox`, failed or not, leaves no two messages
-- with one mailbox, UIDVALIDITY and UID.
pub sync_mailbox-IsUnique :
    (w : World) (m : Mailbox) (batch_size : ℕ) (db : Database)
    → ((uid : ℕ) (d : Database) → IsUnique d.messages → IsUnique (w.others uid d).messages)
    → ((d : Database) → IsUnique d.messages → IsUnique (w.others_at_end d).messages)
    → IsUnique db.messages
    → IsUnique (sync_mailbox w m batch_size db).1.messages
sync_mailbox-IsUnique w m batch_size db others ending h =
    Keeps-sync_mailbox w m IsUnique
      (record {
        adding = λ msgs x u q new. IsUnique-append msgs x u new;
        by_others = others;
        by_others_at_end = ending;
      })
      batch_size db h

-- Every approved message satisfies `A`.
abbrev pub ApprovedOnly : (Message → Type 0) → List Message → Type 0
ApprovedOnly A = All (λ x. x.state ≡ approved → A x)

quarantined_not_approved : (x : Message) → x.state ≡ quarantined → x.state ≡ approved → ⊥
quarantined_not_approved x h k = ground arith

-- A run of `sync_mailbox`, failed or not, approves nothing: whatever holds of the approved messages,
-- and is kept by the other processes, holds of the approved messages after the run.
pub sync_mailbox-ApprovedOnly :
    (w : World) (m : Mailbox) (batch_size : ℕ) (db : Database) (A : Message → Type 0)
    → ((uid : ℕ) (d : Database)
        → ApprovedOnly A d.messages
        → ApprovedOnly A (w.others uid d).messages)
    → ((d : Database) → ApprovedOnly A d.messages → ApprovedOnly A (w.others_at_end d).messages)
    → ApprovedOnly A db.messages
    → ApprovedOnly A (sync_mailbox w m batch_size db).1.messages
sync_mailbox-ApprovedOnly w m batch_size db A others ending h =
    Keeps-sync_mailbox w m (ApprovedOnly A)
      (record {
        adding = λ msgs x u q new.
            All-append _ msgs (x ∷ []) u (λ k. absurd (quarantined_not_approved x q k), tt);
        by_others = others;
        by_others_at_end = ending;
      })
      batch_size db h
