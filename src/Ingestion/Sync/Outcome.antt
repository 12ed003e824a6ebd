-- ===== src/Ingestion/Sync/Outcome.antt =====
-- app/gateway/ingestion.py: what holds where a step of `sync_mailbox` returns.
use mailgate.Common.{Result, ok, err, ◌≡◌, refl, List}
use mailgate.Ingestion.{SyncError, Reply, broken, reply}
use mailgate.Ingestion.Sync.{Run, continue, with_reply}
use mailgate.Models.{Message, Database}

abbrev pub Ensures : {A : Type 0} → (A → Database → Type 0) → Result SyncError A × Database → Type 0
Ensures P (ok a, db) = P a db
Ensures P (err e, db) = Unit

module _ {A B : Type 0} (P : B → Database → Type 0) where
  pub Ensures-continue :
      (R : A → Database → Type 0) (r : Result SyncError A × Database) (k : A → Run B)
      → Ensures R r
      → ((a : A) (db : Database) → R a db → Ensures P (k a db))
      → Ensures P (continue r k)
  Ensures-continue R (ok a, db) k h g = g a db h
  Ensures-continue R (err e, db) k h g = tt

  pub Ensures-with_reply :
      (r : Reply A) (k : A → Run B) (db : Database)
      → ((a : A) → r ≡ reply a → Ensures P (k a db))
      → Ensures P (with_reply r k db)
  Ensures-with_reply broken k db g = tt
  Ensures-with_reply (reply a) k db g = g a refl

pub Ensures-and :
    {A : Type 0} (P : Database → Type 0) (Q : List Message → Type 0)
    (r : Result SyncError A × Database)
    → Ensures (λ _. P) r
    → Q r.1.messages
    → Ensures (λ _ db. Q db.messages × P db) r
Ensures-and P Q (ok a, db) h k = (k, h)
Ensures-and P Q (err e, db) h k = tt

pub Ensures-ok :
    {A : Type 0} (P : Database → Type 0) (r : Result SyncError A × Database) (n : A)
    → Ensures (λ _. P) r
    → r.0 ≡ ok n
    → P r.1
Ensures-ok P (ok a, db) n h e = h
Ensures-ok P (err x, db) n h e = cc
