-- ===== src/Owner/Decisions.antt =====
-- `message_decide` of app/gateway/views.py: the one place where a message becomes approved.
use mailgate.Common.{
  any, modify, Text, codes, if◌then◌else◌, Bool-cases, ◌==◌, nat_eq, list_eq, option_eq, ℕ, ◌≡◌,
  refl, ap, ◌⊎◌, inl, inr, Bool, true, false, not, Option, none, some, List, [], ◌∷◌, ◌++◌, arith,
}
use mailgate.Models.{
  State, approved, rejected, Message, Database, audit, signal_eq, state_eq, auth_eq,
}
use mailgate.Owner.{Page, redirected, not_found, not_allowed}

-- `decision`: the two states that the page accepts.
abbrev pub decision_state : Text → Option State
decision_state word =
    if word == codes "approved"
    then some approved
    else if word == codes "rejected"
    then some rejected
    else none

abbrev pub decided : ℕ → State → Message → Message
decided now s m = record m { state = s; decided_at = some now }

-- the transaction
unfoldable pub record_decision : ℕ → Text → ℕ → State → Text → Database → Database
unfolding audit
record_decision now user message_id s word db =
    audit now user (codes "message." ++ word) (some (codes "Message", message_id)) []
      (record db { messages = modify (λ m. m.id == message_id) (decided now s) db.messages })

abbrev pub decide_known : ℕ → Text → ℕ → Text → Option State → Database → Page × Database
decide_known now user message_id word none db = (not_allowed, db)
decide_known now user message_id word (some s) db =
    (redirected (codes "message-detail"), record_decision now user message_id s word db)

-- `message_decide`: `decision` is the field of the form, empty if it is missing
unfoldable pub message_decide : ℕ → Text → Bool → ℕ → Text → Database → Page × Database
unfolding record_decision
message_decide now user is_post message_id word db =
    if not is_post
    then (not_allowed, db)
    else if not (any (λ m. m.id == message_id) db.messages)
    then (not_found, db)
    else decide_known now user message_id word (decision_state word) db

-- A message is as it was, or it is the one that was decided, in a state of the two.
abbrev pub IsDecided : ℕ → ℕ → Message → Message → Type 0
IsDecided now message_id x y =
    (y ≡ x) ⊎ ((x.id ≡ message_id) × ((y ≡ decided now approved x) ⊎ (y ≡ decided now rejected x)))

abbrev pub AreDecided : ℕ → ℕ → List Message → List Message → Type 0
AreDecided now message_id [] [] = Unit
AreDecided now message_id (x ∷ xs) (y ∷ ys) =
    IsDecided now message_id x y × AreDecided now message_id xs ys
AreDecided now message_id _ _ = ⊥

AreDecided-same : (now message_id : ℕ) (xs : List Message) → AreDecided now message_id xs xs
AreDecided-same now message_id [] = tt
AreDecided-same now message_id (x ∷ xs) = (inl refl, AreDecided-same now message_id xs)

-- The states that the page accepts.
abbrev IsDecision : State → Type 0
IsDecision s = (s ≡ approved) ⊎ (s ≡ rejected)

modify-AreDecided :
    (now message_id : ℕ) (s : State) (xs : List Message)
    → IsDecision s
    → AreDecided now message_id xs (modify (λ m. m.id == message_id) (decided now s) xs)
modify-AreDecided now message_id s [] h = tt
modify-AreDecided now message_id s (x ∷ xs) h = elim (Bool-cases (x.id == message_id)) [
  | inr other' ↦ rw other' (inl refl, modify-AreDecided now message_id s xs h)
  | inl own ↦
      rw own (
        inr ((nat_eq.agrees x.id message_id).0 own, this h),
        modify-AreDecided now message_id s xs h,
      )
]
  where
    this :
        IsDecision s
        → (decided now s x ≡ decided now approved x) ⊎ (decided now s x ≡ decided now rejected x)
    this (inl e) = inl (ap (λ s. decided now s x) e)
    this (inr e) = inr (ap (λ s. decided now s x) e)

decision_state-IsDecision : (word : Text) (s : State) → decision_state word ≡ some s → IsDecision s
decision_state-IsDecision word s h = ground arith

decide_known-AreDecided :
    (now : ℕ) (user : Text) (message_id : ℕ) (word : Text) (o : Option State) (db : Database)
    → decision_state word ≡ o
    → AreDecided now message_id db.messages (decide_known now user message_id word o db).1.messages
unfolding record_decision audit
decide_known-AreDecided now user message_id word none db e =
    AreDecided-same now message_id db.messages
decide_known-AreDecided now user message_id word (some s) db e =
    modify-AreDecided now message_id s db.messages (decision_state-IsDecision word s e)

-- A request to `message_decide` changes no message but the one that it names, and of it only the state,
-- to approved or rejected, and the time of the decision; it changes something only by POST.
pub message_decide-AreDecided :
    (now : ℕ) (user : Text) (is_post : Bool) (message_id : ℕ) (word : Text) (db : Database)
    → let db' = (message_decide now user is_post message_id word db).1 in
      AreDecided now message_id db.messages db'.messages × (is_post ≡ false → db' ≡ db)
unfolding message_decide
message_decide-AreDecided now user false message_id word db =
    (AreDecided-same now message_id db.messages, λ _. refl)
message_decide-AreDecided now user true message_id word db =
    elim (Bool-cases (any (λ m. m.id == message_id) db.messages)) [
      | inr missing ↦ rw missing (AreDecided-same now message_id db.messages, λ _. refl)
      | inl known ↦
          rw known (
            decide_known-AreDecided now user message_id word (decision_state word) db refl,
            λ h. cc,
          )
    ]
