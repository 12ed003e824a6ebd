-- ===== src/Api/Approved.antt =====
-- What the read-only API of app/gateway/api.py can show: approved messages, and no others.
use mathlib.Core.List.{Memᴰ}
use mathlib.Core.Path.{subst}
use mailgate.Api.{
  Request, ApprovedMessage, is_approved, view_row, approved_view, MessageJson, message_json, Body,
  error_body, items_body, message_body, categories_body, newer, insert_ordered, order_newest,
  clamp_limit, text_or, list_newest, messages, find_id, detail_or_404, message_summary,
}
use mailgate.Common.{
  length, take, any, filter, length-take-le, All, All-take, codes, Unicode, SignedNumber, int,
  Bool-cases, ◌==◌, nat_beq_iff, nat_eq, list_eq, option_eq, ℕ, suc, ◌≤◌, ◌≡◌, refl, sym, ap, ◌∙◌,
  ◌↔◌, inl, inr, Bool, true, false, ◌&&◌, Option, none, some, List, [], ◌∷◌, map, arith,
}
use mailgate.Models.{approved, state_eq, Message, Database, signal_eq, auth_eq}

-- An approved message of the database.
pub record IsSource (db : Database) (x : ApprovedMessage) : Type 0 where
  pub message : Message
  pub stored : Memᴰ message db.messages
  pub approval : message.state ≡ approved
  pub row : x ≡ view_row message

view_rows :
    (db : Database) (ms : List Message)
    → ((m : Message) → Memᴰ m ms → Memᴰ m db.messages)
    → All (IsSource db) (map view_row (filter is_approved ms))
view_rows db [] incl = tt
view_rows db (m ∷ ms) incl = elim (Bool-cases (is_approved m)) [
  | inl yes' ↦ rw yes' (
    record {
      message = m;
      stored = incl m (Memᴰ.head refl);
      approval = (state_eq.agrees m.state approved).0 yes';
      row = refl;
    },
    view_rows db ms (λ x h. incl x (Memᴰ.tail h)),
  )
  | inr no' ↦ rw no' (view_rows db ms (λ x h. incl x (Memᴰ.tail h)))
]

approved_view-IsSource : (db : Database) → All (IsSource db) (approved_view db)
unfolding approved_view
approved_view-IsSource db = view_rows db db.messages (λ m h. h)

module _ (P : ApprovedMessage → Type 0) where
  All-insert_ordered :
      (a : ApprovedMessage) (xs : List ApprovedMessage)
      → P a
      → All P xs
      → All P (insert_ordered a xs)
  unfolding insert_ordered
  All-insert_ordered a [] h k = (h, tt)
  All-insert_ordered a (b ∷ bs) h (k, ks) = elim (Bool-cases (newer a b)) [
    | inl e ↦ rw e (h, (k, ks))
    | inr e ↦ rw e (k, All-insert_ordered a bs h ks)
  ]

  All-order_newest : (xs : List ApprovedMessage) → All P xs → All P (order_newest xs)
  unfolding order_newest
  All-order_newest [] h = tt
  All-order_newest (x ∷ xs) (h, hs) =
      All-insert_ordered x (order_newest xs) h (All-order_newest xs hs)

-- What a response shows of the messages.
abbrev pub ShowsApproved : Database → Body → Type 0
ShowsApproved db (error_body e) = Unit
ShowsApproved db (items_body items limit) =
    All (λ j. (x : ApprovedMessage) × IsSource db x × (j ≡ message_json false x)) items
    × (length items ≤ limit)
    × (1 ≤ limit)
    × (limit ≤ 100)
ShowsApproved db (message_body j) =
    (x : ApprovedMessage) × IsSource db x × (j ≡ message_json true x)
ShowsApproved db (categories_body cs) = Unit

All-json :
    (db : Database) (xs : List ApprovedMessage)
    → All (IsSource db) xs
    → All
        (λ j. (x : ApprovedMessage) × IsSource db x × (j ≡ message_json false x))
        (map (message_json false) xs)
All-json db [] h = tt
All-json db (x ∷ xs) (h, hs) = ((x, h, refl), All-json db xs hs)

length-map :
    (f : ApprovedMessage → MessageJson) (xs : List ApprovedMessage) → length (map f xs) ≡ length xs
length-map f [] = refl
length-map f (x ∷ xs) = ap suc (length-map f xs)

clamp_limit_bounds : (n : SignedNumber) → (1 ≤ clamp_limit n) × (clamp_limit n ≤ 100)
unfolding clamp_limit
clamp_limit_bounds n = (omega arith, omega arith)

list_newest-ShowsApproved :
    (n : Option SignedNumber) (db : Database) → ShowsApproved db (list_newest n db).body
list_newest-ShowsApproved none db = tt
list_newest-ShowsApproved (some n) db =
    let shown : List ApprovedMessage = take (clamp_limit n) (order_newest (approved_view db)) in
    let (lower, upper) = clamp_limit_bounds n in
    (
      All-json db shown (
          All-take (IsSource db) (clamp_limit n) (order_newest (approved_view db))
            (All-order_newest (IsSource db) (approved_view db) (approved_view-IsSource db))),
      omega (
        arith,
        length-map (message_json false) shown,
        length-take-le (clamp_limit n) (order_newest (approved_view db)),
      ),
      lower,
      upper,
    )

-- Whatever the parameters, the list of messages shows only approved messages of the database, without
-- their texts and links, at most as many as its limit, and the limit is between 1 and 100.
pub messages-ShowsApproved :
    (u : Unicode) (request : Request) (db : Database)
    → ShowsApproved db (messages u request db).body
unfolding messages
messages-ShowsApproved u request db =
    elim (Bool-cases (text_or request.state (codes "approved") == codes "approved")) [
      | inl e ↦ rw e (list_newest-ShowsApproved (int u (text_or request.limit (codes "50"))) db)
      | inr e ↦ rw e tt
    ]

-- The ids of approved messages.
abbrev pub has_approved_id : ℕ → Message → Bool
has_approved_id k m = is_approved m && m.id == k

find_view :
    (k : ℕ) (ms : List Message)
    → find_id k (map view_row (filter is_approved ms)) ≡ none ↔ (any (has_approved_id k) ms ≡ false)
find_view k [] = ground arith
find_view k (m ∷ ms) = elim (Bool-cases (is_approved m)) [
  | inl e ↦ rw e (ground (arith, find_view k ms))
  | inr e ↦ rw e (find_view k ms)
]

some_injective : {x y : ApprovedMessage} → some x ≡ some y → x ≡ y
some_injective h = cc

find_id-All :
    (P : ApprovedMessage → Type 0) (k : ℕ) (xs : List ApprovedMessage) (x : ApprovedMessage)
    → All P xs
    → find_id k xs ≡ some x
    → P x × (x.id ≡ k)
find_id-All P k [] x h e = cc
find_id-All P k (y ∷ ys) x (h, hs) e = elim (Bool-cases (y.id == k)) [
  | inl found ↦
      let same : y ≡ x = some_injective (rw found at e) in
      (subst P same h, sym (ap (λ (a : ApprovedMessage). a.id) same) ∙ (nat_beq_iff y.id k).0 found)
  | inr missed ↦ find_id-All P k ys x hs (rw missed at e)
]

detail-ShowsApproved :
    (db : Database) (k : ℕ) (o : Option ApprovedMessage)
    → find_id k (approved_view db) ≡ o
    → ShowsApproved db (detail_or_404 o).body
detail-ShowsApproved db k none e = tt
detail-ShowsApproved db k (some x) e =
    (x, (find_id-All (IsSource db) k (approved_view db) x (approved_view-IsSource db) e).0, refl)

detail_404 : (o : Option ApprovedMessage) → ((detail_or_404 o).status ≡ 404) ↔ (o ≡ none)
detail_404 o = ground arith

-- The details of a message are shown only if the database holds it as approved, and the answer is 404
-- exactly when no approved message has the identifier: a quarantined one is not told from a missing
-- one.
pub message_summary-ShowsApproved :
    (k : ℕ) (db : Database)
    → ShowsApproved db (message_summary k db).body
      × (((message_summary k db).status ≡ 404) ↔ (any (has_approved_id k) db.messages ≡ false))
unfolding message_summary approved_view
message_summary-ShowsApproved k db =
    let o : Option ApprovedMessage = find_id k (approved_view db) in
    let (to, from) = detail_404 o in
    let (down, up) = find_view k db.messages in
    (detail-ShowsApproved db k o refl, (λ h. down (to h), λ h. from (up h)))
