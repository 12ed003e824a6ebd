-- ===== src/Api.antt =====
-- app/gateway/api.py: the read-only API, over the view `mailgate_api_approved_message` that
-- app/gateway/migrations/0004_api_boundary_and_mailbox_version.py creates. The child `Authorize`
-- models app/gateway/api_auth.py.
pub mod Authorize
pub mod Approved
pub mod RateLimit
pub mod Grants
mod Tests
use mailgate.Common.{
  take, filter, Text, codes, Unicode, SignedNumber, int, ltb, leb, if◌then◌else◌, ◌==◌, nat_eq,
  list_eq, option_eq, ℕ, ◌+◌, min, max, Bool, true, false, not, Option, none, some, List, [], ◌∷◌,
  map,
}
use mailgate.Models.{approved, Risk, Message, Database, signal_eq, state_eq, auth_eq}

pub record Request : Type 0 where
  pub method : Text
  -- the Authorization header, empty if there is none
  pub authorization : Text
  pub path : Text
  -- the parameters `state` and `limit` of the query
  pub state : Option Text
  pub limit : Option Text

pub record ApprovedMessage : Type 0 where
  pub id : ℕ
  pub sender : Text
  pub sender_name : Text
  pub subject : Text
  pub received_at : Option ℕ
  pub category : Text
  pub priority : ℕ
  pub risk : Risk
  pub summary : Text
  pub sanitized_text : Text
  pub links : List Text
  pub ingested_at : ℕ

abbrev pub is_approved : Message → Bool
is_approved m = m.state == approved

abbrev pub view_row : Message → ApprovedMessage
view_row m = record {
  id = m.id;
  sender = m.sender;
  sender_name = m.sender_name;
  subject = m.subject;
  received_at = m.received_at;
  category = m.category;
  priority = m.priority;
  risk = m.risk;
  summary = m.summary;
  sanitized_text = m.sanitized_text;
  links = m.links;
  ingested_at = m.ingested_at;
}

-- The view: `SELECT … FROM gateway_message WHERE state = 'approved'`.
unfoldable pub approved_view : Database → List ApprovedMessage
approved_view db = map view_row (filter is_approved db.messages)

-- `_message_json`; `detail` is there if `detail=True`: the text and the links.
pub record MessageJson : Type 0 where
  pub id : ℕ
  pub sender : Text
  pub sender_name : Text
  pub subject : Text
  pub received_at : Option ℕ
  pub category : Text
  pub priority : ℕ
  pub risk : Risk
  pub summary : Text
  pub detail : Option (Text × List Text)

unfoldable pub message_json : Bool → ApprovedMessage → MessageJson
message_json detail item = record {
  id = item.id;
  sender = item.sender;
  sender_name = item.sender_name;
  subject = item.subject;
  received_at = item.received_at;
  category = item.category;
  priority = item.priority;
  risk = item.risk;
  summary = item.summary;
  detail = if detail then some (item.sanitized_text, item.links) else none;
}

pub data Body : Type 0 where
  error_body : Text → Body
  items_body : List MessageJson → ℕ → Body
  message_body : MessageJson → Body
  categories_body : List (Text × ℕ) → Body

pub record Response : Type 0 where
  pub status : ℕ
  pub body : Body
  pub retry_after : Option ℕ
  pub no_store : Bool

-- `_error`
abbrev pub error : ℕ → Text → Response
error status name = record {
  status = status;
  body = error_body name;
  retry_after = none;
  no_store = false;
}

abbrev pub json_response : Body → Response
json_response body = record { status = 200; body = body; retry_after = none; no_store = false }

-- `ORDER BY received_at DESC, ingested_at DESC`, where PostgreSQL puts a missing date first.
abbrev pub newer_by : ℕ → ℕ → Option ℕ → Option ℕ → Bool
newer_by i j none none = leb j i
newer_by i j none (some _) = true
newer_by i j (some _) none = false
newer_by i j (some s) (some t) = if s == t then leb j i else ltb t s

abbrev pub newer : ApprovedMessage → ApprovedMessage → Bool
newer a b = newer_by a.ingested_at b.ingested_at a.received_at b.received_at

unfoldable pub insert_ordered : ApprovedMessage → List ApprovedMessage → List ApprovedMessage
insert_ordered a [] = a ∷ []
insert_ordered a (b ∷ bs) =
    let rest = insert_ordered a bs in if newer a b then a ∷ b ∷ bs else b ∷ rest

unfoldable pub order_newest : List ApprovedMessage → List ApprovedMessage
unfolding insert_ordered
order_newest [] = []
order_newest (a ∷ as') = insert_ordered a (order_newest as')

-- `min(max(n, 1), 100)`
unfoldable pub clamp_limit : SignedNumber → ℕ
clamp_limit n = min (max (if n.is_negative then 0 else n.magnitude) 1) 100

abbrev pub text_or : Option Text → Text → Text
text_or none d = d
text_or (some s) d = s

abbrev pub list_newest : Option SignedNumber → Database → Response
list_newest none db = error 400 (codes "invalid_limit")
list_newest (some n) db = json_response (
    items_body (map (message_json false) (take (clamp_limit n) (order_newest (approved_view db))))
      (clamp_limit n))

-- `messages`
unfoldable pub messages : Unicode → Request → Database → Response
unfolding approved_view message_json order_newest clamp_limit int
messages u request db =
    if not (text_or request.state (codes "approved") == codes "approved")
    then error 400 (codes "only_approved_state_is_available")
    else list_newest (int u (text_or request.limit (codes "50"))) db

abbrev pub find_id : ℕ → List ApprovedMessage → Option ApprovedMessage
find_id k [] = none
find_id k (x ∷ xs) = if x.id == k then some x else find_id k xs

abbrev pub detail_or_404 : Option ApprovedMessage → Response
detail_or_404 none = error 404 (codes "not_found")
detail_or_404 (some item) = json_response (message_body (message_json true item))

-- `message_summary`
unfoldable pub message_summary : ℕ → Database → Response
unfolding approved_view message_json
message_summary message_id db = detail_or_404 (find_id message_id (approved_view db))

abbrev pub text_before : Text → Text → Bool
text_before [] t = true
text_before (c ∷ s) [] = false
text_before (c ∷ s) (d ∷ t) = if c == d then text_before s t else ltb c d

-- a count for each category, in the order of the categories
abbrev pub count_category : Text → List (Text × ℕ) → List (Text × ℕ)
count_category c [] = (c, 1) ∷ []
count_category c ((d, n) ∷ cs) =
    let rest = count_category c cs in
    if c == d
    then (d, n + 1) ∷ cs
    else if text_before c d
    then (c, 1) ∷ (d, n) ∷ cs
    else (d, n) ∷ rest

abbrev pub count_categories : List ApprovedMessage → List (Text × ℕ)
count_categories [] = []
count_categories (x ∷ xs) = count_category x.category (count_categories xs)

-- `categories`
unfoldable pub categories : Database → Response
unfolding approved_view
categories db = json_response (categories_body (count_categories (approved_view db)))
