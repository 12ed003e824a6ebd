-- ===== src/Api/RateLimit.antt =====
-- The rate limit of app/gateway/api_auth.py and of the database function, over any sequence of
-- requests.
use mailgate.Api.Authorize.{
  rate_limit_per_minute, token_actor, is_recent_read, recent_reads, find_token, touch, record_read,
  limit_and_record, is_usable, orm_checked, is_hex, sql_selected, authorize_api_request,
}
use mailgate.Common.{
  length, take, all, filter, take_all, All, Text, codes, ltb, leb, Bool-cases, ◌==◌, nat_eq,
  list_eq, option_eq, ℕ, ◌+◌, ◌≤◌, ◌<◌, ◌≡◌, refl, sym, ap, ◌∙◌, inl, inr, Bool, true, false, not,
  ◌&&◌, ◌||◌, Option, none, some, List, [], ◌∷◌, ◌++◌, arith,
}
use mailgate.Models.{ApiToken, AuditEvent, Database, signal_eq, state_eq, auth_eq}

length-filter-append :
    (p : AuditEvent → Bool) (xs ys : List AuditEvent)
    → length (filter p (xs ++ ys)) ≡ length (filter p xs) + length (filter p ys)
length-filter-append p [] ys = omega arith
length-filter-append p (x ∷ xs) ys = ground (arith, length-filter-append p xs ys)

filter_fewer :
    (p q : AuditEvent → Bool)
    → ((e : AuditEvent) → p e ≡ true → q e ≡ true)
    → (xs : List AuditEvent) → length (filter p xs) ≤ length (filter q xs)
filter_fewer p q h [] = omega arith
filter_fewer p q h (x ∷ xs) = elim (Bool-cases (p x)) [
  | inl e ↦ rw (e, h x e) (omega (arith, filter_fewer p q h xs))
  | inr e ↦ rw e (ground (arith, filter_fewer p q h xs))
]

earlier_recent :
    (t t' : ℕ) (actor : Text) (e : AuditEvent)
    → t ≤ t'
    → is_recent_read t' actor e ≡ true
    → is_recent_read t actor e ≡ true
earlier_recent t t' actor e h k = ground arith

recent_reads-later :
    (t t' : ℕ) (actor : Text) (db : Database)
    → t ≤ t'
    → recent_reads t' actor db ≤ recent_reads t actor db
unfolding recent_reads
recent_reads-later t t' actor db h =
    filter_fewer (is_recent_read t' actor) (is_recent_read t actor)
      (λ e. earlier_recent t t' actor e h) db.events

-- The prefixes fit their column.
abbrev pub HasShortPrefix : ApiToken → Type 0
HasShortPrefix t = length t.prefix ≤ 16

-- At time `now` no token has more than sixty reads in the last minute.
pub record IsLimited (now : ℕ) (db : Database) : Type 0 where
  pub reads : (actor : Text) → recent_reads now actor db ≤ rate_limit_per_minute
  pub prefixes : All HasShortPrefix db.tokens

touch-HasShortPrefix :
    (now : ℕ) (hash : Text) (ts : List ApiToken)
    → All HasShortPrefix ts
    → All HasShortPrefix (touch now hash ts)
touch-HasShortPrefix now hash [] h = tt
touch-HasShortPrefix now hash (t ∷ ts) (h, hs) = elim (Bool-cases (t.token_hash == hash)) [
  | inl e ↦ rw e (h, touch-HasShortPrefix now hash ts hs)
  | inr e ↦ rw e (h, touch-HasShortPrefix now hash ts hs)
]

find_token-HasShortPrefix :
    (p : ApiToken → Bool) (ts : List ApiToken) (t : ApiToken)
    → All HasShortPrefix ts
    → find_token p ts ≡ some t
    → HasShortPrefix t
find_token-HasShortPrefix p [] t h e = cc
find_token-HasShortPrefix p (x ∷ xs) t (h, hs) e = elim (Bool-cases (p x)) [
  | inl yes' ↦ rw (← some_token (rw yes' at e)) h
  | inr no' ↦ find_token-HasShortPrefix p xs t hs (rw no' at e)
]
  where
    some_token : {a b : ApiToken} → some a ≡ some b → a ≡ b
    some_token h = cc

token_actor_whole : (t : ApiToken) → HasShortPrefix t → take 120 (token_actor t) ≡ token_actor t
token_actor_whole t h = take_all 120 (token_actor t) (omega arith)

-- The event of a read.
abbrev read_event : ℕ → Text → ApiToken → AuditEvent
read_event now path t = record {
  actor = take 120 (token_actor t);
  action = codes "api.read";
  object_type = [];
  object_id = none;
  metadata = (codes "path", path) ∷ [];
  created_at = now;
}

-- One read adds at most one to the reads of its own actor, and none to those of another.
recent_reads-record_read :
    (now : ℕ) (hash path actor : Text) (t : ApiToken) (db : Database)
    → (recent_reads now actor (record_read now hash path t db) ≤ recent_reads now actor db + 1)
      × ((take 120 (token_actor t) == actor) ≡ false
          → recent_reads now actor (record_read now hash path t db) ≡ recent_reads now actor db)
unfolding recent_reads record_read
recent_reads-record_read now hash path actor t db =
    let grown =
      length-filter-append (is_recent_read now actor) db.events (read_event now path t ∷ []) in
    (rw grown (ground arith), λ other. rw (grown, other) (omega arith))

record_read-IsLimited :
    (now : ℕ) (hash path : Text) (t : ApiToken) (db : Database)
    → IsLimited now db
    → HasShortPrefix t
    → recent_reads now (token_actor t) db < rate_limit_per_minute
    → IsLimited now (record_read now hash path t db)
record_read-IsLimited now hash path t db h short room = record {
  reads = λ actor.
      let (more, unchanged) = recent_reads-record_read now hash path actor t db in
      elim (Bool-cases (take 120 (token_actor t) == actor)) [
        | inl own ↦
            let e : token_actor t ≡ actor =
              sym (token_actor_whole t short)
              ∙ (list_eq.agrees (take 120 (token_actor t)) actor).0 own in
            omega (arith, more, ap (λ a. recent_reads now a db) e)
        | inr other ↦ rw (unchanged other) (h.reads actor)
      ];
  prefixes = unfold record_read in touch-HasShortPrefix now hash db.tokens h.prefixes;
}

limit_and_record-IsLimited :
    (now : ℕ) (hash path : Text) (t : ApiToken) (db : Database)
    → IsLimited now db
    → HasShortPrefix t
    → IsLimited now (limit_and_record now hash path t db).1
limit_and_record-IsLimited now hash path t db h short =
    elim (Bool-cases (leb rate_limit_per_minute (recent_reads now (token_actor t) db))) [
      | inl full ↦ rw full h
      | inr room ↦ rw room (record_read-IsLimited now hash path t db h short (ground arith))
    ]

module _ (now : ℕ) (hash path : Text) (db : Database) (h : IsLimited now db) where
  orm_checked-IsLimited :
      (o : Option ApiToken)
      → find_token (λ t. t.token_hash == hash) db.tokens ≡ o
      → IsLimited now (orm_checked now hash path o db).1
  orm_checked-IsLimited none e = h
  orm_checked-IsLimited (some t) e = elim (Bool-cases (is_usable now t)) [
    | inl usable ↦ rw usable (
        limit_and_record-IsLimited now hash path t db h
          (find_token-HasShortPrefix _ db.tokens t h.prefixes e))
    | inr bad ↦ rw bad h
  ]

  sql_selected-IsLimited :
      (o : Option ApiToken)
      → find_token (λ t. t.token_hash == hash && is_usable now t) db.tokens ≡ o
      → IsLimited now (sql_selected now hash path o db).1
  sql_selected-IsLimited none e = h
  sql_selected-IsLimited (some t) e =
      limit_and_record-IsLimited now hash path t db h
        (find_token-HasShortPrefix _ db.tokens t h.prefixes e)

  authorize-IsLimited :
      (is_postgresql : Bool)
      → IsLimited now (authorize_api_request is_postgresql now hash path db).1
  unfolding authorize_api_request
  authorize-IsLimited false = orm_checked-IsLimited _ refl
  authorize-IsLimited true =
      elim (Bool-cases (not (all is_hex hash && length hash == 64) || ltb 2048 (length path))) [
        | inl bad ↦ rw bad h
        | inr good ↦ rw good (sql_selected-IsLimited _ refl)
      ]

-- A sequence of requests: each with its time, hash and path.
unfoldable pub run_requests : Bool → List (ℕ × Text × Text) → Database → Database
run_requests is_postgresql [] db = db
run_requests is_postgresql ((now, hash, path) ∷ rs) db =
    run_requests is_postgresql rs (authorize_api_request is_postgresql now hash path db).1

-- The times do not go back, from `now` on.
abbrev pub IsOrdered : ℕ → List (ℕ × Text × Text) → Type 0
IsOrdered now [] = Unit
IsOrdered now ((t, hash, path) ∷ rs) = (now ≤ t) × IsOrdered t rs

abbrev pub last_time : ℕ → List (ℕ × Text × Text) → ℕ
last_time now [] = now
last_time now ((t, hash, path) ∷ rs) = last_time t rs

-- Whatever the requests, in the order of their times, by the database function or by its fallback: at
-- no time has an actor more than sixty recorded reads in the last minute.
pub run_requests-IsLimited :
    (is_postgresql : Bool) (rs : List (ℕ × Text × Text)) (now : ℕ) (db : Database)
    → IsOrdered now rs
    → IsLimited now db
    → IsLimited (last_time now rs) (run_requests is_postgresql rs db)
unfolding run_requests
run_requests-IsLimited is_postgresql [] now db o h = h
run_requests-IsLimited is_postgresql ((t, hash, path) ∷ rs) now db (le, o) h =
    run_requests-IsLimited is_postgresql rs t _ o (
      authorize-IsLimited t hash path db
        (record {
          reads = λ actor. omega (arith, recent_reads-later now t actor db le, h.reads actor);
          prefixes = h.prefixes;
        })
        is_postgresql)
