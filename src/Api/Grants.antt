-- ===== src/Api/Grants.antt =====
-- When a request of the API is answered: `token_required` of app/gateway/api.py over
-- app/gateway/api_auth.py, and the agreement of the two implementations of the check.
use mathlib.Core.List.{Memᴰ}
use mailgate.Api.{Request, Response}
use mailgate.Api.Authorize.{
  rate_limit_per_minute, AuthStatus, unauthorized, rate_limited, authorized, token_actor,
  recent_reads, find_token, record_read, limit_and_record, is_usable, orm_checked, orm_authorize,
  is_hex, sql_selected, sql_authorize, authorize_api_request, respond, token_required,
}
use mailgate.Common.{
  length, drop, any, all, Text, codes, starts_with, ltb, leb, if-split, Bool-cases, ◌==◌, nat_eq,
  list_eq, option_eq, ℕ, ◌≤◌, ◌<◌, ◌≡◌, refl, sym, ◌⊎◌, inl, inr, Bool, true, false, not, ◌&&◌,
  ◌||◌, Option, none, some, List, [], ◌∷◌, arith,
}
use mailgate.Models.{ApiToken, Database, signal_eq, state_eq, auth_eq}

-- The token that lets a read through.
pub record IsGrant (now : ℕ) (hash : Text) (db : Database) (t : ApiToken) : Type 0 where
  pub stored : Memᴰ t db.tokens
  pub hashed : t.token_hash ≡ hash
  pub usable : is_usable now t ≡ true
  pub below_limit : recent_reads now (token_actor t) db < rate_limit_per_minute

-- The token that has been read as often as it may be.
pub record IsExhausted (now : ℕ) (hash : Text) (db : Database) (t : ApiToken) : Type 0 where
  pub stored : Memᴰ t db.tokens
  pub hashed : t.token_hash ≡ hash
  pub usable : is_usable now t ≡ true
  pub at_limit : rate_limit_per_minute ≤ recent_reads now (token_actor t) db

-- Why a check knows no token: the database function refuses the hash or the path by its shape, or no
-- usable token has the hash, or the first that has it is not usable.
abbrev pub IsUnknown : ℕ → Text → Text → Database → Type 0
IsUnknown now hash path db =
    (not (all is_hex hash && length hash == 64) || ltb 2048 (length path) ≡ true)
    ⊎ ((find_token (λ t. t.token_hash == hash && is_usable now t) db.tokens ≡ none)
        ⊎ ((t : ApiToken) × (find_token (λ x. x.token_hash == hash) db.tokens ≡ some t)
            × (is_usable now t ≡ false)))

-- A check refuses and leaves the database as it is, or records the read of a token.
abbrev pub Checked : ℕ → Text → Text → Database → AuthStatus × Database → Type 0
Checked now hash path db (unauthorized, db') = IsUnknown now hash path db × (db' ≡ db)
Checked now hash path db (rate_limited, db') =
    ((t : ApiToken) × IsExhausted now hash db t) × (db' ≡ db)
Checked now hash path db (authorized, db') =
    (t : ApiToken) × IsGrant now hash db t × (db' ≡ record_read now hash path t db)

find_token-unusable :
    (now : ℕ) (hash : Text) (ts : List ApiToken)
    → find_token (λ t. t.token_hash == hash) ts ≡ none
    → find_token (λ t. t.token_hash == hash && is_usable now t) ts ≡ none
find_token-unusable now hash [] h = refl
find_token-unusable now hash (x ∷ xs) h = elim (Bool-cases (x.token_hash == hash)) [
  | inl e ↦ cc (rw e at h)
  | inr e ↦ rw e (find_token-unusable now hash xs (rw e at h))
]

find_token-some :
    (p : ApiToken → Bool) (ts : List ApiToken) (t : ApiToken)
    → find_token p ts ≡ some t
    → Memᴰ t ts × (p t ≡ true)
find_token-some p [] t e = cc
find_token-some p (x ∷ xs) t e = elim (Bool-cases (p x)) [
  | inl yes' ↦
      let same : x ≡ t = some_token (rw yes' at e) in (Memᴰ.head (sym same), rw same at yes')
  | inr no' ↦ let (m, h) = find_token-some p xs t (rw no' at e) in (Memᴰ.tail m, h)
]
  where
    some_token : {a b : ApiToken} → some a ≡ some b → a ≡ b
    some_token h = cc

module _ (now : ℕ) (hash path : Text) (db : Database) where
  limit_and_record-Checked :
      (t : ApiToken)
      → Memᴰ t db.tokens
      → t.token_hash ≡ hash
      → is_usable now t ≡ true
      → Checked now hash path db (limit_and_record now hash path t db)
  limit_and_record-Checked t m e u =
      elim (Bool-cases (leb rate_limit_per_minute (recent_reads now (token_actor t) db))) [
        | inl full ↦
            rw full
              ((t, record { stored = m; hashed = e; usable = u; at_limit = ground arith }), refl)
        | inr room ↦
            rw room
              (t, record { stored = m; hashed = e; usable = u; below_limit = ground arith }, refl)
      ]

  orm_checked-Checked :
      (o : Option ApiToken)
      → find_token (λ t. t.token_hash == hash) db.tokens ≡ o
      → Checked now hash path db (orm_checked now hash path o db)
  orm_checked-Checked none e = (inr (inl (find_token-unusable now hash db.tokens e)), refl)
  orm_checked-Checked (some t) e =
      let (m, h) = find_token-some _ db.tokens t e in
      elim (Bool-cases (is_usable now t)) [
        | inl usable ↦
            rw usable (limit_and_record-Checked t m ((list_eq.agrees t.token_hash hash).0 h) usable)
        | inr bad ↦ rw bad (inr (inr (t, e, bad)), refl)
      ]

  sql_selected-Checked :
      (o : Option ApiToken)
      → find_token (λ t. t.token_hash == hash && is_usable now t) db.tokens ≡ o
      → Checked now hash path db (sql_selected now hash path o db)
  sql_selected-Checked none e = (inr (inl e), refl)
  sql_selected-Checked (some t) e =
      let (m, h) = find_token-some _ db.tokens t e in
      let (h1, h2) = both (t.token_hash == hash) (is_usable now t) h in
      limit_and_record-Checked t m ((list_eq.agrees t.token_hash hash).0 h1) h2
    where
      both : (a b : Bool) → a && b ≡ true → (a ≡ true) × (b ≡ true)
      both a b h = ground arith

  authorize-Checked :
      (is_postgresql : Bool)
      → Checked now hash path db (authorize_api_request is_postgresql now hash path db)
  unfolding authorize_api_request
  authorize-Checked false = orm_checked-Checked _ refl
  authorize-Checked true =
      elim (Bool-cases (not (all is_hex hash && length hash == 64) || ltb 2048 (length path))) [
        | inl bad ↦ rw bad (inl bad, refl)
        | inr good ↦ rw good (sql_selected-Checked _ refl)
      ]

-- Why a request is refused, by the status of the answer.
abbrev pub IsRefused : (Text → Text) → ℕ → Request → Database → ℕ → Type 0
IsRefused sha256 now request db status =
    ((status ≡ 405) × (request.method == codes "GET" ≡ false))
    ⊎ (((status ≡ 401)
          × (((not (starts_with (codes "Bearer ") request.authorization)
                  || ltb 256 (length request.authorization))
                ≡ true)
              ⊎ IsUnknown now (sha256 (drop 7 request.authorization)) request.path db))
        ⊎ ((status ≡ 429)
            × ((t : ApiToken) × IsExhausted now (sha256 (drop 7 request.authorization)) db t)))

-- The answer to a request: an error that leaves the database as it is, or the view's answer, on the
-- database in which the read of a token is recorded.
abbrev pub IsAnswer :
    (Text → Text) → ℕ → Request → (Database → Response) → Database → Response × Database → Type 0
IsAnswer sha256 now request view db (r, db') =
    (IsRefused sha256 now request db r.status × (db' ≡ db))
    ⊎ ((t : ApiToken) × IsGrant now (sha256 (drop 7 request.authorization)) db t
        × (db' ≡ record_read now (sha256 (drop 7 request.authorization)) request.path t db)
        × (r ≡ record (view db') { no_store = true })
        × (request.method ≡ codes "GET")
        × (starts_with (codes "Bearer ") request.authorization ≡ true)
        × (length request.authorization ≤ 256))

respond-IsAnswer :
    (sha256 : Text → Text) (now : ℕ) (request : Request) (view : Database → Response)
    (db : Database) (r : AuthStatus × Database)
    → request.method ≡ codes "GET"
    → starts_with (codes "Bearer ") request.authorization ≡ true
    → length request.authorization ≤ 256
    → Checked now (sha256 (drop 7 request.authorization)) request.path db r
    → IsAnswer sha256 now request view db (respond view r)
respond-IsAnswer sha256 now request view db (rate_limited, db') g b s (t, e) =
    inl (inr (inr (refl, t)), e)
respond-IsAnswer sha256 now request view db (unauthorized, db') g b s (why, e) =
    inl (inr (inl (refl, inr why)), e)
respond-IsAnswer sha256 now request view db (authorized, db') g b s (t, h, e) =
    inr (t, h, e, refl, g, b, s)

-- Every request that is refused leaves the database as it is, and is refused with 405 since it is no GET,
-- with 401 since its authorization does not begin with `Bearer ` or has more than 256 characters, since
-- the database function does not take the hash or the path, or since no token with the hash is usable or
-- the first one is not, or with 429 since a usable token with the hash has sixty reads in the last minute.
-- Every other request is a GET with a `Bearer ` of at most 256 characters, and what follows it has the
-- hash of a stored token that is not revoked or expired, has the read scope and has fewer than sixty reads
-- in the last minute; then that read is recorded before the view answers.
pub token_required-IsAnswer :
    (is_postgresql : Bool) (sha256 : Text → Text) (now : ℕ) (request : Request)
    (view : Database → Response) (db : Database)
    → IsAnswer sha256 now request view db (token_required is_postgresql sha256 now request view db)
unfolding token_required
token_required-IsAnswer is_postgresql sha256 now request view db =
    if-split (IsAnswer sha256 now request view db) (not (request.method == codes "GET")) _ _
      (λ other'. inl (inl (refl, negated _ other'), refl))
      (λ get'.
        if-split (IsAnswer sha256 now request view db)
          (not (starts_with (codes "Bearer ") request.authorization)
            || ltb 256 (length request.authorization))
          _ _ (λ bad. inl (inr (inl (refl, inl bad)), refl))
          (λ good.
            respond-IsAnswer sha256 now request view db
              (authorize_api_request is_postgresql now (sha256 (drop 7 request.authorization))
                request.path db)
              ((list_eq.agrees request.method (codes "GET")).0 (affirmed _ get')) (bearer _ _ good)
              (short _ _ good)
              (authorize-Checked now (sha256 (drop 7 request.authorization)) request.path db
                is_postgresql)))
  where
    negated : (b : Bool) → not b ≡ true → b ≡ false
    negated b h = ground arith

    affirmed : (b : Bool) → not b ≡ false → b ≡ true
    affirmed b h = ground arith

    bearer : (b : Bool) (n : ℕ) → not b || ltb 256 n ≡ false → b ≡ true
    bearer b n h = ground arith

    short : (b : Bool) (n : ℕ) → not b || ltb 256 n ≡ false → n ≤ 256
    short b n h = ground arith

-- The hashes of the tokens are unique, as their column is.
abbrev pub HasUniqueHashes : List ApiToken → Type 0
HasUniqueHashes [] = Unit
HasUniqueHashes (t ∷ ts) = (any (λ s. s.token_hash == t.token_hash) ts ≡ false) × HasUniqueHashes ts

find_token_absent :
    (now : ℕ) (hash : Text) (ts : List ApiToken)
    → any (λ s. s.token_hash == hash) ts ≡ false
    → find_token (λ t. t.token_hash == hash && is_usable now t) ts ≡ none
find_token_absent now hash [] h = refl
find_token_absent now hash (t ∷ ts) h = ground (arith, find_token_absent now hash ts)

selected_as_checked :
    (now : ℕ) (hash path : Text) (ts : List ApiToken) (db : Database)
    → HasUniqueHashes ts
    → sql_selected now hash path (find_token (λ t. t.token_hash == hash && is_usable now t) ts) db
      ≡ orm_checked now hash path (find_token (λ t. t.token_hash == hash) ts) db
selected_as_checked now hash path [] db h = refl
selected_as_checked now hash path (t ∷ ts) db (n, h) = elim (Bool-cases (t.token_hash == hash)) [
  | inr other' ↦ rw other' (selected_as_checked now hash path ts db h)
  | inl own ↦ elim (Bool-cases (is_usable now t)) [
    | inl usable ↦ rw (own, usable) refl
    | inr bad ↦
        let e : t.token_hash ≡ hash = (list_eq.agrees t.token_hash hash).0 own in
        rw (own, bad, find_token_absent now hash ts (rw e at n)) refl
  ]
]

-- The database function and its fallback agree, in their results and in what they write, on every
-- hash of 64 hexadecimal digits and every path of at most 2048 characters.
pub sql_authorize-eq-orm_authorize :
    (now : ℕ) (hash path : Text) (db : Database)
    → HasUniqueHashes db.tokens
    → all is_hex hash ≡ true
    → length hash ≡ 64
    → length path ≤ 2048
    → sql_authorize now hash path db ≡ orm_authorize now hash path db
unfolding sql_authorize orm_authorize
sql_authorize-eq-orm_authorize now hash path db h hex size short =
    let accepted : not (all is_hex hash && length hash == 64) || ltb 2048 (length path) ≡ false =
      ground arith in
    rw accepted (selected_as_checked now hash path db.tokens db h)
