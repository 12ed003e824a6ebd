-- ===== src/Api/Authorize.antt =====
-- app/gateway/api_auth.py: `_orm_authorize`, and the database function `mailgate_api_authorize` of
-- app/gateway/migrations/0004_api_boundary_and_mailbox_version.py that `authorize_api_request` calls
-- in production; and the wrapper `token_required` of app/gateway/api.py.
use mailgate.Api.{Request, Response, error}
use mailgate.Common.{
  length, drop, all, filter, Text, codes, in_range, starts_with, ltb, leb, if◌then◌else◌, ◌==◌,
  nat_eq, list_eq, option_eq, ℕ, ◌+◌, Bool, true, not, ◌&&◌, ◌||◌, Option, none, some, List, [],
  ◌∷◌, ◌++◌,
}
use mailgate.Models.{ApiToken, AuditEvent, Database, audit, active, signal_eq, state_eq, auth_eq}

abbrev pub rate_limit_per_minute : ℕ
rate_limit_per_minute = 60

pub data AuthStatus : Type 0 where
  unauthorized rate_limited authorized : AuthStatus

abbrev pub read_scope : Text
read_scope = codes "messages:read:approved"

abbrev pub token_actor : ApiToken → Text
token_actor t = codes "token:" ++ t.prefix

-- The reads of an actor since one minute before `now`.
abbrev pub is_recent_read : ℕ → Text → AuditEvent → Bool
is_recent_read now actor e =
    e.actor == actor && e.action == codes "api.read" && leb now (e.created_at + 60)

unfoldable pub recent_reads : ℕ → Text → Database → ℕ
recent_reads now actor db = length (filter (is_recent_read now actor) db.events)

abbrev pub find_token : (ApiToken → Bool) → List ApiToken → Option ApiToken
find_token p [] = none
find_token p (t ∷ ts) = if p t then some t else find_token p ts

abbrev pub touch : ℕ → Text → List ApiToken → List ApiToken
touch now hash [] = []
touch now hash (t ∷ ts) =
    (if t.token_hash == hash then record t { last_used_at = some now } else t) ∷ touch now hash ts

-- What an authorized read writes: the time of the last use, and the audit event.
unfoldable pub record_read : ℕ → Text → Text → ApiToken → Database → Database
unfolding audit
record_read now hash path t db =
    audit now (token_actor t) (codes "api.read") none ((codes "path", path) ∷ [])
      (record db { tokens = touch now hash db.tokens })

-- the part behind the checks of the token
abbrev pub limit_and_record : ℕ → Text → Text → ApiToken → Database → AuthStatus × Database
limit_and_record now hash path t db =
    if leb rate_limit_per_minute (recent_reads now (token_actor t) db)
    then (rate_limited, db)
    else (authorized, record_read now hash path t db)

abbrev pub is_usable : ℕ → ApiToken → Bool
is_usable now t = active now t && t.scope == read_scope

abbrev pub orm_checked : ℕ → Text → Text → Option ApiToken → Database → AuthStatus × Database
orm_checked now hash path none db = (unauthorized, db)
orm_checked now hash path (some t) db =
    if not (is_usable now t) then (unauthorized, db) else limit_and_record now hash path t db

-- `_orm_authorize`
unfoldable pub orm_authorize : ℕ → Text → Text → Database → AuthStatus × Database
unfolding active recent_reads record_read
orm_authorize now hash path db =
    orm_checked now hash path (find_token (λ t. t.token_hash == hash) db.tokens) db

abbrev pub is_hex : ℕ → Bool
is_hex c = in_range b'0' b'9' c || in_range b'a' b'f' c

abbrev pub sql_selected : ℕ → Text → Text → Option ApiToken → Database → AuthStatus × Database
sql_selected now hash path none db = (unauthorized, db)
sql_selected now hash path (some t) db = limit_and_record now hash path t db

-- `mailgate_api_authorize`
unfoldable pub sql_authorize : ℕ → Text → Text → Database → AuthStatus × Database
unfolding active recent_reads record_read
sql_authorize now hash path db =
    if not (all is_hex hash && length hash == 64) || ltb 2048 (length path)
    then (unauthorized, db)
    else sql_selected now hash path
        (find_token (λ t. t.token_hash == hash && is_usable now t) db.tokens) db

-- `authorize_api_request`
unfoldable pub authorize_api_request : Bool → ℕ → Text → Text → Database → AuthStatus × Database
unfolding orm_authorize sql_authorize
authorize_api_request is_postgresql now hash path db =
    if is_postgresql then sql_authorize now hash path db else orm_authorize now hash path db

abbrev pub respond : (Database → Response) → AuthStatus × Database → Response × Database
respond view (rate_limited, db) =
    (record (error 429 (codes "rate_limited")) { retry_after = some 60 }, db)
respond view (unauthorized, db) = (error 401 (codes "unauthorized"), db)
respond view (authorized, db) = (record (view db) { no_store = true }, db)

-- `token_required`: `sha256` is the hash of a text's UTF-8 bytes.
unfoldable pub token_required :
    Bool → (Text → Text) → ℕ → Request → (Database → Response) → Database → Response × Database
unfolding authorize_api_request
token_required is_postgresql sha256 now request view db =
    if not (request.method == codes "GET")
    then (error 405 (codes "method_not_allowed"), db)
    else if not (starts_with (codes "Bearer ") request.authorization)
        || ltb 256 (length request.authorization)
    then (error 401 (codes "unauthorized"), db)
    else respond view (
        authorize_api_request is_postgresql now (sha256 (drop 7 request.authorization)) request.path
          db)
