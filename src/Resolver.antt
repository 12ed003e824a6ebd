-- ===== src/Resolver.antt =====
-- worker/mailgate_dkim_resolver/__main__.py: the service that looks up DKIM keys for the worker. Times are
-- in milliseconds.
pub mod Window
pub mod Guarded
mod Tests
use mailgate.Common.{
  length, is_empty, Text, Bytes, codes, is_space, rstrip, strip, split, ltb, leb, if◌then◌else◌,
  ◌==◌, nat_eq, list_eq, option_eq, ℕ, zero, suc, ◌+◌, ◌*◌, Bool, true, false, not, ◌&&◌, ◌||◌,
  Option, none, some, List, [], ◌∷◌, ◌++◌,
}
use mailgate.Dns.{
  label_inner, selector_char, any_char, dkim_name, HttpReply, os_error, responded, lookup,
}
use mailgate.Json.{
  Json, boolean, integer, string, array, object, Items, no_items, an_item, Fields, get,
}
use mailgate.Regex.{Regex, look, at_end, between, fold_char, all_of, fullmatch}

abbrev pub max_response_bytes : ℕ
max_response_bytes = 16 * 1024

abbrev pub max_txt_bytes : ℕ
max_txt_bytes = 8192

abbrev pub max_requests_per_minute : ℕ
max_requests_per_minute = 120

-- `QUERY_RE`
unfoldable pub query_re : Regex
unfolding selector_char label_inner fold_char
query_re = all_of (look (all_of (between 1 252 any_char ∷ at_end ∷ [])) ∷ dkim_name ∷ at_end ∷ [])

-- `urlsplit` of the endpoint; an empty text is `None` or empty
pub record Endpoint : Type 0 where
  pub scheme : Text
  pub hostname : Text
  pub user : Text
  pub password : Text
  pub url_query : Text
  pub fragment : Text

abbrev pub is_https : Endpoint → Bool
is_https e =
    (e.scheme == codes "https" && not (is_empty e.hostname))
    && (is_empty e.user && is_empty e.password)

abbrev pub default_doh_url : Text
default_doh_url = codes "https://cloudflare-dns.com/dns-query"

abbrev pub or_default_url : Option Text → Text
or_default_url none = default_doh_url
or_default_url (some value) = value

-- `_doh_url`, of the environment variable; `none` is an error that keeps the service from its start
unfoldable pub doh_url : (Text → Option Endpoint) → Option Text → Option Text
unfolding strip is_space rstrip
doh_url split setting =
    let value : Text = strip is_space (or_default_url setting) in
    elim (split value) [
      | none ↦ none
      | some e ↦
          if not (is_https e)
          then none
          else if not (is_empty e.url_query && is_empty e.fragment)
          then none
          else some (rstrip (λ c. c == b'/') value)
    ]

-- The loop that drops the times of more than a minute ago from the left of the queue.
abbrev pub drop_old : ℕ → List ℕ → List ℕ
drop_old now [] = []
drop_old now (t ∷ ts) = let rest = drop_old now ts in if leb (t + 60_000) now then rest else t ∷ ts

-- `_rate_allowed`: the answer, and the queue
unfoldable pub rate_allowed : ℕ → List ℕ → Bool × List ℕ
rate_allowed now times =
    let kept : List ℕ = drop_old now times in
    if leb max_requests_per_minute (length kept) then (false, kept) else (true, kept ++ now ∷ [])

-- What the lookup does: it returns, raises `ValueError`, raises `OSError`, or raises an error that the
-- handler does not catch.
pub data Lookup : Type 0 where
  found : Option Bytes → Lookup
  invalid_query unavailable crashed : Lookup

-- What the service takes from its libraries.
pub record ResolverLibraries : Type 0 where
  pub is_word : ℕ → Bool
  pub lower : Text → Text
  -- the request for a name, with the body that is read
  pub ask : Text → HttpReply
  -- `none` is `JSONDecodeError` or `UnicodeDecodeError`, which are both a `ValueError`
  pub loads : Bytes → Option Json
  -- `dns.rdata.from_text(...)`, its strings joined; `none` is an exception
  pub from_text : Text → Option Bytes
  -- `urlsplit(self.path)`: the path and the query
  pub urlsplit : Text → Text × Text
  -- `none` is `ValueError`
  pub parse_qs : Text → Option (List (Text × List Text))

abbrev pub is_txt : Option Json → Bool
is_txt (some (integer n)) = n == 16
is_txt _ = false

module _ (l : ResolverLibraries) where
  abbrev pub parsed_data : Option Json → Option Bytes
  parsed_data (some (string s)) = l.from_text s
  parsed_data _ = none

  abbrev pub cons_record : Option Bytes → Option (List Bytes) → Option (List Bytes)
  cons_record none rest = none
  cons_record (some r) none = none
  cons_record (some r) (some rs) = some (r ∷ rs)

  -- the loop over the answers; `none` is `OSError`
  abbrev pub txt_records : Items → Option (List Bytes)
  txt_records no_items = some []
  txt_records (an_item (object fs) items) =
      let rest = txt_records items in
      if is_txt (get (codes "type") fs)
      then cons_record (parsed_data (get (codes "data") fs)) rest
      else rest
  txt_records (an_item _ items) = txt_records items

  abbrev pub one_value : Option (List Bytes) → Lookup
  one_value none = unavailable
  one_value (some []) = found none
  one_value (some (r ∷ [])) = if ltb max_txt_bytes (length r) then unavailable else found (some r)
  one_value (some (r ∷ s ∷ rs)) = unavailable

  -- `document.get("Answer", [])`: texts and objects are looped over too, and hold no answer
  abbrev pub answers : Option Json → Lookup
  answers none = found none
  answers (some (array items)) = one_value (txt_records items)
  answers (some (string s)) = found none
  answers (some (object fs)) = found none
  answers (some _) = crashed

  abbrev pub by_status : Option Json → Fields → Lookup
  by_status (some (integer zero)) fs = answers (get (codes "Answer") fs)
  by_status (some (integer (suc n))) fs = if suc n == 3 then found none else unavailable
  -- `isinstance(False, int)`, and `False == 0`
  by_status (some (boolean false)) fs = answers (get (codes "Answer") fs)
  by_status _ fs = unavailable

  abbrev pub by_document : Option Json → Lookup
  by_document none = invalid_query
  by_document (some (object fs)) = by_status (get (codes "Status") fs) fs
  by_document (some _) = unavailable

  abbrev pub by_reply : HttpReply → Lookup
  by_reply os_error = unavailable
  by_reply (responded status body) =
      if not (status == 200)
      then unavailable
      else if ltb max_response_bytes (length body)
      then unavailable
      else by_document (l.loads body)

  -- `resolve_dkim_txt`, with the names that were asked for
  unfoldable pub resolve_dkim_txt : Text → Lookup × List Text
  unfolding query_re get strip is_space rstrip fullmatch
  resolve_dkim_txt name =
      let normalized : Text = rstrip (λ c. c == b'.') (l.lower (strip is_space name)) in
      if fullmatch l.is_word query_re normalized
      then (by_reply (l.ask normalized), normalized ∷ [])
      else (invalid_query, [])

  -- The handler's answer: a status, and the value where there is one.
  abbrev pub reply_of : Lookup → Option (ℕ × Option (Option Bytes))
  reply_of (found value) = some (200, some value)
  reply_of invalid_query = some (400, none)
  reply_of unavailable = some (503, none)
  reply_of crashed = none

  abbrev pub reply_with : Lookup × List Text → Option (ℕ × Option (Option Bytes)) × List Text
  reply_with (lookup, asked) = (reply_of lookup, asked)

  -- What a request leaves: the answer, the names that were asked for, and the queue.
  abbrev pub Handled : Type 0
  Handled = Option (ℕ × Option (Option Bytes)) × List Text × List ℕ

  abbrev pub refuse : ℕ → List ℕ → Handled
  refuse status times = (some (status, none), [], times)

  abbrev pub resolve_name : ℕ → Text → List ℕ → Handled
  resolve_name now name times =
      let (allowed, times') = rate_allowed now times in
      let (answer, asked) = reply_with (resolve_dkim_txt name) in
      if allowed then (answer, asked, times') else refuse 429 times'

  abbrev pub by_query : ℕ → Option (List (Text × List Text)) → List ℕ → Handled
  by_query now (some ((key, name ∷ []) ∷ [])) times =
      if key == codes "name" then resolve_name now name times else refuse 400 times
  by_query now _ times = refuse 400 times

  -- `do_POST`
  abbrev pub do_post : List ℕ → Handled
  do_post times = refuse 405 times

  -- `do_GET`
  unfoldable pub do_get : ℕ → Text → List ℕ → Handled
  unfolding resolve_dkim_txt rate_allowed
  do_get now path times =
      let (route, query) = l.urlsplit path in
      if (route == codes "/health") && is_empty query
      then (some (200, none), [], times)
      else if not (route == codes "/resolve") || ltb 600 (length path)
      then refuse 404 times
      else by_query now (l.parse_qs query) times
