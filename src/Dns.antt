-- ===== src/Dns.antt =====
-- app/gateway/authentication.py, the resolvers: `SystemDnsTxtResolver`, `HttpDnsTxtResolver` and
-- the bounded `_DnsBudget`, whose method `lookup` is the callback that the DKIM library is given.
-- Times are milliseconds.
use mailgate.Common.{
  length, take, all, Text, Bytes, codes, is_digit, ascii_lower, rstrip, ltb, if◌then◌else◌, ◌==◌,
  nat_eq, list_eq, option_eq, ℕ, ◌+◌, ◌-◌, ◌*◌, min, max, Bool, true, false, not, ◌||◌, Option,
  none, some, List, [], ◌∷◌, ◌++◌, map,
}
use mailgate.Json.{Json, null, string, object, get, has_exactly}
use mailgate.Regex.{
  Regex, chars, seq, look, at_end, opt, plus, up_to, between, same, folded_letter, fold_char,
  folded_word, all_of, fullmatch,
}

abbrev pub max_dns_queries : ℕ
max_dns_queries = 5

abbrev pub max_dns_txt_bytes : ℕ
max_dns_txt_bytes = 8192

abbrev pub dns_timeout : ℕ
dns_timeout = 5000

abbrev pub dns_total_timeout : ℕ
dns_total_timeout = 8000

-- `[a-z0-9]`, `[a-z0-9-]` and `[a-z0-9_-]` under `re.IGNORECASE`
unfoldable pub label_edge : ℕ → Bool
unfolding folded_letter
label_edge c = folded_letter c || is_digit c

unfoldable pub label_inner : ℕ → Bool
unfolding label_edge
label_inner c = label_edge c || c == b'-'

unfoldable pub selector_char : ℕ → Bool
unfolding label_inner
selector_char c = label_inner c || c == b'_'

abbrev pub dot : Regex
dot = chars (same b'.')

-- `.`
abbrev pub any_char : Regex
any_char = chars (λ c. not (c == 10))

-- `[a-z0-9](?:[a-z0-9-]{0,61}[a-z0-9])?`
abbrev pub dns_label : Regex
dns_label = seq (chars label_edge) (opt (seq (up_to 61 (chars label_inner)) (chars label_edge)))

-- `(?:[a-z0-9_-]{1,63}\.)+_domainkey\.(?:label\.)+label`
abbrev pub dkim_name : Regex
dkim_name = all_of (
    plus (seq (between 1 62 (chars selector_char)) dot)
    ∷ folded_word (codes "_domainkey")
    ∷ dot
    ∷ plus (seq dns_label dot)
    ∷ dns_label
    ∷ [])

-- `DKIM_QUERY_RE`
unfoldable pub dkim_query_re : Regex
unfolding selector_char label_inner fold_char
dkim_query_re = all_of (
    look (all_of (between 1 252 any_char ∷ opt dot ∷ at_end ∷ []))
    ∷ dkim_name
    ∷ opt dot
    ∷ at_end
    ∷ [])

-- What `resolve_txt` does: it returns bytes or `None`, returns what is not bytes, or raises a
-- `DnsResolutionError`, with its `temporary`.
pub data Answer : Type 0 where
  replied : Option Bytes → Answer
  not_bytes : Answer
  raised : Bool → Answer

-- A resolver, asked for a name within a timeout.
abbrev pub Resolver : Type 0
Resolver = Text → ℕ → Answer

-- What `dns.resolver` does.
pub data DnsReply : Type 0 where
  nxdomain no_answer timed_out no_nameservers dns_exception : DnsReply
  answered : List (List Bytes) → DnsReply

-- `b"".join`
abbrev pub concat : List Bytes → Bytes
concat [] = []
concat (b ∷ bs) = b ++ concat bs

abbrev pub bounded_timeout : ℕ → ℕ
bounded_timeout t = min (max t 100) dns_timeout

abbrev pub one_record : List Bytes → Answer
one_record [] = raised false
one_record (r ∷ []) = if ltb max_dns_txt_bytes (length r) then raised false else replied (some r)
one_record (r ∷ s ∷ rs) = raised false

-- `SystemDnsTxtResolver.resolve_txt`, over the library's `resolve(name, lifetime)`.
unfoldable pub system_resolve_txt : (Text → ℕ → DnsReply) → Resolver
system_resolve_txt resolve name t = elim (resolve name (bounded_timeout t)) [
  | nxdomain ↦ replied none
  | no_answer ↦ replied none
  | timed_out ↦ raised true
  | no_nameservers ↦ raised true
  | dns_exception ↦ raised false
  | answered records ↦ one_record (map concat records)
]

-- What `urlopen` does: it raises an `OSError`, or returns a status and a body.
pub data HttpReply : Type 0 where
  os_error : HttpReply
  responded : ℕ → Bytes → HttpReply

module _ (loads : Bytes → Option Json) (b64decode : Text → Option Bytes) where
  abbrev pub decoded_value : Option Bytes → Answer
  decoded_value none = raised true
  decoded_value (some v) =
      if ltb max_dns_txt_bytes (length v) then raised false else replied (some v)

  abbrev pub document_value : Option Json → Answer
  document_value (some null) = replied none
  document_value (some (string s)) = decoded_value (b64decode s)
  document_value _ = raised true

  abbrev pub document_answer : Option Json → Answer
  document_answer (some (object fs)) =
      if has_exactly (codes "value" ∷ []) fs
      then document_value (get (codes "value") fs)
      else raised true
  document_answer _ = raised true

  -- `HttpDnsTxtResolver.resolve_txt`, over `urlopen(request for the name, timeout)`.
  unfoldable pub http_resolve_txt : (Text → ℕ → HttpReply) → Resolver
  http_resolve_txt urlopen name t = elim (urlopen name (bounded_timeout t)) [
    | os_error ↦ raised true
    | responded status body ↦
        if status == 200
        then document_answer (loads (take (max_dns_txt_bytes * 2) body))
        else raised true
  ]

-- `_DnsBudget`; `last_error` is the `temporary` of the last error. `calls` is what the resolver was
-- asked, oldest first: each name with its timeout and the time that was left.
pub record Budget : Type 0 where
  pub queries : ℕ
  pub last_error : Option Bool
  pub started_at : ℕ
  pub calls : List (Text × ℕ × ℕ)

abbrev pub new_budget : ℕ → Budget
new_budget now = record { queries = 0; last_error = none; started_at = now; calls = [] }

abbrev pub fails : Bool → Budget → Option Bytes × Budget
fails temporary b = (none, record b { last_error = some temporary })

abbrev pub is_ascii : ℕ → Bool
is_ascii c = ltb c 128

-- the part after the request
abbrev pub take_answer : Answer → Budget → Option Bytes × Budget
take_answer (raised temporary) b = fails temporary b
take_answer not_bytes b = fails false b
take_answer (replied none) b = (none, b)
take_answer (replied (some v)) b =
    if ltb max_dns_txt_bytes (length v) then fails false b else (some v, b)

unfoldable pub ask_resolver : Resolver → Text → ℕ → ℕ → Budget → Option Bytes × Budget
ask_resolver resolver decoded t remaining b =
    let within = min (min t dns_timeout) remaining in
    take_answer (resolver decoded within)
      (record b { calls = b.calls ++ (decoded, within, remaining) ∷ [] })

module _ (is_word : ℕ → Bool) (resolver : Resolver) (clock : ℕ → ℕ) where
  -- the part after the counter was raised; `remaining` is 0 where the source's is not positive
  unfoldable pub guarded_lookup : Bytes → ℕ → ℕ → Budget → Option Bytes × Budget
  unfolding ask_resolver
  guarded_lookup name t remaining b =
      let decoded : Text = rstrip (same b'.') (ascii_lower name) in
      if ltb max_dns_queries b.queries
      then fails false b
      else if remaining == 0
      then fails true b
      else if not (all is_ascii name)
      then fails false b
      else if not (fullmatch is_word dkim_query_re decoded)
      then fails false b
      else ask_resolver resolver decoded t remaining b

  -- `_DnsBudget.lookup`; `clock n` is the time at the n-th call.
  unfoldable pub lookup : Bytes → ℕ → Budget → Option Bytes × Budget
  unfolding guarded_lookup
  lookup name t b =
      let b' : Budget = record b { queries = b.queries + 1 } in
      guarded_lookup name t (dns_total_timeout - (clock b'.queries - b'.started_at)) b'
