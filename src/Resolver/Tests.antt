-- ===== src/Resolver/Tests.antt =====
-- Runs of the resolver service.
use mailgate.Common.{
  Text, codes, ascii_lower, is_space, rstrip, strip, ◌≤◌, ◌≡◌, refl, none, some, [], ◌∷◌, arith,
}
use mailgate.Dns.{responded}
use mailgate.Json.{integer, string, array, object, no_items, an_item, no_fields, a_field}
use mailgate.Resolver.{max_requests_per_minute, Endpoint, doh_url, ResolverLibraries, do_get}
use mailgate.Resolver.Guarded.{IsGuarded, do_get-IsGuarded}
use mailgate.Resolver.Window.{recent_in, run_rate, run_rate-limited}
use mailgate.Samples.{ascii}

run_rate-limited_example :
    recent_in 70_000 (run_rate (1 ∷ 2 ∷ 70_000 ∷ []) [] []).0 ≤ max_requests_per_minute
run_rate-limited_example =
    run_rate-limited (1 ∷ 2 ∷ 70_000 ∷ []) (omega arith, (omega arith, (omega arith, tt)))

-- An upstream that knows one key.
abbrev upstream : ResolverLibraries
upstream = record {
  is_word = ascii.is_word;
  lower = ascii_lower;
  ask = λ name. responded 200 (codes "{}");
  loads = λ body. some (
      object (
        a_field (codes "Status") (integer 0) (
          a_field (codes "Answer")
            (array (
              an_item
                (object (
                  a_field (codes "type") (integer 16)
                    (a_field (codes "data") (string (codes "p=x")) no_fields)))
                no_items))
            no_fields)));
  from_text = λ s. some s;
  urlsplit = λ path. (codes "/resolve", codes "name");
  parse_qs = λ query. some ((codes "name", codes "sel._domainkey.example.org" ∷ []) ∷ []);
}

do_get-IsGuarded_example : IsGuarded upstream 0 [] (do_get upstream 0 (codes "/resolve?name") [])
do_get-IsGuarded_example = do_get-IsGuarded upstream 0 (codes "/resolve?name") []

test_answer :
    (do_get upstream 0 (codes "/resolve?name") []).0 ≡ some (200, some (some (codes "p=x")))
unfolding do_get ascii_lower
test_answer = refl

abbrev plain_endpoint : Text → Endpoint
plain_endpoint scheme = record {
  scheme = scheme;
  hostname = codes "dns.example.org";
  user = [];
  password = [];
  url_query = [];
  fragment = [];
}

test_endpoint :
    doh_url (λ s. some (plain_endpoint (codes "https"))) (some (codes " https://dns.example.org/ "))
    ≡ some (codes "https://dns.example.org")
unfolding doh_url strip is_space rstrip
test_endpoint = refl

test_plain_http :
    doh_url (λ s. some (plain_endpoint (codes "http"))) (some (codes "http://dns.example.org"))
    ≡ none
unfolding doh_url strip is_space rstrip
test_plain_http = refl
