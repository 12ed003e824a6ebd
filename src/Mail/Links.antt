-- ===== src/Mail/Links.antt =====
-- app/gateway/mail.py: `URL_RE`, `_normalise_url` and the loop that collects the links.
pub mod Bounds
use mailgate.Common.{
  length, take, contains, Text, codes, is_space, rstrip, decimal, leb, if◌then◌else◌, nat_eq,
  list_eq, option_eq, ℕ, zero, suc, Bool, true, false, not, ◌||◌, Option, none, some, List, [], ◌∷◌,
  ◌++◌,
}
use mailgate.Mail.{max_links, SplitUrl, Libraries}
use mailgate.Regex.{
  Regex, chars, opt, plus, word_of, fold_char, folded, folded_word, all_of, find_all,
}

unfoldable pub url_char : ℕ → Bool
unfolding is_space
url_char c = not (is_space c || contains (b'<' ∷ b'>' ∷ b']' ∷ b'[' ∷ b'"' ∷ 39 ∷ []) c)

-- `https?://[^\s<>\]\["']+` under `re.IGNORECASE`
unfoldable pub url_re : Regex
unfolding url_char fold_char
url_re = all_of (
    folded_word (codes "http")
    ∷ opt (chars (folded b's'))
    ∷ word_of (codes "://")
    ∷ plus (chars url_char)
    ∷ [])

-- `rstrip(".,;:!?)")`
abbrev pub is_trailing : ℕ → Bool
is_trailing = contains (codes ".,;:!?)")

abbrev pub port_suffix : Option ℕ → Text
port_suffix none = []
port_suffix (some zero) = []
port_suffix (some (suc n)) = codes ":" ++ decimal (suc n)

module _ (l : Libraries) where
  abbrev pub url_of : SplitUrl → Text → Option (Option ℕ) → Option Text
  url_of u host none = none
  url_of u host (some port) = some (
      take 2048 (
        l.urlunsplit (l.unicode.lower u.scheme) (l.unicode.lower host ++ port_suffix port) u.path
          u.query))

  abbrev pub with_host : SplitUrl → Option Text → Option Text
  with_host u none = none
  with_host u (some []) = none
  with_host u (some (c ∷ h)) = elim (l.idna (c ∷ h)) [
    | none ↦ none
    | some host ↦ url_of u host u.port
  ]

  abbrev pub normalise_split : Option SplitUrl → Option Text
  normalise_split none = none
  normalise_split (some u) =
      if contains (codes "http" ∷ codes "https" ∷ []) (l.unicode.lower u.scheme)
      then with_host u u.hostname
      else none

  -- `_normalise_url`
  unfoldable pub normalise_url : Text → Option Text
  normalise_url value = normalise_split (l.urlsplit (rstrip is_trailing value))

  -- `urls` after one match: an empty or a known address changes nothing.
  unfoldable pub add_url : Option Text → List Text → List Text
  add_url none urls = urls
  add_url (some []) urls = urls
  add_url (some (c ∷ s)) urls = if contains urls (c ∷ s) then urls else urls ++ (c ∷ s) ∷ []

  -- The loop over the matches; the Boolean says that it stopped at the limit.
  unfoldable pub collect_links : List Text → List Text → List Text × Bool
  unfolding add_url normalise_url
  collect_links [] urls = (urls, false)
  collect_links (m ∷ ms) urls =
      let urls' : List Text = add_url (normalise_url m) urls in
      let rest = collect_links ms urls' in
      if leb max_links (length urls') then (urls', true) else rest

  unfoldable pub find_links : Text → List Text × Bool
  unfolding collect_links find_all url_re
  find_links text = collect_links (find_all l.unicode.is_word url_re text) []
