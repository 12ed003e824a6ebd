-- ===== src/Mail/Links/Bounds.antt =====
-- The links that app/gateway/mail.py collects: how many, and that none is repeated.
use mailgate.Common.{
  length, is_empty, length-append, length-take-le, All, All-append, contains, contains-append, Text,
  codes, rstrip, leb, if-split, Bool-cases, Option-cases, ◌==◌, nat_eq, list_eq, option_eq, ℕ, suc,
  ◌≤◌, ◌<◌, ◌≡◌, refl, sym, ◌∙◌, inl, inr, Bool, true, false, ◌||◌, Option, none, some, List, [],
  ◌∷◌, ◌++◌, arith,
}
use mailgate.Mail.{max_links, SplitUrl, Libraries}
use mailgate.Mail.Links.{
  url_re, is_trailing, url_of, with_host, normalise_split, normalise_url, add_url, collect_links,
  find_links,
}
use mailgate.Regex.{find_all}

-- No address occurs twice.
abbrev pub HasNoRepeat : List Text → Type 0
HasNoRepeat [] = Unit
HasNoRepeat (x ∷ xs) = (contains xs x ≡ false) × HasNoRepeat xs

text_eq_sym : (x y : Text) → x == y ≡ false → y == x ≡ false
text_eq_sym x y h = elim (Bool-cases (y == x)) [
  | inl e ↦ let k = (list_eq.agrees x y).1 (sym ((list_eq.agrees y x).0 e)) in absurd (clash k h)
  | inr e ↦ e
]
  where
    clash : {b : Bool} → b ≡ true → b ≡ false → ⊥
    clash h k = ground arith

or_false-left : (a b : Bool) → a || b ≡ false → a ≡ false
or_false-left a b h = ground arith

or_false-right : (a b : Bool) → a || b ≡ false → b ≡ false
or_false-right a b h = ground arith

HasNoRepeat-append :
    (xs : List Text) (x : Text)
    → HasNoRepeat xs
    → contains xs x ≡ false
    → HasNoRepeat (xs ++ x ∷ [])
HasNoRepeat-append [] x h k = (refl, tt)
HasNoRepeat-append (y ∷ ys) x (n, h) k = (
  contains-append ys (x ∷ []) y ∙ rw (n, text_eq_sym x y (or_false-left _ _ k)) refl,
  HasNoRepeat-append ys x h (or_false-right _ _ k),
)

-- An address is not empty and has at most 2048 characters.
abbrev pub IsShortLink : Text → Type 0
IsShortLink s = (is_empty s ≡ false) × (length s ≤ 2048)

pub record AreLinks (urls : List Text) : Type 0 where
  pub distinct : HasNoRepeat urls
  pub short : All IsShortLink urls

module _ (l : Libraries) where
  url_of-short :
      (u : SplitUrl) (host : Text) (port : Option (Option ℕ)) (s : Text)
      → url_of l u host port ≡ some s
      → length s ≤ 2048
  url_of-short u host none s h = cc
  url_of-short u host (some port) s h = rw (← some_text h) (length-take-le 2048 _)
    where
      some_text : {a b : Text} → some a ≡ some b → a ≡ b
      some_text h = cc

  with_host-short :
      (u : SplitUrl) (host : Option Text) (s : Text) → with_host l u host ≡ some s → length s ≤ 2048
  with_host-short u none s h = cc
  with_host-short u (some []) s h = cc
  with_host-short u (some (c ∷ cs)) s h = elim (Option-cases (l.idna (c ∷ cs))) [
    | inl e ↦ cc (rw (e, with_host) at h)
    | inr (host, e) ↦ url_of-short u host u.port s (rw (e, with_host) at h)
  ]

  normalise_split-short :
      (u : Option SplitUrl) (s : Text) → normalise_split l u ≡ some s → length s ≤ 2048
  normalise_split-short none s h = cc
  normalise_split-short (some u) s h =
      elim (Bool-cases (contains (codes "http" ∷ codes "https" ∷ []) (l.unicode.lower u.scheme))) [
        | inl e ↦ with_host-short u u.hostname s (rw e at h)
        | inr e ↦ cc (rw e at h)
      ]

  add_url-AreLinks :
      (o : Option Text) (urls : List Text)
      → ((s : Text) → o ≡ some s → length s ≤ 2048)
      → AreLinks urls
      → AreLinks (add_url l o urls)
  unfolding add_url
  add_url-AreLinks none urls f h = h
  add_url-AreLinks (some []) urls f h = h
  add_url-AreLinks (some (c ∷ s)) urls f h =
      if-split AreLinks (contains urls (c ∷ s)) urls (urls ++ (c ∷ s) ∷ []) (λ _. h)
        (λ e. record {
          distinct = HasNoRepeat-append urls (c ∷ s) h.distinct e;
          short = All-append IsShortLink urls ((c ∷ s) ∷ []) h.short ((refl, f (c ∷ s) refl), tt);
        })

  add_url-length :
      (o : Option Text) (urls : List Text) → length (add_url l o urls) ≤ suc (length urls)
  unfolding add_url
  add_url-length none urls = omega arith
  add_url-length (some []) urls = omega arith
  add_url-length (some (c ∷ s)) urls =
      if-split (λ us. length us ≤ suc (length urls)) (contains urls (c ∷ s)) urls
        (urls ++ (c ∷ s) ∷ []) (λ _. omega arith)
        (λ _. omega (arith, length-append urls ((c ∷ s) ∷ [])))

  -- The links are good, at most the limit, and the flag tells whether the limit was reached.
  abbrev pub AreCollected : List Text × Bool → Type 0
  AreCollected (urls, stopped) =
      AreLinks urls × (length urls ≤ max_links) × (stopped ≡ leb max_links (length urls))

  collect_links-AreCollected :
      (ms : List Text) (urls : List Text)
      → AreLinks urls
      → length urls < max_links
      → AreCollected (collect_links l ms urls)
  unfolding collect_links normalise_url
  collect_links-AreCollected [] urls h k = (h, omega arith, ground arith)
  collect_links-AreCollected (m ∷ ms) urls h k =
      let good =
        add_url-AreLinks (normalise_url l m) urls
          (normalise_split-short (l.urlsplit (rstrip is_trailing m))) h in
      let grown = add_url-length (normalise_url l m) urls in
      if-split AreCollected (leb max_links (length (add_url l (normalise_url l m) urls)))
        (add_url l (normalise_url l m) urls, true)
        (collect_links l ms (add_url l (normalise_url l m) urls)) (λ e. (good, omega arith, sym e))
        (λ e.
          collect_links-AreCollected ms (add_url l (normalise_url l m) urls) good (ground arith))

-- The links that `parse_message` keeps are at most 100 different addresses of 1 to 2048 characters,
-- and the flag for too many links is set exactly when there are 100, whatever the libraries return.
pub find_links-AreCollected : (l : Libraries) (text : Text) → AreCollected l (find_links l text)
unfolding find_links
find_links-AreCollected l text =
    collect_links-AreCollected l (find_all l.unicode.is_word url_re text) []
      (record { distinct = tt; short = tt }) (omega arith)
