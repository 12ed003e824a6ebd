-- ===== src/Regex.antt =====
-- Python's `re` as the program uses it: the regular expressions of app/gateway/mail.py,
-- app/gateway/authentication.py, app/gateway/crypto.py, app/gateway/ingestion.py,
-- app/mailgate/config.py and worker/mailgate_dkim_resolver/__main__.py are values of `Regex`.
-- A matcher returns where its matches end, in the order in which `re` tries them.
pub mod Laws
pub mod Stars
mod Tests
use mailgate.Common.{
  length, take, is_empty, any, Text, in_range, is_lower, is_upper, ltb, if◌then◌else◌, ◌==◌, nat_eq,
  list_eq, option_eq, ℕ, zero, suc, ◌+◌, ◌-◌, Bool, true, false, not, ◌&&◌, ◌||◌, Option, none,
  some, List, [], ◌∷◌, ◌++◌,
}

pub data Regex : Type 0 where
  eps : Regex
  chars : (ℕ → Bool) → Regex
  seq : Regex → Regex → Regex
  alt : Regex → Regex → Regex
  -- `r*`, greedy
  star : Regex → Regex
  -- `\b`
  boundary : Regex
  -- `(?=r)`
  look : Regex → Regex
  -- `$` with no flag: at the end, or before a last newline
  at_end : Regex
  -- `^` with no flag
  at_start : Regex

-- `r?`
abbrev pub opt : Regex → Regex
opt r = alt r eps

-- `r+`
abbrev pub plus : Regex → Regex
plus r = seq r (star r)

-- `r{0,n}`
abbrev pub up_to : ℕ → Regex → Regex
up_to zero r = eps
up_to (suc n) r = alt (seq r (up_to n r)) eps

-- `r{lo,lo+n}`
abbrev pub between : ℕ → ℕ → Regex → Regex
between zero n r = up_to n r
between (suc lo) n r = seq r (between lo n r)

abbrev pub same : ℕ → ℕ → Bool
same c d = d == c

-- A literal.
abbrev pub word_of : Text → Regex
word_of [] = eps
word_of (c ∷ s) = seq (chars (same c)) (word_of s)

-- `a|b|c`; no branch matches nothing.
abbrev pub one_of : List Regex → Regex
one_of [] = chars (λ _. false)
one_of (r ∷ rs) = alt r (one_of rs)

-- `[a-z]` under `re.IGNORECASE` in a `str` pattern: the letters, and the characters that fold to
-- one of them: I with dot, dotless i, the Kelvin sign, long s.
unfoldable pub folded_letter : ℕ → Bool
folded_letter c = is_lower c || is_upper c || c == 304 || c == 305 || c == 8490 || c == 383

-- The one-character lower case of what can fold to a letter of the program's patterns.
unfoldable pub fold_char : ℕ → ℕ
fold_char d =
    if is_upper d || (in_range 192 222 d && not (d == 215))
    then d + 32
    else if d == 304 || d == 305
    then b'i'
    else if d == 8490
    then b'k'
    else if d == 383
    then b's'
    else if d == 7838
    then 223
    else d

-- The character `c`, a lower-case one, under `re.IGNORECASE`.
abbrev pub folded : ℕ → ℕ → Bool
folded c d = fold_char d == c

-- A lower-case literal under `re.IGNORECASE`.
abbrev pub folded_word : Text → Regex
folded_word [] = eps
folded_word (c ∷ s) = seq (chars (folded c)) (folded_word s)

-- A sequence of expressions.
abbrev pub all_of : List Regex → Regex
all_of [] = eps
all_of (r ∷ rs) = seq r (all_of rs)

-- The character before the position, and the text behind it.
abbrev pub Position : Type 0
Position = Option ℕ × Text

abbrev pub flat_map {ℓ κ} : {A : Type ℓ} {B : Type κ} → (A → List B) → List A → List B
flat_map f [] = []
flat_map f (x ∷ xs) = f x ++ flat_map f xs

abbrev pub word_before : (ℕ → Bool) → Option ℕ → Bool
word_before is_word none = false
word_before is_word (some c) = is_word c

abbrev pub word_after : (ℕ → Bool) → Text → Bool
word_after is_word [] = false
word_after is_word (c ∷ _) = is_word c

abbrev pub differs : Bool → Bool → Bool
differs true b = not b
differs false b = b

abbrev pub at_boundary : (ℕ → Bool) → Position → Bool
at_boundary is_word (prev, s) = differs (word_before is_word prev) (word_after is_word s)

abbrev pub is_at_start : Position → Bool
is_at_start (none, s) = true
is_at_start (some _, s) = false

abbrev pub is_at_end : Position → Bool
is_at_end (prev, []) = true
is_at_end (prev, c ∷ []) = c == 10
is_at_end (prev, c ∷ d ∷ s) = false

-- One round of a star counts only if it makes progress.
abbrev pub progress : Position → Position → List Position → List Position
progress (_, s) (_, t) more = if ltb (length t) (length s) then more else []

unfoldable pub star_ends : (Position → List Position) → ℕ → Position → List Position
star_ends m zero p = p ∷ []
star_ends m (suc n) p =
    flat_map (λ q. let more = star_ends m n q in progress p q more) (m p) ++ p ∷ []

abbrev pub only_if : Bool → Position → List Position
only_if b p = if b then p ∷ [] else []

abbrev pub consume : (ℕ → Bool) → Position → List Position
consume f (prev, []) = []
consume f (prev, c ∷ s) = only_if (f c) (some c, s)

abbrev pub is_whole : Position → Bool
is_whole (prev, s) = is_empty s

abbrev pub first_or : List Position → (Position → List Text) → List Text → List Text
first_or [] k other = other
first_or (p ∷ _) k other = k p

-- The longest run of characters that satisfy `f`.
abbrev pub run_of : (ℕ → Bool) → Text → Text
run_of f [] = []
run_of f (c ∷ s) = let rest = run_of f s in if f c then c ∷ rest else []

abbrev pub first_run : (ℕ → Bool) → List Position → Option Text
first_run f [] = none
first_run f ((prev, s) ∷ ps) =
    let other = first_run f ps in if is_empty (run_of f s) then other else some (run_of f s)

abbrev pub or_else {ℓ} : {A : Type ℓ} → Option A → Option A → Option A
or_else none other = other
or_else (some a) other = some a

module _ (is_word : ℕ → Bool) where
  unfoldable pub ends : Regex → Position → List Position
  unfolding star_ends
  ends eps p = p ∷ []
  ends (chars f) p = consume f p
  ends (seq a b) p = flat_map (ends b) (ends a p)
  ends (alt a b) p = ends a p ++ ends b p
  ends (star a) p = star_ends (ends a) (length p.1) p
  ends boundary p = only_if (at_boundary is_word p) p
  ends (look a) p = only_if (not (is_empty (ends a p))) p
  ends at_end p = only_if (is_at_end p) p
  ends at_start p = only_if (is_at_start p) p

  -- `r.match(s)` succeeds from this position.
  unfoldable pub matches_at : Regex → Position → Bool
  unfolding ends
  matches_at r p = not (is_empty (ends r p))

  -- `r.fullmatch(s)`
  unfoldable pub fullmatch : Regex → Text → Bool
  unfolding ends
  fullmatch r s = any is_whole (ends r (none, s))

  -- `r.search(s)`, as a test, from a position on.
  unfoldable pub search_from : Regex → Option ℕ → Text → Bool
  unfolding matches_at
  search_from r prev [] = matches_at r (prev, [])
  search_from r prev (c ∷ s) =
      let rest = search_from r (some c) s in if matches_at r (prev, c ∷ s) then true else rest

  -- `r.findall(s)` for an `r` with no group that matches no empty text, on fuel: the position moves on
  -- in each round, so the length of the text and one more is enough.
  unfoldable pub find_all_from : Regex → ℕ → Position → List Text
  unfolding ends
  find_all_from r zero p = []
  find_all_from r (suc n) (prev, []) = []
  find_all_from r (suc n) (prev, c ∷ s) =
      let rest = find_all_from r n (some c, s) in
      let found =
        λ (q : Position). take (length (c ∷ s) - length q.1) (c ∷ s) ∷ find_all_from r n q in
      first_or (ends r (prev, c ∷ s)) found rest

  unfoldable pub find_all : Regex → Text → List Text
  unfolding find_all_from
  find_all r s = find_all_from r (suc (length s)) (none, s)

  -- `group(1)` of `search` for the expression `r` followed by `(f+)`, from a position on.
  unfoldable pub search_group : Regex → (ℕ → Bool) → Option ℕ → Text → Option Text
  unfolding ends
  search_group r f prev [] = none
  search_group r f prev (c ∷ s) =
      let rest = search_group r f (some c) s in or_else (first_run f (ends r (prev, c ∷ s))) rest
