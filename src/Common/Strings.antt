-- ===== src/Common/Strings.antt =====
-- Python's `str` and `bytes` as lists of code points and of bytes, with the methods that the
-- program calls. The tables of Unicode are the argument `Unicode` of what needs them.
use Prim.Native.Nat.{ℕ, zero, suc, ◌+◌, ◌-◌, ◌*◌, ◌/◌, ◌%◌}
use Prim.Native.Char.{code}
use Prim.Native.String.{String}
use mathlib.Core.Bool.{Bool, true, false, not, ◌&&◌, ◌||◌}
use mathlib.Core.Option.{Option, none, some}
use mathlib.Core.List.{List, [], ◌∷◌, ◌++◌}
use mailgate.Common.Tests.{leb, ltb, ◌==◌, nat_eq, if◌then◌else◌}
use mailgate.Common.Lists.{is_empty, all}

abbrev pub Text : Type 0
Text = List ℕ

abbrev pub Bytes : Type 0
Bytes = List ℕ

-- The text of a literal.
abbrev pub codes : String → Text
codes String.[] = []
codes (String.◌∷◌ c s) = code c ∷ codes s

abbrev pub in_range : ℕ → ℕ → ℕ → Bool
in_range lo hi c = leb lo c && leb c hi

abbrev pub is_digit : ℕ → Bool
is_digit c = in_range b'0' b'9' c

abbrev pub is_lower : ℕ → Bool
is_lower c = in_range b'a' b'z' c

abbrev pub is_upper : ℕ → Bool
is_upper c = in_range b'A' b'Z' c

-- `bytes.lower`, and `str.lower` on ASCII.
abbrev pub lower_char : ℕ → ℕ
lower_char c = if is_upper c then c + 32 else c

unfoldable pub ascii_lower : Text → Text
ascii_lower [] = []
ascii_lower (c ∷ s) = lower_char c ∷ ascii_lower s

-- `str.isspace` of one character.
unfoldable pub is_space : ℕ → Bool
is_space c =
    in_range 9 13 c
    || in_range 28 32 c
    || c == 133
    || c == 160
    || c == 5760
    || in_range 8192 8202 c
    || c == 8232
    || c == 8233
    || c == 8239
    || c == 8287
    || c == 12288

-- White space of `bytes`.
unfoldable pub is_byte_space : ℕ → Bool
is_byte_space c = in_range 9 13 c || c == 32

unfoldable pub lstrip : (ℕ → Bool) → Text → Text
lstrip p [] = []
lstrip p (c ∷ s) = let rest = lstrip p s in if p c then rest else c ∷ s

unfoldable pub rstrip : (ℕ → Bool) → Text → Text
rstrip p [] = []
rstrip p (c ∷ s) = let rest = rstrip p s in if is_empty rest && p c then [] else c ∷ rest

unfoldable pub strip : (ℕ → Bool) → Text → Text
unfolding lstrip rstrip
strip p s = rstrip p (lstrip p s)

abbrev pub prepend : ℕ → List Text → List Text
prepend c [] = (c ∷ []) ∷ []
prepend c (w ∷ ws) = (c ∷ w) ∷ ws

-- `s.split(sep)` for one character; a list that is never empty.
unfoldable pub split : ℕ → Text → List Text
split sep [] = [] ∷ []
split sep (c ∷ s) = let rest = split sep s in if c == sep then [] ∷ rest else prepend c rest

-- `s.split(sep, 1)`: the part before the first `sep`, and the rest if there is one.
unfoldable pub before : ℕ → Text → Text
before sep [] = []
before sep (c ∷ s) = let rest = before sep s in if c == sep then [] else c ∷ rest

unfoldable pub after : ℕ → Text → Text
after sep [] = []
after sep (c ∷ s) = let rest = after sep s in if c == sep then s else rest

-- `sep in s`, for one character.
unfoldable pub has_char : ℕ → Text → Bool
has_char sep [] = false
has_char sep (c ∷ s) = c == sep || has_char sep s

-- `s.split()`: the maximal runs of what is no white space.
unfoldable pub words_from : (ℕ → Bool) → Text → Text → List Text
words_from p cur [] = if is_empty cur then [] else cur ∷ []
words_from p cur (c ∷ s) =
    let longer = words_from p (cur ++ c ∷ []) s in
    let closed = words_from p [] s in
    if p c then (if is_empty cur then closed else cur ∷ closed) else longer

unfoldable pub words : (ℕ → Bool) → Text → List Text
unfolding words_from
words p s = words_from p [] s

-- `sep.join(parts)`
unfoldable pub join : Text → List Text → Text
join sep [] = []
join sep (w ∷ []) = w
join sep (w ∷ v ∷ ws) = w ++ sep ++ join sep (v ∷ ws)

abbrev pub starts_with : Text → Text → Bool
starts_with [] s = true
starts_with (_ ∷ _) [] = false
starts_with (p ∷ ps) (c ∷ s) = p == c && starts_with ps s

-- `part in s`
abbrev pub is_infix : Text → Text → Bool
is_infix part [] = is_empty part
is_infix part (c ∷ s) = starts_with part (c ∷ s) || is_infix part s

-- `s.replace(c, "")` for one character
unfoldable pub remove_char : ℕ → Text → Text
remove_char x [] = []
remove_char x (c ∷ s) = let rest = remove_char x s in if c == x then rest else c ∷ rest

-- `int` of a run of decimal digits.
abbrev pub digits_value : ℕ → Text → ℕ
digits_value acc [] = acc
digits_value acc (c ∷ s) = digits_value (acc * 10 + (c - b'0')) s

-- `str(n)`, on fuel: a number has at most `n + 1` digits.
abbrev pub decimal_from : ℕ → ℕ → Text
decimal_from zero n = []
decimal_from (suc f) n =
    let more = decimal_from f (n / 10) ++ (b'0' + n % 10) ∷ [] in
    if ltb n 10 then (b'0' + n) ∷ [] else more

unfoldable pub decimal : ℕ → Text
decimal n = decimal_from (suc n) n

-- A line break of `str.splitlines`.
unfoldable pub is_break : ℕ → Bool
is_break c = in_range 10 13 c || in_range 28 30 c || c == 133 || c == 8232 || c == 8233

-- `s.splitlines()` for a text with no carriage return.
unfoldable pub splitlines : Text → List Text
unfolding is_break
splitlines [] = []
splitlines (c ∷ s) = let rest = splitlines s in if is_break c then [] ∷ rest else prepend c rest

-- `s.rsplit(sep, 1)[-1]` for one character
unfoldable pub last_part : ℕ → Text → Text
unfolding has_char
last_part sep [] = []
last_part sep (c ∷ s) =
    let rest = last_part sep s in if has_char sep s then rest else if c == sep then s else c ∷ s

-- `bytes.isdigit`
abbrev pub is_decimal : Text → Bool
is_decimal s = not (is_empty s) && all is_digit s

pub data Category : Type 0 where
  format control plain : Category

-- The tables of `unicodedata` and of `str`.
pub record Unicode : Type 0 where
  pub lower : Text → Text
  pub nfkc : Text → Text
  pub char_name : ℕ → Text
  pub category : ℕ → Category
  pub is_word : ℕ → Bool
  -- of a decimal digit of any script
  pub digit_value : ℕ → Option ℕ

-- An integer: its sign, and its distance from 0.
pub record SignedNumber : Type 0 where
  pub is_negative : Bool
  pub magnitude : ℕ

module _ (u : Unicode) where
  -- the digits of `int(s)`, with single underscores between them; the Boolean says that a digit stands
  -- before
  abbrev pub int_digits : Bool → ℕ → Text → Option ℕ
  int_digits after_digit acc [] = if after_digit then some acc else none
  int_digits after_digit acc (c ∷ s) =
      let separator = if after_digit then int_digits false acc s else none in
      let digit = λ (d : ℕ). int_digits true (acc * 10 + d) s in
      if c == b'_' then separator else elim (u.digit_value c) [ none ↦ none | some d ↦ digit d ]

  abbrev pub with_sign : Bool → Option ℕ → Option SignedNumber
  with_sign negative none = none
  with_sign negative (some n) = some (record { is_negative = negative; magnitude = n })

  abbrev pub signed_digits : Text → Option SignedNumber
  signed_digits [] = none
  signed_digits (c ∷ s) =
      if c == b'-'
      then with_sign true (int_digits false 0 s)
      else if c == b'+'
      then with_sign false (int_digits false 0 s)
      else with_sign false (int_digits false 0 (c ∷ s))

  -- `int(s)` of a text; `none` is `ValueError`
  unfoldable pub int : Text → Option SignedNumber
  unfolding strip is_space
  int s = signed_digits (strip is_space s)
