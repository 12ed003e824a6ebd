-- ===== src/Regex/Tests.antt =====
-- Runs of the matcher.
use mailgate.Common.{codes, is_lower, ℕ, ◌≡◌, refl, ◌↔◌, true, false, Option, none, []}
use mailgate.Regex.{Regex, chars, seq, boundary, plus, word_of, fullmatch, search_from}
use mailgate.Regex.Laws.{Matches, fullmatch-iff-Matches}

abbrev letters : Regex
letters = plus (chars is_lower)

test_fullmatch :
    (fullmatch is_lower letters (codes "abc") ≡ true)
    × (fullmatch is_lower letters (codes "ab1") ≡ false)
unfolding fullmatch
test_fullmatch = (refl, refl)

test_search :
    search_from is_lower
      (seq boundary (seq (word_of (codes "api")) boundary))
      none
      (codes "an api key")
    ≡ true
unfolding search_from
test_search = refl

test_inside :
    search_from is_lower (seq boundary (seq (word_of (codes "api")) boundary)) none (codes "rapid")
    ≡ false
unfolding search_from
test_inside = refl

test-Matches :
    (fullmatch is_lower letters (codes "abc") ≡ true)
    ↔ ((prev : Option ℕ) × Matches is_lower letters (none, codes "abc") (prev, []))
test-Matches = fullmatch-iff-Matches is_lower letters (codes "abc")
