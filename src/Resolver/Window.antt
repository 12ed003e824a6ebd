-- ===== src/Resolver/Window.antt =====
-- The rate limit of the resolver service, over any sequence of requests.
use mailgate.Common.{
  length, filter, length-append, length-filter-le, ltb, leb, if◌then◌else◌, leb-false, Bool-cases,
  ℕ, ◌+◌, ◌≤◌, ◌≡◌, refl, sym, ap, ◌∙◌, inl, inr, Bool, List, [], ◌∷◌, ◌++◌, arith,
}
use mailgate.Resolver.{max_requests_per_minute, drop_old, rate_allowed}

-- Less than a minute ago.
abbrev pub is_recent : ℕ → ℕ → Bool
is_recent now t = ltb now (t + 60_000)

abbrev pub recent_in : ℕ → List ℕ → ℕ
recent_in now ts = length (filter (is_recent now) ts)

-- The requests that passed, latest last, and the queue.
unfoldable pub run_rate : List ℕ → List ℕ → List ℕ → List ℕ × List ℕ
unfolding rate_allowed
run_rate [] passed times = (passed, times)
run_rate (now ∷ rs) passed times =
    let (allowed, times') = rate_allowed now times in
    run_rate rs (if allowed then passed ++ now ∷ [] else passed) times'

-- The times do not go back, from `now` on.
abbrev pub IsOrdered : ℕ → List ℕ → Type 0
IsOrdered now [] = Unit
IsOrdered now (t ∷ rs) = (now ≤ t) × IsOrdered t rs

abbrev pub last_time : ℕ → List ℕ → ℕ
last_time now [] = now
last_time now (t ∷ rs) = last_time t rs

-- The queue is no longer than the limit, and holds all that passed in the last minute.
record IsWindow (now : ℕ) (passed times : List ℕ) : Type 0 where
  short : length times ≤ max_requests_per_minute
  whole : filter (is_recent now) passed ≡ filter (is_recent now) times

filter-append : (p : ℕ → Bool) (xs ys : List ℕ) → filter p (xs ++ ys) ≡ filter p xs ++ filter p ys
filter-append p [] ys = refl
filter-append p (x ∷ xs) ys = elim (Bool-cases (p x)) [
  | inl e ↦ rw (e, filter-append p xs ys) refl
  | inr e ↦ rw (e, filter-append p xs ys) refl
]

filter-later :
    (now later : ℕ) (xs : List ℕ)
    → now ≤ later
    → filter (is_recent later) (filter (is_recent now) xs) ≡ filter (is_recent later) xs
filter-later now later [] h = refl
filter-later now later (x ∷ xs) h = ground (arith, filter-later now later xs h)

filter-drop_old :
    (now : ℕ) (xs : List ℕ) → filter (is_recent now) (drop_old now xs) ≡ filter (is_recent now) xs
filter-drop_old now [] = refl
filter-drop_old now (x ∷ xs) = ground (arith, filter-drop_old now xs)

length-drop_old : (now : ℕ) (xs : List ℕ) → length (drop_old now xs) ≤ length xs
length-drop_old now [] = omega arith
length-drop_old now (x ∷ xs) = ground (arith, length-drop_old now xs)

IsWindow-later :
    (now later : ℕ) (passed times : List ℕ)
    → now ≤ later
    → IsWindow now passed times
    → IsWindow later passed times
IsWindow-later now later passed times h w = record {
  short = w.short;
  whole =
      sym (filter-later now later passed h)
      ∙ ap (filter (is_recent later)) w.whole
      ∙ filter-later now later times h;
}

rate_allowed-IsWindow :
    (now : ℕ) (passed times : List ℕ)
    → IsWindow now passed times
    → let r = rate_allowed now times in
      IsWindow now (if r.0 then passed ++ now ∷ [] else passed) r.1
unfolding rate_allowed
rate_allowed-IsWindow now passed times w =
    elim (Bool-cases (leb max_requests_per_minute (length (drop_old now times)))) [
      | inl full ↦ rw full (record {
        short = omega (arith, length-drop_old now times, w.short);
        whole = w.whole ∙ sym (filter-drop_old now times);
      })
      | inr room ↦ rw room (record {
        short = omega (arith, length-append (drop_old now times) (now ∷ []), leb-false _ _ room);
        whole =
            filter-append (is_recent now) passed (now ∷ [])
            ∙ ap (λ xs. xs ++ filter (is_recent now) (now ∷ []))
                (w.whole ∙ sym (filter-drop_old now times))
            ∙ sym (filter-append (is_recent now) (drop_old now times) (now ∷ []));
      })
    ]

run_rate-IsWindow :
    (rs : List ℕ) (now : ℕ) (passed times : List ℕ)
    → IsOrdered now rs
    → IsWindow now passed times
    → IsWindow (last_time now rs) (run_rate rs passed times).0 (run_rate rs passed times).1
unfolding run_rate
run_rate-IsWindow [] now passed times o w = w
run_rate-IsWindow (t ∷ rs) now passed times (le, o) w =
    run_rate-IsWindow rs t _ _ o
      (rate_allowed-IsWindow t passed times (IsWindow-later now t passed times le w))

-- Whatever the times of the requests, if they do not go back: of those that the service lets pass,
-- never more than 120 are less than a minute old.
pub run_rate-limited :
    (rs : List ℕ)
    → IsOrdered 0 rs
    → recent_in (last_time 0 rs) (run_rate rs [] []).0 ≤ max_requests_per_minute
run_rate-limited rs o =
    let w = run_rate-IsWindow rs 0 [] [] o (record { short = omega arith; whole = refl }) in
    omega (
      arith,
      ap length w.whole,
      w.short,
      length-filter-le (is_recent (last_time 0 rs)) (run_rate rs [] []).1,
    )
