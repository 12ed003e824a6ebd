-- ===== src/Regex/Laws.antt =====
-- The matcher of Regex.antt finds exactly the matches of the expression: `Matches` says, without
-- an order and without a bound, when a match of `r` from one position ends at another.
use mailgate.Common.{
  length, is_empty, any, Text, ℕ, ◌≡◌, refl, ◌↔◌, ◌⊎◌, inl, inr, Bool, true, false, not, Option,
  none, some, List, [], ◌∷◌, arith,
}
use mailgate.Regex.{
  Regex, eps, chars, seq, alt, star, boundary, look, at_end, at_start, Position, at_boundary,
  is_at_start, is_at_end, only_if, is_whole, ends, fullmatch,
}
use mailgate.Regex.Stars.{
  Star, In, In-append_left, In-append_right, In-append_split, In-flat_map, In-flat_map_split,
  Progresses, star_ends_sound, progress_trans, Star-Progresses, star_ends_complete,
}

abbrev pub Consumes : (ℕ → Bool) → Position → Position → Type 0
Consumes f (prev, []) q = ⊥
Consumes f (prev, c ∷ s) q = (f c ≡ true) × (q ≡ (some c, s))

module _ (is_word : ℕ → Bool) where
  abbrev pub Matches : Regex → Position → Position → Type 0
  Matches eps p q = q ≡ p
  Matches (chars f) p q = Consumes f p q
  Matches (seq a b) p q = (m : Position) × Matches a p m × Matches b m q
  Matches (alt a b) p q = Matches a p q ⊎ Matches b p q
  Matches (star a) p q = Star (Matches a) p q
  Matches boundary p q = (at_boundary is_word p ≡ true) × (q ≡ p)
  Matches (look a) p q = ((m : Position) × Matches a p m) × (q ≡ p)
  Matches at_end p q = (is_at_end p ≡ true) × (q ≡ p)
  Matches at_start p q = (is_at_start p ≡ true) × (q ≡ p)

In-only_if : (a p : Position) (b : Bool) → In a (only_if b p) → (b ≡ true) × (a ≡ p)
In-only_if a p true (inl e) = (refl, e)
In-only_if a p true (inr h) = elim h [ ]
In-only_if a p false h = elim h [ ]

module _ (is_word : ℕ → Bool) where
  Matches-Progresses : (r : Regex) → Progresses (λ _. []) (Matches is_word r)
  Matches-Progresses eps p q e = inl e
  Matches-Progresses (chars f) (prev, []) q h = elim h [ ]
  Matches-Progresses (chars f) (prev, c ∷ s) q (e, k) = inr (rw k (omega arith))
  Matches-Progresses (seq a b) p q (m, h, k) =
      progress_trans (λ _. []) (λ _ _. ⊥) (Matches-Progresses a p m h) (Matches-Progresses b m q k)
  Matches-Progresses (alt a b) p q (inl h) = Matches-Progresses a p q h
  Matches-Progresses (alt a b) p q (inr h) = Matches-Progresses b p q h
  Matches-Progresses (star a) p q h =
      Star-Progresses (λ _. []) (Matches is_word a) (Matches-Progresses a) h
  Matches-Progresses boundary p q (e, k) = inl k
  Matches-Progresses (look a) p q (e, k) = inl k
  Matches-Progresses at_end p q (e, k) = inl k
  Matches-Progresses at_start p q (e, k) = inl k

  some_end : (xs : List Position) → not (is_empty xs) ≡ true → (m : Position) × In m xs
  some_end [] h = cc
  some_end (x ∷ xs) h = (x, inl refl)

  end_some : (xs : List Position) (m : Position) → In m xs → not (is_empty xs) ≡ true
  end_some [] m h = elim h [ ]
  end_some (x ∷ xs) m h = refl

  pub ends_sound : (r : Regex) (p q : Position) → In q (ends is_word r p) → Matches is_word r p q
  unfolding ends
  ends_sound eps p q (inl e) = e
  ends_sound eps p q (inr h) = elim h [ ]
  ends_sound (chars f) (prev, []) q h = elim h [ ]
  ends_sound (chars f) (prev, c ∷ s) q h = In-only_if q (some c, s) (f c) h
  ends_sound (seq a b) p q h =
      let (m, k, l) = In-flat_map_split (ends is_word b) q (ends is_word a p) h in
      (m, ends_sound a p m k, ends_sound b m q l)
  ends_sound (alt a b) p q h = elim (In-append_split q (ends is_word a p) (ends is_word b p) h) [
    | inl k ↦ inl (ends_sound a p q k)
    | inr k ↦ inr (ends_sound b p q k)
  ]
  ends_sound (star a) p q h =
      star_ends_sound (ends is_word a) (Matches is_word a) (ends_sound a) (length p.1) p q h
  ends_sound boundary p q h = In-only_if q p (at_boundary is_word p) h
  ends_sound (look a) p q h =
      let (e, k) = In-only_if q p (not (is_empty (ends is_word a p))) h in
      let (m, i) = some_end (ends is_word a p) e in ((m, ends_sound a p m i), k)
  ends_sound at_end p q h = In-only_if q p (is_at_end p) h
  ends_sound at_start p q h = In-only_if q p (is_at_start p) h

  pub ends_complete : (r : Regex) (p q : Position) → Matches is_word r p q → In q (ends is_word r p)
  unfolding ends
  ends_complete eps p q e = inl e
  ends_complete (chars f) (prev, []) q h = elim h [ ]
  ends_complete (chars f) (prev, c ∷ s) q (e, k) = rw e (inl k)
  ends_complete (seq a b) p q (m, h, k) =
      In-flat_map (ends is_word b) q m (ends is_word a p) (ends_complete a p m h)
        (ends_complete b m q k)
  ends_complete (alt a b) p q (inl h) =
      In-append_left q (ends is_word a p) (ends is_word b p) (ends_complete a p q h)
  ends_complete (alt a b) p q (inr h) =
      In-append_right q (ends is_word a p) (ends is_word b p) (ends_complete b p q h)
  ends_complete (star a) p q h =
      star_ends_complete (ends is_word a) (Matches is_word a) (ends_complete a)
        (Matches-Progresses a) (length p.1) (omega arith) h
  ends_complete boundary p q (e, k) = rw e (inl k)
  ends_complete (look a) p q ((m, h), k) =
      rw (end_some (ends is_word a p) m (ends_complete a p m h)) (inl k)
  ends_complete at_end p q (e, k) = rw e (inl k)
  ends_complete at_start p q (e, k) = rw e (inl k)

  any_whole :
      (xs : List Position) → (any is_whole xs ≡ true) ↔ ((prev : Option ℕ) × In (prev, []) xs)
  any_whole [] = (λ h. cc, λ h. absurd h.1)
  any_whole ((prev, []) ∷ xs) = (λ _. (prev, inl refl), λ _. refl)
  any_whole ((prev, c ∷ s) ∷ xs) =
      let (to, from) = any_whole xs in
      (λ h. let (b, k) = to h in (b, inr k), λ h. from (h.0, strictly h.0 h.1))
    where
      strictly : (b : Option ℕ) → In (b, []) ((prev, c ∷ s) ∷ xs) → In (b, []) xs
      strictly b (inl e) = absurd (grind (arith, e))
      strictly b (inr k) = k

  -- `fullmatch` accepts a text exactly when the expression matches all of it.
  pub fullmatch-iff-Matches :
      (r : Regex) (s : Text)
      → (fullmatch is_word r s ≡ true)
        ↔ ((prev : Option ℕ) × Matches is_word r (none, s) (prev, []))
  unfolding fullmatch
  fullmatch-iff-Matches r s =
      let (to, from) = any_whole (ends is_word r (none, s)) in
      (
        λ h. let (b, k) = to h in (b, ends_sound r (none, s) (b, []) k),
        λ h. from (h.0, ends_complete r (none, s) (h.0, []) h.1),
      )
