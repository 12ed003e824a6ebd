-- ===== src/Regex/Stars.antt =====
-- The rounds of a star, as the matcher of Regex.antt takes them.
-- Some steps of `R`.
use mailgate.Common.{
  length, ltb, lt→ltb, Bool-cases, ℕ, zero, suc, ◌≤◌, ◌<◌, ◌≡◌, refl, ◌∙◌, ◌⊎◌, inl, inr, List, [],
  ◌∷◌, ◌++◌, arith,
}
use mailgate.Regex.{Position, flat_map, progress, star_ends}

pub data Star (R : Position → Position → Type 0) : Position → Position → Type 0 where
  done : {p q : Position} → q ≡ p → Star R p q
  step : {p m q : Position} → R p m → Star R m q → Star R p q

-- Membership with the place kept.
abbrev pub In : Position → List Position → Type 0
In a [] = ⊥
In a (x ∷ xs) = (a ≡ x) ⊎ In a xs

pub In-append_left : (a : Position) (xs ys : List Position) → In a xs → In a (xs ++ ys)
In-append_left a [] ys h = elim h [ ]
In-append_left a (x ∷ xs) ys (inl e) = inl e
In-append_left a (x ∷ xs) ys (inr h) = inr (In-append_left a xs ys h)

pub In-append_right : (a : Position) (xs ys : List Position) → In a ys → In a (xs ++ ys)
In-append_right a [] ys h = h
In-append_right a (x ∷ xs) ys h = inr (In-append_right a xs ys h)

pub In-append_split : (a : Position) (xs ys : List Position) → In a (xs ++ ys) → In a xs ⊎ In a ys
In-append_split a [] ys h = inr h
In-append_split a (x ∷ xs) ys (inl e) = inl (inl e)
In-append_split a (x ∷ xs) ys (inr h) = elim (In-append_split a xs ys h) [
  | inl l ↦ inl (inr l)
  | inr r ↦ inr r
]

module _ (f : Position → List Position) where
  pub In-flat_map :
      (a b : Position) (xs : List Position) → In b xs → In a (f b) → In a (flat_map f xs)
  In-flat_map a b [] k h = elim k [ ]
  In-flat_map a b (x ∷ xs) (inl e) h = In-append_left a (f x) (flat_map f xs) (rw (← e) h)
  In-flat_map a b (x ∷ xs) (inr k) h =
      In-append_right a (f x) (flat_map f xs) (In-flat_map a b xs k h)

  pub In-flat_map_split :
      (a : Position) (xs : List Position)
      → In a (flat_map f xs)
      → (b : Position) × In b xs × In a (f b)
  In-flat_map_split a [] h = elim h [ ]
  In-flat_map_split a (x ∷ xs) h = elim (In-append_split a (f x) (flat_map f xs) h) [
    | inl l ↦ (x, inl refl, l)
    | inr r ↦ let (b, k, l) = In-flat_map_split a xs r in (b, inr k, l)
  ]

-- A star's rounds, for a matcher `m` that `R` describes.
module _ (m : Position → List Position) (R : Position → Position → Type 0) where
  abbrev IsSound : Type 0
  IsSound = (p q : Position) → In q (m p) → R p q

  abbrev IsComplete : Type 0
  IsComplete = (p q : Position) → R p q → In q (m p)

  abbrev pub Progresses : Type 0
  Progresses = (p q : Position) → R p q → (q ≡ p) ⊎ (length q.1 < length p.1)

  progress-In : (a p q : Position) (more : List Position) → In a (progress p q more) → In a more
  progress-In a (_, s) (_, t) more h = elim (Bool-cases (ltb (length t) (length s))) [
    | inl e ↦ rw e at h
    | inr e ↦ absurd (rw e at h)
  ]

  In-progress :
      (a p q : Position) (more : List Position)
      → length q.1 < length p.1
      → In a more
      → In a (progress p q more)
  In-progress a (_, s) (_, t) more lt h = rw (lt→ltb (length t) (length s) lt) h

  pub star_ends_sound : IsSound → (n : ℕ) (p q : Position) → In q (star_ends m n p) → Star R p q
  unfolding star_ends
  star_ends_sound sound zero p q (inl e) = done e
  star_ends_sound sound zero p q (inr h) = elim h [ ]
  star_ends_sound sound (suc n) p q h = elim (In-append_split q (flat_map _ (m p)) (p ∷ []) h) [
    | inl l ↦
        let (b, k, i) = In-flat_map_split _ q (m p) l in
        step (sound p b k) (star_ends_sound sound n b q (progress-In q p b _ i))
    | inr (inl e) ↦ done e
    | inr (inr k) ↦ elim k [ ]
  ]

  star_ends_self : (n : ℕ) (p : Position) → In p (star_ends m n p)
  unfolding star_ends
  star_ends_self zero p = inl refl
  star_ends_self (suc n) p = In-append_right p (flat_map _ (m p)) (p ∷ []) (inl refl)

  pub progress_trans :
      {p b q : Position}
      → (b ≡ p) ⊎ (length b.1 < length p.1)
      → (q ≡ b) ⊎ (length q.1 < length b.1)
      → (q ≡ p) ⊎ (length q.1 < length p.1)
  progress_trans (inl e) (inl k) = inl (k ∙ e)
  progress_trans (inl e) (inr k) = inr (rw e at k)
  progress_trans (inr e) (inl k) = inr (rw k e)
  progress_trans (inr e) (inr k) = inr (omega arith)

  pub Star-Progresses :
      Progresses → {p q : Position} → Star R p q → (q ≡ p) ⊎ (length q.1 < length p.1)
  Star-Progresses go (done e) = inl e
  Star-Progresses go (step {p = p} {m = b} {q = q} r s) =
      progress_trans (go p b r) (Star-Progresses go s)

  star_round :
      IsComplete
      → (n : ℕ) (p b q : Position) → R p b
      → length b.1 < length p.1
      → In q (star_ends m n b)
      → In q (star_ends m (suc n) p)
  unfolding star_ends
  star_round complete n p b q r lt h =
      In-append_left q (flat_map _ (m p)) (p ∷ [])
        (In-flat_map _ q b (m p) (complete p b r) (In-progress q p b (star_ends m n b) lt h))

  pub star_ends_complete :
      IsComplete
      → Progresses
      → (n : ℕ) {p q : Position} → length p.1 ≤ n
      → Star R p q
      → In q (star_ends m n p)
  star_ends_complete complete go n h (done e) = rw e (star_ends_self n _)
  star_ends_complete complete go zero h (step {p = p} {m = b} {q = q} r s) = elim (go p b r) [
    | inl e ↦ rw e at (star_ends_complete complete go zero (rw e h) s)
    | inr lt ↦ absurd (omega arith)
  ]
  star_ends_complete complete go (suc n) h (step {p = p} {m = b} {q = q} r s) = elim (go p b r) [
    | inl e ↦ rw e at (star_ends_complete complete go (suc n) (rw e h) s)
    | inr lt ↦ star_round complete n p b q r lt (star_ends_complete complete go n (omega arith) s)
  ]
