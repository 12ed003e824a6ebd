-- ===== src/Lifecycle/Filters.antt =====
-- app/gateway/lifecycle.py: what the conditions of a purge select, one after the other, from a list of
-- rows.
use mailgate.Common.{
  any, filter, Bool-cases, ◌≡◌, refl, ◌∙◌, inl, inr, Bool, true, false, ◌&&◌, List, [], ◌∷◌, arith,
}
use mailgate.Models.{Message}

module _ {ℓ} {A : Type ℓ} where
  pub filter-filter :
      (p q : A → Bool) (xs : List A) → filter p (filter q xs) ≡ filter (λ x. q x && p x) xs
  filter-filter p q [] = refl
  filter-filter p q (x ∷ xs) = elim (Bool-cases (q x)) [
    | inl e ↦ rw (e, filter-filter p q xs) refl
    | inr e ↦ rw (e, filter-filter p q xs) refl
  ]

  pub filter-ext :
      (p q : A → Bool) → ((x : A) → p x ≡ q x) → (xs : List A) → filter p xs ≡ filter q xs
  filter-ext p q h [] = refl
  filter-ext p q h (x ∷ xs) = rw (h x, filter-ext p q h xs) refl

  -- A weaker filter in between changes nothing.
  pub filter-weaker :
      (p q : A → Bool)
      → ((x : A) → p x ≡ true → q x ≡ true)
      → (xs : List A) → filter p (filter q xs) ≡ filter p xs
  filter-weaker p q h xs =
      filter-filter p q xs ∙ filter-ext (λ x. q x && p x) p (λ x. absorbs (q x) (p x) (h x)) xs
    where
      absorbs : (a b : Bool) → (b ≡ true → a ≡ true) → a && b ≡ b
      absorbs true b h = refl
      absorbs false true h = cc (h refl)
      absorbs false false h = refl

pub any-filter :
    (p q : Message → Bool) (ms : List Message) → any p (filter q ms) ≡ true → any p ms ≡ true
any-filter p q [] h = h
any-filter p q (m ∷ ms) h = elim (Bool-cases (q m)) [
  | inl e ↦ ground (arith, rw e at h, any-filter p q ms)
  | inr e ↦ ground (arith, any-filter p q ms (rw e at h))
]
