-- ===== src/Lifecycle/Batches.antt =====
-- app/gateway/lifecycle.py: the batches delete what the query selects, and the loop ends.
use mailgate.Common.{
  length, take, is_empty, filter, length-filter-le, Bool-cases, ℕ, zero, suc, ◌+◌, ◌≤◌, ◌<◌, ◌≡◌,
  refl, ap, ◌∙◌, inl, inr, Bool, true, false, not, some, List, [], ◌∷◌, arith,
}
use mailgate.Lifecycle.{count_rows, delete_first, delete_in_batches, delete_queryset}

module _ {ℓ} {A : Type ℓ} (selected : A → Bool) where
  filter-delete_first :
      (n : ℕ) (rows : List A)
      → filter (λ x. not (selected x)) (delete_first selected n rows)
        ≡ filter (λ x. not (selected x)) rows
  filter-delete_first zero rows = refl
  filter-delete_first (suc n) [] = refl
  filter-delete_first (suc n) (x ∷ xs) = elim (Bool-cases (selected x)) [
    | inl e ↦ rw (e, filter-delete_first n xs) refl
    | inr e ↦ rw (e, e, filter-delete_first (suc n) xs) refl
  ]

  count-delete_first :
      (n : ℕ) (rows : List A)
      → length (take n (filter selected rows)) + count_rows selected (delete_first selected n rows)
        ≡ count_rows selected rows
  count-delete_first zero rows = omega arith
  count-delete_first (suc n) [] = refl
  count-delete_first (suc n) (x ∷ xs) = elim (Bool-cases (selected x)) [
    | inl e ↦ rw e (omega (arith, count-delete_first n xs))
    | inr e ↦ rw (e, e) (count-delete_first (suc n) xs)
  ]

  no_selected :
      (rows : List A) → filter selected rows ≡ [] → rows ≡ filter (λ x. not (selected x)) rows
  no_selected [] h = refl
  no_selected (x ∷ xs) h = elim (Bool-cases (selected x)) [
    | inl e ↦ cc (rw e at h)
    | inr e ↦ rw e (ap (λ ys. x ∷ ys) (no_selected xs (rw e at h)))
  ]

  take_none : (n : ℕ) (xs : List A) → 1 ≤ n → is_empty (take n xs) ≡ true → xs ≡ []
  take_none zero xs h k = absurd (omega arith)
  take_none (suc n) [] h k = refl
  take_none (suc n) (x ∷ xs) h k = cc

  take_some : (n : ℕ) (xs : List A) → is_empty (take n xs) ≡ false → 1 ≤ length (take n xs)
  take_some zero xs h = cc
  take_some (suc n) [] h = cc
  take_some (suc n) (x ∷ xs) h = omega arith

  -- With more rounds than there are selected rows, the loop ends: the rows that are not selected are
  -- left, in their order, and the number is that of the selected rows.
  delete_in_batches-filter :
      (fuel n deleted : ℕ) (rows : List A)
      → 1 ≤ n
      → count_rows selected rows < fuel
      → delete_in_batches selected fuel n deleted rows
        ≡ some (filter (λ x. not (selected x)) rows, deleted + count_rows selected rows)
  unfolding delete_in_batches
  delete_in_batches-filter zero n deleted rows h k = absurd (omega arith)
  delete_in_batches-filter (suc fuel) n deleted rows h k =
      elim (Bool-cases (is_empty (take n (filter selected rows)))) [
        | inl e ↦
            let none_left = take_none n (filter selected rows) h e in
            rw (e, ← no_selected rows none_left, none_left) (ap (λ d. some (rows, d)) (omega arith))
        | inr e ↦
            let counted = count-delete_first n rows in
            let progress = take_some n (filter selected rows) e in
            rw
              (
                e,
                delete_in_batches-filter fuel n (deleted + length (take n (filter selected rows)))
                    (delete_first selected n rows) h (omega arith),
                filter-delete_first n rows,
              )
              (ap (λ d. some (filter (λ x. not (selected x)) rows, d)) (omega arith))
      ]

  -- `_delete_queryset_in_batches` with a batch of at least one row ends, deletes the selected rows and
  -- no other, and returns how many they were.
  pub delete_queryset-filter :
      (n : ℕ) (rows : List A)
      → 1 ≤ n
      → delete_queryset selected n rows
        ≡ some (filter (λ x. not (selected x)) rows, count_rows selected rows)
  unfolding delete_queryset
  delete_queryset-filter n rows h =
      delete_in_batches-filter (suc (length rows)) n 0 rows h
        (omega (arith, length-filter-le selected rows))
      ∙ ap (λ d. some (filter (λ x. not (selected x)) rows, d)) (omega arith)
