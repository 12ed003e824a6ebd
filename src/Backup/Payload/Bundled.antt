-- ===== src/Backup/Payload/Bundled.antt =====
-- scripts/backup.py and scripts/restore.py: the payload is read in full, and the keys and the dump are
-- read back from it.
use mailgate.Backup.Payload.{PrefixedReader, read_prefixed, read_chunks}
use mailgate.Common.{
  length, take, drop, is_empty, all, length-append, Bytes, Bool-cases, ℕ, zero, suc, ◌-◌, ◌≤◌, ◌<◌,
  ◌≡◌, refl, ap, ◌∙◌, inl, inr, true, false, some, List, [], ◌∷◌, ◌++◌, append_assoc, arith,
}

-- the bytes of the chunks, one after another
unfoldable pub joined : List Bytes → Bytes
joined [] = []
joined (chunk ∷ chunks) = chunk ++ joined chunks

unfoldable all_left : PrefixedReader → Bytes
all_left r = r.prefix ++ r.source

take-nil : (n : ℕ) → Path Bytes (take n []) []
take-nil zero = refl
take-nil (suc n) = refl

drop-nil : (n : ℕ) → Path Bytes (drop n []) []
drop-nil zero = refl
drop-nil (suc n) = refl

take-drop : (n : ℕ) (xs : Bytes) → take n xs ++ drop n xs ≡ xs
take-drop zero xs = refl
take-drop (suc n) [] = refl
take-drop (suc n) (x ∷ xs) = ap (λ ys. x ∷ ys) (take-drop n xs)

-- Reading takes the prefix first, and neither loses nor repeats a byte.
read_prefixed_lem :
    (size m : ℕ) (prefix source : Bytes)
    → m ≡ size - length (take size prefix)
    → take size prefix ++ (take m source ++ (drop size prefix ++ drop m source)) ≡ prefix ++ source
read_prefixed_lem size m [] source h = rw (take-nil size, drop-nil size) (take-drop m source)
read_prefixed_lem zero m (x ∷ prefix) source h =
    let none_left : m ≡ 0 = omega (arith, h) in rw none_left refl
read_prefixed_lem (suc n) m (x ∷ prefix) source h =
    ap (λ ys. x ∷ ys) (read_prefixed_lem n m prefix source (omega (arith, h)))

all_left_lem :
    (size : ℕ) (r : PrefixedReader)
    → (read_prefixed size r).0 ++ all_left (read_prefixed size r).1 ≡ all_left r
unfolding read_prefixed all_left
all_left_lem size r =
    append_assoc (take size r.prefix) (take (size - length (take size r.prefix)) r.source) _
    ∙ read_prefixed_lem size _ r.prefix r.source refl

empty_read :
    (size : ℕ) (r : PrefixedReader)
    → 1 ≤ size
    → is_empty (read_prefixed size r).0 ≡ true
    → all_left r ≡ []
unfolding read_prefixed all_left
empty_read size r h e = by_clauses size r.prefix r.source h e
  where
    by_clauses :
        (size : ℕ) (prefix source : Bytes)
        → 1 ≤ size
        → is_empty (take size prefix ++ take (size - length (take size prefix)) source) ≡ true
        → prefix ++ source ≡ []
    by_clauses zero prefix source h e = absurd (omega (arith, h))
    by_clauses (suc n) [] [] h e = refl
    by_clauses (suc n) [] (y ∷ source) h e =
        let full : suc n - 0 ≡ suc n = omega arith in cc (rw full at e)
    by_clauses (suc n) (x ∷ prefix) source h e = cc

length-all_left :
    (size : ℕ) (r : PrefixedReader)
    → is_empty (read_prefixed size r).0 ≡ false
    → suc (length (all_left (read_prefixed size r).1)) ≤ length (all_left r)
length-all_left size r e =
    let chunk : Bytes = (read_prefixed size r).0 in
    omega (
      arith,
      ap length (all_left_lem size r),
      length-append chunk (all_left (read_prefixed size r).1),
      is_given chunk e,
    )
  where
    is_given : (xs : Bytes) → is_empty xs ≡ false → 1 ≤ length xs
    is_given [] h = cc
    is_given (x ∷ xs) h = omega arith

-- The loop that reads the payload in chunks of at least one byte ends: with more steps than there are
-- bytes left it has chunks, and these are all bytes of the prefix and then all of the source.
pub read_chunks-IsComplete :
    (fuel size : ℕ) (r : PrefixedReader)
    → 1 ≤ size
    → length (r.prefix ++ r.source) < fuel
    → (chunks : List Bytes) × (read_chunks fuel size r ≡ some chunks)
      × (joined chunks ≡ r.prefix ++ r.source)
unfolding read_chunks all_left joined
read_chunks-IsComplete zero size r h k = absurd (omega (arith, k))
read_chunks-IsComplete (suc fuel) size r h k =
    let next = read_prefixed size r in
    elim (Bool-cases (is_empty next.0)) [
      | inl ended ↦ ([], rw ended refl, rw (empty_read size r h ended) refl)
      | inr more ↦
          let (chunks, eq, all) =
            read_chunks-IsComplete fuel size next.1 h
              (omega (arith, k, length-all_left size r more)) in
          (next.0 ∷ chunks, rw (more, eq) refl, ap (λ ys. next.0 ++ ys) all ∙ all_left_lem size r)
    ]
