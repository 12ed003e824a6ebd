-- ===== src/Backup/Header.antt =====
-- The header of a backup archive is read back.
use mailgate.Backup.{magic, pack, unpack, header_of}
use mailgate.Common.{
  length, take, drop, length-append, Bytes, starts_with, ◌==◌, nat_eq, list_eq, option_eq, ℕ, zero,
  suc, ◌<◌, ◌≡◌, refl, ap, ◌∙◌, true, [], ◌∷◌, ◌++◌, arith,
}

pub unpack-pack : (n : ℕ) → n < 4_294_967_296 → unpack (pack n) ≡ n
unfolding unpack pack
unpack-pack n h = omega arith

pub take-append : (n : ℕ) (xs ys : Bytes) → length xs ≡ n → take n (xs ++ ys) ≡ xs
take-append zero [] ys h = refl
take-append zero (x ∷ xs) ys h = absurd (omega (arith, h))
take-append (suc n) [] ys h = absurd (omega (arith, h))
take-append (suc n) (x ∷ xs) ys h = ap (λ zs. x ∷ zs) (take-append n xs ys (omega (arith, h)))

pub drop-append : (n : ℕ) (xs ys : Bytes) → length xs ≡ n → drop n (xs ++ ys) ≡ ys
drop-append zero [] ys h = refl
drop-append zero (x ∷ xs) ys h = absurd (omega (arith, h))
drop-append (suc n) [] ys h = absurd (omega (arith, h))
drop-append (suc n) (x ∷ xs) ys h = drop-append n xs ys (omega (arith, h))

module _ (nonce : Bytes) (size : ℕ) (short : length nonce ≡ 12) where
  pub length-header_of : length (header_of nonce size) ≡ 33
  unfolding header_of pack
  length-header_of = omega (arith, length-append nonce (pack size), short)

  pub nonce-header_of : take 12 (drop 17 (header_of nonce size)) ≡ nonce
  unfolding header_of
  nonce-header_of = take-append 12 nonce (pack size) short

  pub size-header_of : size < 4_294_967_296 → unpack (drop 29 (header_of nonce size)) ≡ size
  unfolding header_of
  size-header_of h = ap unpack (drop-append 12 nonce (pack size) short) ∙ unpack-pack size h

  pub magic-header_of : starts_with magic (header_of nonce size) ≡ true
  unfolding header_of
  magic-header_of = refl

  pub version-header_of : take 1 (drop 16 (header_of nonce size)) == 1 ∷ [] ≡ true
  unfolding header_of
  version-header_of = refl
