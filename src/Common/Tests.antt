-- ===== src/Common/Tests.antt =====
-- Boolean tests on the native numbers, the conditional, equality as an interface, case lemmas.
use Prim.Native.Nat.{ℕ, zero, suc, ◌≤◌, ◌<◌, compare, Ordering}
use mathlib.Core.Path.{◌≡◌, refl, sym, ap, ◌∙◌}
use mathlib.Core.Logic.{◌↔◌, ◌⊎◌, inl, inr}
use mathlib.Core.Bool.{Bool, true, false, ◌&&◌}
use mathlib.Core.Option.{Option, none, some}
use mathlib.Core.List.{List, [], ◌∷◌}
use native.Mathlib.Omega.{arith}

abbrev pub ltb : ℕ → ℕ → Bool
ltb a b = elim (compare a b) [ Ordering.lt ↦ true | _ ↦ false ]

abbrev pub leb : ℕ → ℕ → Bool
leb a b = elim (compare a b) [ Ordering.gt ↦ false | _ ↦ true ]

abbrev pub nat_beq : ℕ → ℕ → Bool
nat_beq a b = elim (compare a b) [ Ordering.eq ↦ true | _ ↦ false ]

infix 1 if◌then◌else◌
abbrev pub if◌then◌else◌ {ℓ} : {A : Type ℓ} → Bool → A → A → A
if true then x else y = x
if false then x else y = y

-- A property of both branches, each with the outcome of the test.
pub if-split {ℓ κ} :
    {A : Type ℓ} (P : A → Type κ) (b : Bool) (x y : A)
    → (b ≡ true → P x)
    → (b ≡ false → P y)
    → P (if b then x else y)
if-split P true x y h k = h refl
if-split P false x y h k = k refl

pub ltb→lt : (a b : ℕ) → ltb a b ≡ true → a < b
ltb→lt a b h = ground arith

pub lt→ltb : (a b : ℕ) → a < b → ltb a b ≡ true
lt→ltb a b h = ground arith

pub leb→le : (a b : ℕ) → leb a b ≡ true → a ≤ b
leb→le a b h = ground arith

pub ltb-false : (a b : ℕ) → ltb a b ≡ false → b ≤ a
ltb-false a b h = ground arith

pub leb-false : (a b : ℕ) → leb a b ≡ false → b < a
leb-false a b h = ground arith

pub Bool-cases : (b : Bool) → (b ≡ true) ⊎ (b ≡ false)
Bool-cases true = inl refl
Bool-cases false = inr refl

pub Option-cases {ℓ} : {A : Type ℓ} (o : Option A) → (o ≡ none) ⊎ ((a : A) × (o ≡ some a))
Option-cases none = inl refl
Option-cases (some a) = inr (a, refl)

-- Python's `==` on the values of a type.
pub record Comparable {ℓ} (A : Type ℓ) : Type ℓ where
  pub same_as : A → A → Bool
  pub agrees : (a b : A) → (same_as a b ≡ true) ↔ (a ≡ b)

infix 50 ◌==◌
abbrev pub ◌==◌ {ℓ} : {A : Type ℓ} ⦃e : Comparable A⦄ → A → A → Bool
◌==◌ ⦃e⦄ = e.same_as

pub nat_beq_iff : (a b : ℕ) → (nat_beq a b ≡ true) ↔ (a ≡ b)
nat_beq_iff a b = ground arith

instance abbrev pub nat_eq : Comparable ℕ
nat_eq = record { same_as = nat_beq; agrees = nat_beq_iff }

module _ {ℓ} {A : Type ℓ} ⦃e : Comparable A⦄ where
  abbrev pub list_beq : List A → List A → Bool
  list_beq [] [] = true
  list_beq [] (_ ∷ _) = false
  list_beq (_ ∷ _) [] = false
  list_beq (x ∷ xs) (y ∷ ys) = x == y && list_beq xs ys

  pub list_beq_iff : (a b : List A) → (list_beq a b ≡ true) ↔ (a ≡ b)
  list_beq_iff [] [] = ground arith
  list_beq_iff [] (_ ∷ _) = ground arith
  list_beq_iff (_ ∷ _) [] = ground arith
  list_beq_iff (x ∷ xs) (y ∷ ys) = ground (arith, e.agrees x y, list_beq_iff xs ys)

  instance abbrev pub list_eq : Comparable (List A)
  list_eq = record { same_as = list_beq; agrees = list_beq_iff }

  abbrev pub option_beq : Option A → Option A → Bool
  option_beq none none = true
  option_beq none (some _) = false
  option_beq (some _) none = false
  option_beq (some x) (some y) = x == y

  pub option_beq_iff : (a b : Option A) → (option_beq a b ≡ true) ↔ (a ≡ b)
  option_beq_iff none none = ground arith
  option_beq_iff none (some _) = ground arith
  option_beq_iff (some _) none = ground arith
  option_beq_iff (some x) (some y) = ground (arith, e.agrees x y)

  instance abbrev pub option_eq : Comparable (Option A)
  option_eq = record { same_as = option_beq; agrees = option_beq_iff }

-- Equality of an enumeration, from the decision that `hlevel` gives.
module _ {ℓ} {A : Type ℓ} (d : Discrete A) where
  abbrev pub decided : {a b : A} → Dec (a ≡ b) → Bool
  decided (yes _) = true
  decided (no _) = false

  pub decided_iff : {a b : A} (x : Dec (a ≡ b)) → (decided x ≡ true) ↔ (a ≡ b)
  decided_iff (yes p) = (λ _. p, λ _. refl)
  decided_iff (no p) = (λ h. cc, λ h. absurd (p h))

  abbrev pub discrete_eq : Comparable A
  discrete_eq = record { same_as = λ a b. decided (d a b); agrees = λ a b. decided_iff (d a b) }

abbrev pub nth {ℓ} : {A : Type ℓ} → A → List A → ℕ → A
nth d [] n = d
nth d (x ∷ xs) zero = x
nth d (x ∷ xs) (suc n) = nth d xs n

-- Equality of an enumeration, by a number for each value that a list of the values reads back.
module _ {ℓ} {A : Type ℓ} (number : A → ℕ) (d : A) (values : List A) where
  pub numbered_iff :
      ((a : A) → nth d values (number a) ≡ a)
      → (a b : A) → (nat_beq (number a) (number b) ≡ true) ↔ (a ≡ b)
  numbered_iff round a b = (
    λ h. sym (round a) ∙ ap (nth d values) ((nat_beq_iff (number a) (number b)).0 h) ∙ round b,
    λ e. (nat_beq_iff (number a) (number b)).1 (ap number e),
  )

  abbrev pub numbered_eq : ((a : A) → nth d values (number a) ≡ a) → Comparable A
  numbered_eq round = record {
    same_as = λ a b. nat_beq (number a) (number b);
    agrees = numbered_iff round;
  }
