-- ===== src/Backup/Codec.antt =====
-- A small code for flat dictionaries, in the place of `json`, for the runs of the backup scripts.
use mailgate.Backup.Header.{take-append, drop-append}
use mailgate.Common.{
  length, take, drop, length-append, Bytes, if◌then◌else◌, ◌==◌, nat_eq, list_eq, option_eq, ℕ,
  zero, suc, ◌≤◌, ◌≡◌, refl, ap, Bool, true, false, Option, none, some, [], ◌∷◌, ◌++◌, append_assoc,
  arith,
}
use mailgate.Json.{
  null, boolean, integer, other_number, string, array, object, Fields, no_fields, a_field,
}

abbrev number_of : Bool → ℕ
number_of true = 1
number_of false = 0

abbrev pub with_bytes : Bytes → Option Bytes → Option Bytes
with_bytes a none = none
with_bytes a (some b) = some (a ++ b)

unfoldable pub field_bytes : Fields → Option Bytes
field_bytes no_fields = some []
field_bytes (a_field k (string s) fs) =
    with_bytes (1 ∷ length k ∷ length s ∷ (k ++ s)) (field_bytes fs)
field_bytes (a_field k (integer n) fs) = with_bytes (2 ∷ length k ∷ n ∷ k) (field_bytes fs)
field_bytes (a_field k (boolean b) fs) =
    with_bytes (3 ∷ length k ∷ number_of b ∷ k) (field_bytes fs)
field_bytes (a_field k _ fs) = none

unfoldable pub parsed : ℕ → Bytes → Fields
parsed zero b = no_fields
parsed (suc n) (tag ∷ m ∷ l ∷ b) =
    let texts = parsed n (drop l (drop m b)) in
    let others = parsed n (drop m b) in
    if tag == 1
    then a_field (take m b) (string (take l (drop m b))) texts
    else if tag == 2
    then a_field (take m b) (integer l) others
    else a_field (take m b) (boolean (l == 1)) others
parsed (suc n) _ = no_fields

pub with_bytes_lem :
    (a : Bytes) (o : Option Bytes) (b : Bytes)
    → with_bytes a o ≡ some b
    → (c : Bytes) × (o ≡ some c) × (a ++ c ≡ b)
with_bytes_lem a none b h = cc
with_bytes_lem a (some c) b h = (c, refl, some_back (a ++ c) b h)
  where
    some_back : (a b : Bytes) → Path (Option Bytes) (some a) (some b) → a ≡ b
    some_back a b h = ground arith

-- No field fits in no bytes, and the fields behind one fit in fewer.
fits :
    (x y z : ℕ) (text c b : Bytes) (n : ℕ)
    → x ∷ y ∷ z ∷ (text ++ c) ≡ b
    → length b ≤ n
    → (m : ℕ) × (n ≡ suc m) × (length c ≤ m)
fits x y z text c b zero h k = absurd (omega (arith, ap length h, k))
fits x y z text c b (suc m) h k = (m, refl, omega (arith, ap length h, length-append text c, k))

pub parsed-field_bytes :
    (fs : Fields) (b : Bytes) (n : ℕ) → field_bytes fs ≡ some b → length b ≤ n → parsed n b ≡ fs
unfolding field_bytes parsed
parsed-field_bytes no_fields b zero h k = refl
parsed-field_bytes no_fields [] (suc n) h k = refl
parsed-field_bytes no_fields (x ∷ b) (suc n) h k = cc
parsed-field_bytes (a_field x (string s) fs) b n h k =
    let (c, e, eq) = with_bytes_lem (1 ∷ length x ∷ length s ∷ (x ++ s)) (field_bytes fs) b h in
    let (m, enough, few) = fits _ _ _ (x ++ s) c b n eq k in
    rw
      (
        enough,
        ← eq,
        append_assoc x s c,
        take-append (length x) x (s ++ c) refl,
        drop-append (length x) x (s ++ c) refl,
        take-append (length s) s c refl,
        drop-append (length s) s c refl,
        parsed-field_bytes fs c m e few,
      )
      refl
parsed-field_bytes (a_field x (integer l) fs) b n h k =
    let (c, e, eq) = with_bytes_lem (2 ∷ length x ∷ l ∷ x) (field_bytes fs) b h in
    let (m, enough, few) = fits _ _ _ x c b n eq k in
    rw
      (
        enough,
        ← eq,
        take-append (length x) x c refl,
        drop-append (length x) x c refl,
        parsed-field_bytes fs c m e few,
      )
      refl
parsed-field_bytes (a_field x (boolean v) fs) b n h k =
    let (c, e, eq) = with_bytes_lem (3 ∷ length x ∷ number_of v ∷ x) (field_bytes fs) b h in
    let (m, enough, few) = fits _ _ _ x c b n eq k in
    rw
      (
        enough,
        ← eq,
        take-append (length x) x c refl,
        drop-append (length x) x c refl,
        parsed-field_bytes fs c m e few,
      )
      (ap (λ w. a_field x (boolean w) fs) (number_back v))
  where
    number_back : (v : Bool) → number_of v == 1 ≡ v
    number_back true = refl
    number_back false = refl
parsed-field_bytes (a_field x null fs) b n h k = cc
parsed-field_bytes (a_field x other_number fs) b n h k = cc
parsed-field_bytes (a_field x (array a) fs) b n h k = cc
parsed-field_bytes (a_field x (object a) fs) b n h k = cc
