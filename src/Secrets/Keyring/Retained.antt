-- ===== src/Secrets/Keyring/Retained.antt =====
-- scripts/rotate_credential_keyring.py: which keys a changed document has.
use mailgate.Common.{
  any, all, is_some, contains, Text, if◌then◌else◌, Bool-cases, Option-cases, ◌==◌, nat_eq, list_eq,
  option_eq, ◌≡◌, refl, sym, ap, ◌∙◌, ◌⊎◌, inl, inr, Bool, true, false, ◌&&◌, Option, none, some,
  List, [], ◌∷◌, arith,
}
use mailgate.Crypto.{find_key, key_values}
use mailgate.Regex.{same}
use mailgate.Secrets.Document.{Document, has_item, same_document}
use mailgate.Secrets.Keyring.{set_key}

-- Every key of `d` has its value in `e`.
abbrev pub Retains : Document → Document → Type 0
Retains d e = (id : Text) → (find_key id d.keys ≡ none) ⊎ (find_key id e.keys ≡ find_key id d.keys)

-- Every value among the keys of `d` is one among those of `e`, whatever its identifier.
abbrev pub KeepsValues : Document → Document → Type 0
KeepsValues d e =
    (k : Text) → (contains (key_values d.keys) k ≡ false) ⊎ (contains (key_values e.keys) k ≡ true)

-- `e` is `d` with `id` as its primary key, which it has.
abbrev pub IsExtension : Text → Document → Document → Type 0
IsExtension id d e =
    (e.primary ≡ id) × (is_some (find_key id e.keys) ≡ true) × Retains d e × KeepsValues d e

-- A value that is among some keys where it is among others.
keeps : (b c : Bool) → (b ≡ true → c ≡ true) → (b ≡ false) ⊎ (c ≡ true)
keeps true c h = inr (h refl)
keeps false c h = inl refl

contains-set_key :
    (id v k : Text) (ks : List (Text × Text))
    → any (λ x. x.0 == id) ks ≡ false
    → contains (key_values ks) k ≡ true
    → contains (key_values (set_key id v ks)) k ≡ true
contains-set_key id v k [] fresh h = cc
contains-set_key id v k ((j, u) ∷ ks) fresh h = elim (Bool-cases (j == id)) [
  | inl e ↦ cc (rw e at fresh)
  | inr e ↦ rw e (elim (Bool-cases (k == u)) [
    | inl same ↦ rw same refl
    | inr other' ↦ rw other' (contains-set_key id v k ks (rw e at fresh) (rw other' at h))
  ])
]

find_key-value :
    (id v : Text) (ks : List (Text × Text))
    → find_key id ks ≡ some v
    → contains (key_values ks) v ≡ true
find_key-value id v [] h = cc
find_key-value id v ((j, u) ∷ ks) h = elim (Bool-cases (j == id)) [
  | inl e ↦ let same : u ≡ v = some_value (rw e at h) in rw ((list_eq.agrees v u).1 (sym same)) refl
  | inr e ↦ elim (Bool-cases (v == u)) [
    | inl same ↦ rw same refl
    | inr other' ↦ rw other' (find_key-value id v ks (rw e at h))
  ]
]
  where
    some_value : {a b : Text} → some a ≡ some b → a ≡ b
    some_value h = cc

contains-has_item :
    (k : Text) (ks xs : List (Text × Text))
    → all (has_item xs) ks ≡ true
    → contains (key_values ks) k ≡ true
    → contains (key_values xs) k ≡ true
contains-has_item k [] xs h there = cc
contains-has_item k ((j, u) ∷ ks) xs h there = elim (Bool-cases (k == u)) [
  | inl same ↦
      let equal : k ≡ u = (list_eq.agrees k u).0 same in
      rw equal
        (find_key-value j u xs ((option_eq.agrees (find_key j xs) (some u)).0 (both _ _ h).0))
  | inr other' ↦ contains-has_item k ks xs (both _ _ h).1 (rw other' at there)
]
  where
    both : (a b : Bool) → a && b ≡ true → (a ≡ true) × (b ≡ true)
    both a b h = ground arith

list_refl : (s : Text) → s == s ≡ true
list_refl s = (list_eq.agrees s s).1 refl

find_key-any :
    (id : Text) (ks : List (Text × Text)) → is_some (find_key id ks) ≡ any (λ k. k.0 == id) ks
find_key-any id [] = refl
find_key-any id ((k, v) ∷ ks) = elim (Bool-cases (k == id)) [
  | inl e ↦ rw e refl
  | inr e ↦ rw e (find_key-any id ks)
]

find_key-set_self : (id v : Text) (ks : List (Text × Text)) → find_key id (set_key id v ks) ≡ some v
find_key-set_self id v [] = rw (list_refl id) refl
find_key-set_self id v ((k, u) ∷ ks) = elim (Bool-cases (k == id)) [
  | inl e ↦ rw e (rw (list_refl id) refl)
  | inr e ↦ rw e (rw e (find_key-set_self id v ks))
]

find_key-set_other :
    (id j v : Text) (ks : List (Text × Text))
    → id == j ≡ false
    → find_key j (set_key id v ks) ≡ find_key j ks
find_key-set_other id j v [] h = rw h refl
find_key-set_other id j v ((k, u) ∷ ks) h = elim (Bool-cases (k == id)) [
  | inl e ↦ let same : k ≡ id = (list_eq.agrees k id).0 e in rw e (rw (h, same) (rw h refl))
  | inr e ↦
      rw e (ap (λ (r : Option Text). if k == j then some u else r) (find_key-set_other id j v ks h))
]

none_of : {A : Type 0} (o : Option A) → is_some o ≡ false → o ≡ none
none_of none h = refl
none_of (some a) h = cc

-- A key that was not there, added as the primary one.
pub added-IsExtension :
    (id v : Text) (d : Document)
    → any (λ k. k.0 == id) d.keys ≡ false
    → IsExtension id d (record d { primary = id; keys = set_key id v d.keys })
added-IsExtension id v d fresh = (
  refl,
  rw (find_key-set_self id v d.keys) refl,
  retained,
  λ k. keeps _ _ (contains-set_key id v k d.keys fresh),
)
  where
    retained :
        (j : Text)
        → (find_key j d.keys ≡ none) ⊎ (find_key j (set_key id v d.keys) ≡ find_key j d.keys)
    retained j = elim (Bool-cases (id == j)) [
      | inr e ↦ inr (find_key-set_other id j v d.keys e)
      | inl e ↦
          let same : id ≡ j = (list_eq.agrees id j).0 e in
          inl (none_of (find_key j d.keys) (find_key-any j d.keys ∙ rw (← same) fresh))
    ]

pub activated-IsExtension :
    (id : Text) (d : Document)
    → any (λ k. k.0 == id) d.keys ≡ true
    → IsExtension id d (record d { primary = id })
activated-IsExtension id d there =
    (refl, find_key-any id d.keys ∙ there, λ j. inr refl, λ k. keeps _ _ (λ h. h))

-- What `verified != document` has compared.
find_key-has_item :
    (id v : Text) (ks xs : List (Text × Text))
    → all (has_item xs) ks ≡ true
    → find_key id ks ≡ some v
    → find_key id xs ≡ some v
find_key-has_item id v [] xs h e = cc
find_key-has_item id v ((k, u) ∷ ks) xs h e = elim (Bool-cases (k == id)) [
  | inr other' ↦ find_key-has_item id v ks xs (rest _ _ h) (rw other' at e)
  | inl same ↦
      let key : k ≡ id = (list_eq.agrees k id).0 same in
      let found_value : find_key k xs ≡ some u =
        (option_eq.agrees (find_key k xs) (some u)).0 (first _ _ h) in
      rw (← key) (found_value ∙ rw same at e)
]
  where
    first : (a b : Bool) → a && b ≡ true → a ≡ true
    first a b h = ground arith

    rest : (a b : Bool) → a && b ≡ true → b ≡ true
    rest a b h = ground arith

pub same_document-IsExtension :
    (id : Text) (d e f : Document)
    → same_document f e ≡ true
    → IsExtension id d e
    → IsExtension id d f
unfolding same_document
same_document-IsExtension id d e f same (primary, there, retained, values) =
    let (primaries, all_there) =
      parts (f.primary == e.primary) (all (has_item e.keys) f.keys) (all (has_item f.keys) e.keys)
        same in
    (
      (list_eq.agrees f.primary e.primary).0 primaries ∙ primary,
      has_new (find_key id e.keys) refl there all_there,
      λ j. kept j all_there (retained j),
      λ k. still k all_there (values k),
    )
  where
    parts : (a b c : Bool) → a && b && c ≡ true → (a ≡ true) × (c ≡ true)
    parts a b c h = ground arith

    has_new :
        (o : Option Text)
        → find_key id e.keys ≡ o
        → is_some o ≡ true
        → all (has_item f.keys) e.keys ≡ true
        → is_some (find_key id f.keys) ≡ true
    has_new none at h all_there = cc
    has_new (some v) at h all_there = rw (find_key-has_item id v e.keys f.keys all_there at) refl

    kept :
        (j : Text)
        → all (has_item f.keys) e.keys ≡ true
        → (find_key j d.keys ≡ none) ⊎ (find_key j e.keys ≡ find_key j d.keys)
        → (find_key j d.keys ≡ none) ⊎ (find_key j f.keys ≡ find_key j d.keys)
    kept j all_there (inl e') = inl e'
    kept j all_there (inr q) = elim (Option-cases (find_key j d.keys)) [
      | inl e' ↦ inl e'
      | inr (v, at) ↦ inr (find_key-has_item j v e.keys f.keys all_there (q ∙ at) ∙ sym at)
    ]

    still :
        (k : Text)
        → all (has_item f.keys) e.keys ≡ true
        → (contains (key_values d.keys) k ≡ false) ⊎ (contains (key_values e.keys) k ≡ true)
        → (contains (key_values d.keys) k ≡ false) ⊎ (contains (key_values f.keys) k ≡ true)
    still k all_there (inl absent') = inl absent'
    still k all_there (inr h) = inr (contains-has_item k e.keys f.keys all_there h)
