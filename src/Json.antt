-- ===== src/Json.antt =====
-- The values that `json.loads` returns. An object keeps its pairs in the order of the text, the
-- repeated keys too, as `object_pairs_hook` receives them.
use mailgate.Common.{
  all, contains, Text, if◌then◌else◌, ◌==◌, nat_eq, list_eq, option_eq, ℕ, Bool, true, not, ◌&&◌,
  Option, none, some, List, [], ◌∷◌,
}

mutual
  pub data Json : Type 0 where
    null : Json
    boolean : Bool → Json
    integer : ℕ → Json
    -- a negative number, or one that is not whole
    other_number : Json
    string : Text → Json
    array : Items → Json
    object : Fields → Json

  pub data Items : Type 0 where
    no_items : Items
    an_item : Json → Items → Items

  pub data Fields : Type 0 where
    no_fields : Fields
    a_field : Text → Json → Fields → Fields

-- The keys of an object, in order.
unfoldable pub keys : Fields → List Text
keys no_fields = []
keys (a_field k v fs) = k ∷ keys fs

-- The value under a key: of a repeated key the last, as `dict(pairs)` keeps it.
unfoldable pub get : Text → Fields → Option Json
get k no_fields = none
get k (a_field j v fs) =
    let rest = get k fs in elim rest [ some w ↦ some w | none ↦ if j == k then some v else none ]

-- `set(document) == {...}`
unfoldable pub has_exactly : List Text → Fields → Bool
unfolding keys
has_exactly names fs = all (contains names) (keys fs) && all (contains (keys fs)) names

-- No object in the document repeats a key: `object_pairs_hook` sees each object of the text.
unfoldable mutual
  pub has_unique_keys : Json → Bool
  has_unique_keys (array items) = items_have_unique_keys items
  has_unique_keys (object fs) = fields_have_unique_keys [] fs
  has_unique_keys _ = true

  pub items_have_unique_keys : Items → Bool
  items_have_unique_keys no_items = true
  items_have_unique_keys (an_item v items) = has_unique_keys v && items_have_unique_keys items

  pub fields_have_unique_keys : List Text → Fields → Bool
  fields_have_unique_keys seen no_fields = true
  fields_have_unique_keys seen (a_field k v fs) =
      not (contains seen k) && has_unique_keys v && fields_have_unique_keys (k ∷ seen) fs
