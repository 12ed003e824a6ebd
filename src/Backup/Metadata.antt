-- ===== src/Backup/Metadata.antt =====
-- The metadata for which `json` gives back what `_metadata_bytes` of scripts/backup_archive.py wrote, with
-- `sort_keys=True`: sorted, without a repeated key, and flat.
use mailgate.Common.{
  all, Text, ltb, leb, ◌==◌, nat_eq, list_eq, option_eq, ℕ, Bool, true, false, ◌&&◌, ◌||◌, [], ◌∷◌,
}
use mailgate.Json.{Json, null, boolean, integer, string, Fields, no_fields, a_field}

-- the order of Python's texts
unfoldable pub text_less : Text → Text → Bool
text_less [] [] = false
text_less [] (y ∷ t) = true
text_less (x ∷ s) [] = false
text_less (x ∷ s) (y ∷ t) = ltb x y || (x == y && text_less s t)

-- a code point that is no surrogate
abbrev pub is_scalar : ℕ → Bool
is_scalar x = ltb x 55_296 || (leb 57_344 x && ltb x 1_114_112)

abbrev pub is_flat_value : Json → Bool
is_flat_value null = true
is_flat_value (boolean b) = true
is_flat_value (integer n) = true
is_flat_value (string s) = all is_scalar s
is_flat_value _ = false

abbrev pub comes_first : Text → Fields → Bool
comes_first k no_fields = true
comes_first k (a_field j v fs) = text_less k j

-- The keys ascend, each stands once, and every value is a text, a number, a Boolean or null.
unfoldable pub is_flat : Fields → Bool
unfolding text_less
is_flat no_fields = true
is_flat (a_field k v fs) = all is_scalar k && is_flat_value v && comes_first k fs && is_flat fs
