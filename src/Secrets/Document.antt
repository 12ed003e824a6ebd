-- ===== src/Secrets/Document.antt =====
-- scripts/rotate_credential_keyring.py: `_load_keyring`, from the text of the file. Fernet and
-- json.loads are those of Crypto.antt.
pub mod Accepted
use mailgate.Common.{
  any, all, Result, ok, err, ◌>>=◌, ◌>>◌, Text, codes, ltb, if◌then◌else◌, ◌==◌, nat_eq, list_eq,
  option_eq, ℕ, suc, Bool, not, ◌&&◌, ◌||◌, Option, none, some, List, [], ◌∷◌,
}
use mailgate.Crypto.{Cryptography, is_key_id, find_key, is_version_one}
use mailgate.Json.{
  Json, null, string, object, Fields, no_fields, a_field, get, has_exactly, has_unique_keys,
}
use mailgate.Secrets.{
  duplicate_fields, invalid_key_id, invalid_fernet_key, not_json, unsupported_shape,
  version_unsupported, invalid_primary, invalid_key_count, invalid_entries, primary_unavailable,
  Raised, tool,
}

-- The keyring's document, whose shape is checked. A dictionary is a list with each key once.
pub record Document : Type 0 where
  pub version : Json
  pub primary : Text
  pub keys : List (Text × Text)

abbrev pub maximum_keys : ℕ
maximum_keys = 32

-- `_validate_key_id`
abbrev pub validate_key_id : Text → Result Raised Text
validate_key_id value = if is_key_id value then ok value else err (tool invalid_key_id)

module _ (c : Cryptography) where
  -- `_validate_fernet_key`
  abbrev pub validate_fernet_key : Text → Result Raised Text
  validate_fernet_key value =
      if c.is_fernet_key value then ok value else err (tool invalid_fernet_key)

  -- the loop over the items
  abbrev pub load_item : Text → Json → Result Raised (Text × Text)
  load_item id (string value) = do
    id' ← validate_key_id id
    value' ← validate_fernet_key value
    ok (id', value')
  load_item id _ = err (tool invalid_entries)

  abbrev pub load_items : Fields → Result Raised (List (Text × Text))
  load_items no_fields = ok []
  load_items (a_field id v fs) =
      let rest = load_items fs in load_item id v >>= λ item. rest >>= λ items. ok (item ∷ items)

  abbrev pub count_fields : Fields → ℕ
  count_fields no_fields = 0
  count_fields (a_field id v fs) = suc (count_fields fs)

  abbrev pub load_keys : Option Json → Result Raised (List (Text × Text))
  load_keys (some (object fs)) =
      if count_fields fs == 0 || ltb maximum_keys (count_fields fs)
      then err (tool invalid_key_count)
      else load_items fs
  load_keys _ = err (tool invalid_key_count)

  abbrev pub load_primary : Option Json → Result Raised Text
  load_primary (some (string s)) = validate_key_id s
  load_primary _ = err (tool invalid_primary)

  abbrev pub with_primary : Json → Text → List (Text × Text) → Result Raised Document
  with_primary version primary keys =
      if any (λ k. k.0 == primary) keys
      then ok (record { version = version; primary = primary; keys = keys })
      else err (tool primary_unavailable)

  abbrev pub version_of : Option Json → Json
  version_of none = null
  version_of (some v) = v

  abbrev pub load_fields : Fields → Result Raised Document
  load_fields fs =
      if not (has_exactly (codes "version" ∷ codes "primary" ∷ codes "keys" ∷ []) fs)
      then err (tool unsupported_shape)
      else if not (is_version_one c (get (codes "version") fs))
      then err (tool version_unsupported)
      else load_primary (get (codes "primary") fs) >>= λ primary.
          load_keys (get (codes "keys") fs)
          >>= with_primary (version_of (get (codes "version") fs)) primary

  -- A document with a repeated field is refused while it is read.
  abbrev pub load_document : Option Json → Result Raised Document
  load_document none = err (tool not_json)
  load_document (some (object fs)) =
      if has_unique_keys (object fs) then load_fields fs else err (tool duplicate_fields)
  load_document (some v) =
      if has_unique_keys v then err (tool unsupported_shape) else err (tool duplicate_fields)

  -- `_load_keyring` of the text of the file
  unfoldable pub load_text : Text → Result Raised Document
  unfolding is_key_id has_exactly get has_unique_keys
  load_text raw = load_document (c.loads raw)

-- Two dictionaries are equal if each has the items of the other, in whatever order. The versions of two documents that
-- were loaded are both equal to 1.
abbrev pub has_item : List (Text × Text) → Text × Text → Bool
has_item ks (id, value) = find_key id ks == some value

unfoldable pub same_document : Document → Document → Bool
same_document d e =
    d.primary == e.primary && all (has_item e.keys) d.keys && all (has_item d.keys) e.keys
