-- ===== src/Migration.antt =====
-- app/gateway/migrations/0005_provider_presets_and_authentication_schema.py: the conversion of the stored
-- authentication results, and back. A row of the messages is its key and the column `authentication`.
pub mod Converted
pub mod RoundTrip
mod Tests
use mailgate.Common.{
  length, Result, ok, err, ◌>>=◌, Text, codes, if◌then◌else◌, ◌==◌, nat_eq, list_eq, option_eq, ℕ,
  Bool, false, Option, none, some, List, [], ◌∷◌, ◌++◌, map,
}
use mailgate.Json.{
  Json, boolean, integer, string, array, object, no_items, Fields, no_fields, a_field, get,
}

pub record AuthRow : Type 0 where
  pub id : ℕ
  pub authentication : Json

-- `claims.get` of a value that is no dictionary
pub data MigrationError : Type 0 where
  attribute_error : MigrationError

-- `message.authentication or {}`, if it is a dictionary
abbrev pub current_of : Json → Fields
current_of (object fs) = fs
current_of _ = no_fields

-- `value == 1`: in Python `True` is 1 too
abbrev pub is_one : Option Json → Bool
is_one (some (integer n)) = n == 1
is_one (some (boolean b)) = b
is_one _ = false

unfoldable pub is_version_one : Json → Bool
unfolding get
is_version_one v = is_one (get (codes "schema_version") (current_of v))

-- `current.get(key, default)`
abbrev pub or_default : Option Json → Text → Json
or_default (some v) s = v
or_default none s = string s

abbrev pub claim : Text → Fields → Json
claim method fs = or_default (get method fs) (codes "unknown")

-- `{method: claims.get(method, "unknown") for method in AUTH_METHODS}`, before other fields
abbrev pub flat_claims : Fields → Fields → Fields
flat_claims fs following = a_field (codes "spf") (claim (codes "spf") fs) (
    a_field (codes "dkim") (claim (codes "dkim") fs) (
      a_field (codes "dmarc") (claim (codes "dmarc") fs)
        (a_field (codes "arc") (claim (codes "arc") fs) following)))

abbrev pub provider_claims : Fields → Fields
provider_claims fs =
    flat_claims fs
      (a_field (codes "authserv_id") (or_default (get (codes "authserv_id") fs) []) no_fields)

abbrev pub no_dkim : Fields
no_dkim =
    a_field (codes "dkim")
      (object (
        a_field (codes "result") (string (codes "none"))
          (a_field (codes "signatures") (array no_items) no_fields)))
      no_fields

abbrev pub with_schema : Fields → Json
with_schema fs = object (
    a_field (codes "schema_version") (integer 1) (
      a_field (codes "provider_claims") (object (provider_claims fs))
        (a_field (codes "independent") (object no_dkim) no_fields)))

-- the body of the loop of `migrate_authentication_schema`; `none` is `continue`
unfoldable pub migrate_row : AuthRow → Result MigrationError (Option AuthRow)
unfolding is_version_one get
migrate_row r =
    if is_version_one r.authentication
    then ok none
    else ok (some (record r { authentication = with_schema (current_of r.authentication) }))

abbrev pub restored_claims : Option Json → Result MigrationError Json
restored_claims none = ok (object (flat_claims no_fields no_fields))
restored_claims (some (object fs)) = ok (object (flat_claims fs no_fields))
restored_claims (some _) = err attribute_error

-- the body of the loop of `restore_flat_authentication`
unfoldable pub restore_row : AuthRow → Result MigrationError (Option AuthRow)
unfolding is_version_one get
restore_row r =
    if is_version_one r.authentication
    then (restored_claims (get (codes "provider_claims") (current_of r.authentication)) >>= λ v.
        ok (some (record r { authentication = v })))
    else ok none

-- `bulk_update`: the rows of the table with the keys of the pending ones
abbrev pub updated : List AuthRow → AuthRow → AuthRow
updated [] r = r
updated (p ∷ ps) r =
    updated ps (if p.id == r.id then record r { authentication = p.authentication } else r)

unfoldable pub bulk_update : List AuthRow → List AuthRow → List AuthRow
bulk_update pending table = map (updated pending) table

-- `pending.append(message)`, and the update once there are 500
abbrev pub add_pending : Option AuthRow → List AuthRow × List AuthRow → List AuthRow × List AuthRow
add_pending none (pending, table) = (pending, table)
add_pending (some r) (pending, table) =
    let more : List AuthRow = pending ++ r ∷ [] in
    if length more == 500 then ([], bulk_update more table) else (more, table)

-- the update behind the loop, `if pending`
abbrev pub flush : List AuthRow × List AuthRow → List AuthRow
flush ([], table) = table
flush (r ∷ pending, table) = bulk_update (r ∷ pending) table

-- The loop, over the rows that the query has read. An error takes the whole migration back.
unfoldable pub convert_all :
    (AuthRow → Result MigrationError (Option AuthRow))
    → List AuthRow
    → List AuthRow × List AuthRow
    → Result MigrationError (List AuthRow)
unfolding bulk_update
convert_all convert [] s = ok (flush s)
convert_all convert (r ∷ rows) s = convert r >>= λ row. convert_all convert rows (add_pending row s)

unfoldable pub migrate_authentication_schema : List AuthRow → Result MigrationError (List AuthRow)
unfolding convert_all migrate_row
migrate_authentication_schema table = convert_all migrate_row table ([], table)

unfoldable pub restore_flat_authentication : List AuthRow → Result MigrationError (List AuthRow)
unfolding convert_all restore_row
restore_flat_authentication table = convert_all restore_row table ([], table)
