-- ===== src/Migration/Tests.antt =====
-- A run of the migration on two messages.
use mailgate.Common.{All, ok, codes, ◌≡◌, refl, false, List, [], ◌∷◌, map}
use mailgate.Json.{null, string, object, no_fields, a_field, get}
use mailgate.Migration.{
  is_version_one, AuthRow, migrate_authentication_schema, restore_flat_authentication,
}
use mailgate.Migration.RoundTrip.{
  HasUniqueIds, migrated, flattened, migrate_authentication_schema-IsMigration,
}

abbrev sample_rows : List AuthRow
sample_rows =
    record {
      id = 1;
      authentication = object (a_field (codes "spf") (string (codes "pass")) no_fields);
    }
    ∷ record { id = 2; authentication = null }
    ∷ []

sample_HasUniqueIds : HasUniqueIds sample_rows
unfolding HasUniqueIds
sample_HasUniqueIds = ((refl, tt), (tt, tt))

sample_not_versioned : All (λ r. is_version_one r.authentication ≡ false) sample_rows
unfolding is_version_one get
sample_not_versioned = (refl, (refl, tt))

migrate_authentication_schema-IsMigration_example :
    (migrate_authentication_schema sample_rows ≡ ok (map migrated sample_rows))
    × (migrate_authentication_schema (map migrated sample_rows) ≡ ok (map migrated sample_rows))
    × (restore_flat_authentication (map migrated sample_rows) ≡ ok (map flattened sample_rows))
migrate_authentication_schema-IsMigration_example =
    migrate_authentication_schema-IsMigration sample_rows sample_HasUniqueIds sample_not_versioned
