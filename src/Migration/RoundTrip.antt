-- ===== src/Migration/RoundTrip.antt =====
-- app/gateway/migrations/0005_provider_presets_and_authentication_schema.py: every row is converted, and
-- the four methods are converted back.
use mailgate.Common.{
  All, unique, Result, ok, codes, Bool-cases, ◌==◌, nat_eq, list_eq, option_eq, ℕ, ◌≡◌, refl, sym,
  ap, ◌∙◌, inl, inr, true, false, Option, none, some, List, [], ◌∷◌, map,
}
use mailgate.Json.{Json, object, Fields, no_fields, get}
use mailgate.Migration.{
  is_version_one, AuthRow, MigrationError, current_of, flat_claims, with_schema, migrate_row,
  restore_row, updated, bulk_update, convert_all, migrate_authentication_schema,
  restore_flat_authentication,
}
use mailgate.Migration.Converted.{changes, convert_all-changes}

-- The keys of the table are unique.
unfoldable pub HasUniqueIds : List AuthRow → Type 0
HasUniqueIds [] = Unit
HasUniqueIds (r ∷ rows) = All (λ s. r.id == s.id ≡ false) rows × HasUniqueIds rows

flip : (a b : ℕ) → a == b ≡ false → b == a ≡ false
flip a b h = elim (Bool-cases (b == a)) [
  | inr e ↦ e
  | inl e ↦ cc (rw ((nat_eq.agrees a b).1 (sym ((nat_eq.agrees b a).0 e))) at h)
]

skip :
    (p : AuthRow) (ps table : List AuthRow)
    → All (λ s. p.id == s.id ≡ false) table
    → bulk_update (p ∷ ps) table ≡ bulk_update ps table
unfolding bulk_update
skip p ps [] h = refl
skip p ps (s ∷ table) (e, h) = rw e (ap (λ t. updated ps s ∷ t) (skip p ps table h))

module _ (v : AuthRow → Json) where
  rewritten : AuthRow → AuthRow
  rewritten r = record r { authentication = v r }

  one_update :
      (s r : AuthRow) (ps : List AuthRow)
      → s.id == r.id ≡ false
      → updated (rewritten s ∷ ps) r ≡ updated ps r
  unfolding rewritten
  one_update s r ps h = ap (updated ps) (rw h refl)

  own_update :
      (r : AuthRow) (ps : List AuthRow) → updated (rewritten r ∷ ps) r ≡ updated ps (rewritten r)
  unfolding rewritten
  own_update r ps =
      let same : r.id == r.id ≡ true = (nat_eq.agrees r.id r.id).1 refl in
      ap (updated ps) (rw same refl)

  kept :
      (rows : List AuthRow) (r : AuthRow)
      → All (λ s. r.id == s.id ≡ false) rows
      → updated (changes (λ s. some (rewritten s)) rows) r ≡ r
  kept [] r h = refl
  kept (s ∷ rows) r (e, h) =
      one_update s r (changes (λ t. some (rewritten t)) rows) (flip r.id s.id e) ∙ kept rows r h

  bulk_update-changes :
      (rows : List AuthRow)
      → HasUniqueIds rows
      → bulk_update (changes (λ s. some (rewritten s)) rows) rows ≡ map rewritten rows
  unfolding rewritten bulk_update HasUniqueIds
  bulk_update-changes [] h = refl
  bulk_update-changes (r ∷ rows) (apart, h) =
      let ps : List AuthRow = changes (λ s. some (rewritten s)) rows in
      ap (λ x. x ∷ bulk_update (rewritten r ∷ ps) rows)
        (own_update r ps ∙ kept rows (rewritten r) apart)
      ∙ ap (λ t. rewritten r ∷ t) (skip (rewritten r) ps rows apart ∙ bulk_update-changes rows h)

  -- A table in which every row changes.
  convert_all-map :
      (convert : AuthRow → Result MigrationError (Option AuthRow)) (table : List AuthRow)
      → HasUniqueIds table
      → All (λ r. convert r ≡ ok (some (rewritten r))) table
      → convert_all convert table ([], table) ≡ ok (map rewritten table)
  convert_all-map convert table h each =
      convert_all-changes convert (λ s. some (rewritten s)) table table each
      ∙ ap ok (bulk_update-changes table h)

-- A table in which no row changes.
convert_all-same :
    (convert : AuthRow → Result MigrationError (Option AuthRow)) (table rows : List AuthRow)
    → All (λ r. convert r ≡ ok none) rows
    → convert_all convert rows ([], table) ≡ ok table
unfolding convert_all
convert_all-same convert table [] h = refl
convert_all-same convert table (r ∷ rows) (e, h) = rw e (convert_all-same convert table rows h)

unfoldable pub migrated : AuthRow → AuthRow
migrated r = record r { authentication = with_schema (current_of r.authentication) }

-- the four methods of the old document, and nothing else
unfoldable pub flattened : AuthRow → AuthRow
flattened r = record r {
  authentication = object (flat_claims (current_of r.authentication) no_fields);
}

-- The flat document is read out of a converted one.
nested : Json → Fields
nested v = elim (get (codes "provider_claims") (current_of v)) [
  | some w ↦ current_of w
  | none ↦ no_fields
]

migrate_row-migrated : (r : AuthRow) → migrate_row (migrated r) ≡ ok none
unfolding migrate_row migrated get is_version_one
migrate_row-migrated r = refl

restore_row-migrated :
    (r : AuthRow)
    → restore_row (migrated r)
      ≡ ok (
          some (
            rewritten (λ s. object (flat_claims (nested s.authentication) no_fields)) (migrated r)))
unfolding restore_row migrated get is_version_one rewritten nested
restore_row-migrated r = refl

flattened-migrated :
    (r : AuthRow)
    → rewritten (λ s. object (flat_claims (nested s.authentication) no_fields)) (migrated r)
      ≡ flattened r
unfolding migrated get rewritten nested flattened
flattened-migrated r = refl

module _ (g : AuthRow → AuthRow) where
  All-map :
      (P : AuthRow → Type 0)
      → ((r : AuthRow) → P (g r))
      → (rows : List AuthRow) → All P (map g rows)
  All-map P h [] = tt
  All-map P h (r ∷ rows) = (h r, All-map P h rows)

  map-eq :
      (f k : AuthRow → AuthRow)
      → ((r : AuthRow) → f (g r) ≡ k r)
      → (rows : List AuthRow) → map f (map g rows) ≡ map k rows
  map-eq f k h [] = refl
  map-eq f k h (r ∷ rows) =
      ap (λ x. x ∷ map f (map g rows)) (h r) ∙ ap (λ t. k r ∷ t) (map-eq f k h rows)

apart-migrated :
    (r : AuthRow) (rows : List AuthRow)
    → All (λ s. r.id == s.id ≡ false) rows
    → All (λ s. r.id == s.id ≡ false) (map migrated rows)
unfolding migrated
apart-migrated r [] h = tt
apart-migrated r (s ∷ rows) (e, h) = (e, apart-migrated r rows h)

migrated-HasUniqueIds : (rows : List AuthRow) → HasUniqueIds rows → HasUniqueIds (map migrated rows)
unfolding HasUniqueIds migrated
migrated-HasUniqueIds [] h = tt
migrated-HasUniqueIds (r ∷ rows) (apart, h) =
    (apart-migrated r rows apart, migrated-HasUniqueIds rows h)

changes-migrated :
    (rows : List AuthRow)
    → All (λ r. is_version_one r.authentication ≡ false) rows
    → All
        (λ r.
          migrate_row r ≡ ok (some (rewritten (λ s. with_schema (current_of s.authentication)) r)))
        rows
unfolding migrate_row rewritten
changes-migrated [] h = tt
changes-migrated (r ∷ rows) (e, h) = (rw e refl, changes-migrated rows h)

-- In a table with unique keys whose documents have not the new schema yet, the batches of
-- `migrate_authentication_schema` convert each row once and leave none out. A second run changes nothing.
-- `restore_flat_authentication` then gives every row the four methods that it had, `unknown` for one that
-- was missing, but not the `authserv_id`.
pub migrate_authentication_schema-IsMigration :
    (table : List AuthRow)
    → HasUniqueIds table
    → All (λ r. is_version_one r.authentication ≡ false) table
    → (migrate_authentication_schema table ≡ ok (map migrated table))
      × (migrate_authentication_schema (map migrated table) ≡ ok (map migrated table))
      × (restore_flat_authentication (map migrated table) ≡ ok (map flattened table))
unfolding migrate_authentication_schema restore_flat_authentication migrated rewritten
migrate_authentication_schema-IsMigration table unique flat = (
  convert_all-map (λ s. with_schema (current_of s.authentication)) migrate_row table unique
      (changes-migrated table flat),
  convert_all-same migrate_row (map migrated table) (map migrated table)
      (All-map migrated _ migrate_row-migrated table),
  convert_all-map (λ s. object (flat_claims (nested s.authentication) no_fields)) restore_row
        (map migrated table) (migrated-HasUniqueIds table unique)
        (All-map migrated _ restore_row-migrated table)
      ∙ ap ok (map-eq migrated _ flattened flattened-migrated table),
)
