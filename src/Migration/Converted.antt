-- ===== src/Migration/Converted.antt =====
-- app/gateway/migrations/0005_provider_presets_and_authentication_schema.py: the batches together convert
-- each row once.
use mailgate.Common.{
  length, All, Result, ok, Bool-cases, ◌==◌, nat_eq, list_eq, option_eq, ◌≡◌, refl, sym, ap, ◌∙◌,
  inl, inr, Option, none, some, List, [], ◌∷◌, ◌++◌, map,
}
use mailgate.Migration.{
  AuthRow, MigrationError, updated, bulk_update, add_pending, flush, convert_all,
}

abbrev pub changes : (AuthRow → Option AuthRow) → List AuthRow → List AuthRow
changes f [] = []
changes f (r ∷ rows) = elim (f r) [ none ↦ changes f rows | some q ↦ q ∷ changes f rows ]

abbrev pub changed : Option AuthRow → AuthRow → AuthRow
changed none r = r
changed (some q) r = record r { authentication = q.authentication }

updated-append :
    (ps qs : List AuthRow) (r : AuthRow) → updated (ps ++ qs) r ≡ updated qs (updated ps r)
updated-append [] qs r = refl
updated-append (p ∷ ps) qs r = updated-append ps qs _

bulk_update-append :
    (ps qs table : List AuthRow)
    → bulk_update qs (bulk_update ps table) ≡ bulk_update (ps ++ qs) table
unfolding bulk_update
bulk_update-append ps qs [] = refl
bulk_update-append ps qs (r ∷ table) =
    ap (λ x. x ∷ map (updated qs) (map (updated ps) table)) (sym (updated-append ps qs r))
    ∙ ap (λ t. updated (ps ++ qs) r ∷ t) (bulk_update-append ps qs table)

bulk_update-nil : (table : List AuthRow) → bulk_update [] table ≡ table
unfolding bulk_update
bulk_update-nil [] = refl
bulk_update-nil (r ∷ table) = ap (λ t. r ∷ t) (bulk_update-nil table)

-- What is updated already and what is pending, together.
unfoldable pub total : List AuthRow × List AuthRow → List AuthRow
total (pending, table) = bulk_update pending table

flush-total : (s : List AuthRow × List AuthRow) → flush s ≡ total s
unfolding total
flush-total ([], table) = sym (bulk_update-nil table)
flush-total (r ∷ pending, table) = refl

one_or_none : Option AuthRow → List AuthRow
one_or_none none = []
one_or_none (some q) = q ∷ []

total-add_pending :
    (o : Option AuthRow) (s : List AuthRow × List AuthRow)
    → total (add_pending o s) ≡ bulk_update (one_or_none o) (total s)
unfolding total one_or_none
total-add_pending none (pending, table) = sym (bulk_update-nil (bulk_update pending table))
total-add_pending (some q) (pending, table) =
    elim (Bool-cases (length (pending ++ q ∷ []) == 500)) [
      | inl full ↦ rw full (bulk_update-nil _ ∙ sym (bulk_update-append pending (q ∷ []) table))
      | inr room ↦ rw room (sym (bulk_update-append pending (q ∷ []) table))
    ]

module _ (convert : AuthRow → Result MigrationError (Option AuthRow))
    (f : AuthRow → Option AuthRow) where
  -- The batches make no difference.
  convert_all_lem :
      (rows : List AuthRow) (s : List AuthRow × List AuthRow)
      → All (λ r. convert r ≡ ok (f r)) rows
      → convert_all convert rows s ≡ ok (bulk_update (changes f rows) (total s))
  unfolding convert_all one_or_none
  convert_all_lem [] s h = ap ok (flush-total s ∙ sym (bulk_update-nil (total s)))
  convert_all_lem (r ∷ rows) s (e, h) = rw e (
      convert_all_lem rows (add_pending (f r) s) h
      ∙ ap ok (rw (total-add_pending (f r) s) (one_more (f r))))
    where
      one_more :
          (o : Option AuthRow)
          → bulk_update (changes f rows) (bulk_update (one_or_none o) (total s))
            ≡ bulk_update (elim o [ none ↦ changes f rows | some q ↦ q ∷ changes f rows ]) (total s)
      one_more none = ap (bulk_update (changes f rows)) (bulk_update-nil (total s))
      one_more (some q) = bulk_update-append (q ∷ []) (changes f rows) (total s)

  pub convert_all-changes :
      (rows table : List AuthRow)
      → All (λ r. convert r ≡ ok (f r)) rows
      → convert_all convert rows ([], table) ≡ ok (bulk_update (changes f rows) table)
  unfolding total
  convert_all-changes rows table h =
      convert_all_lem rows ([], table) h
      ∙ ap (λ t. ok (bulk_update (changes f rows) t)) (bulk_update-nil table)
