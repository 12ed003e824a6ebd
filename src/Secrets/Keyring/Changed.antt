-- ===== src/Secrets/Keyring/Changed.antt =====
-- scripts/rotate_credential_keyring.py: what a run leaves in the directory.
use mailgate.Common.{
  length, any, Result, ok, err, Text, leb, if-split, Bool-cases, ◌==◌, nat_eq, list_eq, option_eq,
  ℕ, ◌≡◌, refl, sym, ap, ◌∙◌, ◌⊎◌, inl, inr, Bool, true, false, not, Option, none,
}
use mailgate.Regex.{differs}
use mailgate.Secrets.{
  key_exists, limit_reached, Raised, tool, Entry, Files, Installation, proceed, with_files,
}
use mailgate.Secrets.Document.{Document, maximum_keys, same_document}
use mailgate.Secrets.Keyring.{
  KeyringCalls, KeyringRequest, keyring_name, load_keyring, check_written, store_document,
  generated_key, with_generated, add_key, rotate_loaded, import_legacy,
}
use mailgate.Secrets.Keyring.Retained.{
  IsExtension, added-IsExtension, activated-IsExtension, same_document-IsExtension,
}
use mailgate.Secrets.Writing.Atomic.{
  IsComplete, IsOldOrComplete, IsReplacement, atomic_write_secret-IsReplacement,
}

module _ (p : KeyringCalls) (request : KeyringRequest) (w0 : Installation) where
  abbrev keyring : Installation → Option Entry
  keyring w = w.files keyring_name

  -- The document that the run starts from: the keyring's, or the one of the old key.
  abbrev pub IsPrior : Document → Type 0
  IsPrior d =
      ((m : ℕ) × (load_keyring p request p.read w0.files ≡ ok (d, m)))
      ⊎ ((keyring w0 ≡ none)
          × ((m : ℕ) × (import_legacy p request request.legacy_key_id w0.files ≡ ok (d, m))))

  -- Where a run stops with an error, the keyring is as it was or a complete extension.
  abbrev pub IsOldOrExtended : Installation → Type 0
  IsOldOrExtended w =
      (keyring w ≡ keyring w0)
      ⊎ ((d : Document) × (e : Document) × IsPrior d
          × IsExtension request.new_primary_id d e
          × IsComplete p.codec (p.dumps e) (keyring w))

  abbrev pub IsReturned : Result Raised Bool → Installation → Type 0
  IsReturned (ok true) w =
      (d : Document) × (e : Document) × (m : ℕ) × IsPrior d
      × (load_keyring p request p.read_again w.files ≡ ok (e, m))
      × IsExtension request.new_primary_id d e
  IsReturned (ok false) w =
      (d : Document) × (m : ℕ) × (load_keyring p request p.read w.files ≡ ok (d, m))
      × (d.primary ≡ request.new_primary_id)
      × (keyring w ≡ keyring w0)
  IsReturned (err e) w = Unit

  abbrev pub IsChange : Result Raised Bool × Installation → Type 0
  IsChange (r, w) = IsOldOrExtended w × IsReturned r w

  check_written-IsChange :
      (d e : Document) (r : Result Raised (Document × ℕ)) (w : Installation)
      → IsPrior d
      → IsExtension request.new_primary_id d e
      → IsOldOrExtended w
      → r ≡ load_keyring p request p.read_again w.files
      → IsChange (check_written p request e r, w)
  check_written-IsChange d e (err x) w prior extended stopped h = (stopped, tt)
  check_written-IsChange d e (ok (f, m)) w prior extended stopped h =
      elim (Bool-cases (same_document f e)) [
        | inr differs ↦ rw differs (stopped, tt)
        | inl equal ↦ rw equal (
          stopped,
          (
            d,
            f,
            m,
            prior,
            sym h,
            same_document-IsExtension request.new_primary_id d e f equal extended,
          ),
        )
      ]

  stopped-IsOldOrExtended :
      (d e : Document) (w w1 : Installation)
      → keyring w ≡ keyring w0
      → IsPrior d
      → IsExtension request.new_primary_id d e
      → IsOldOrComplete p.codec (p.dumps e) (keyring w) (keyring w1)
      → IsOldOrExtended w1
  stopped-IsOldOrExtended d e w w1 unchanged prior extended (inl old) = inl (old ∙ unchanged)
  stopped-IsOldOrExtended d e w w1 unchanged prior extended (inr complete) =
      inr (d, e, prior, extended, complete)

  stored-IsChange :
      (d e : Document) (w : Installation) (r : Result Raised (Unit {0}) × Files)
      → keyring w ≡ keyring w0
      → IsPrior d
      → IsExtension request.new_primary_id d e
      → IsReplacement p.codec p.write keyring_name (p.dumps e) w.files r
      → IsChange (
          proceed (with_files w r) (λ _ w1.
            (check_written p request e (load_keyring p request p.read_again w1.files), w1)))
  stored-IsChange d e w (err x, files) unchanged prior extended (t, entry, left, old_or_new, _) = (
    stopped-IsOldOrExtended d e w (record w { files = files }) unchanged prior extended
        (rw (ap (λ (f : Files). f keyring_name) left) old_or_new),
    tt,
  )
  stored-IsChange d e w (ok _, files) unchanged prior extended (t, entry, left, old_or_new, _) =
      check_written-IsChange d e (load_keyring p request p.read_again files)
        (record w { files = files }) prior extended
        (stopped-IsOldOrExtended d e w (record w { files = files }) unchanged prior extended
          (rw (ap (λ (f : Files). f keyring_name) left) old_or_new))
        refl

  store_document-IsChange :
      (d e : Document) (mode : ℕ) (w : Installation)
      → keyring w ≡ keyring w0
      → IsPrior d
      → IsExtension request.new_primary_id d e
      → IsChange (store_document p request e mode w)
  unfolding store_document
  store_document-IsChange d e mode w unchanged prior extended =
      stored-IsChange d e w _ unchanged prior extended
        (atomic_write_secret-IsReplacement p.codec p.write keyring_name (p.dumps e) mode w.files)

  pub stopped-IsChange :
      (e : Raised) (w : Installation) → keyring w ≡ keyring w0 → IsChange (err e, w)
  stopped-IsChange e w unchanged = (inl unchanged, tt)

  pub add_key-IsChange :
      (d : Document) (mode : ℕ) (w : Installation)
      → keyring w ≡ keyring w0
      → IsPrior d
      → any (λ k. k.0 == request.new_primary_id) d.keys ≡ false
      → IsChange (add_key p request d mode w)
  unfolding add_key
  add_key-IsChange d mode w unchanged prior fresh =
      if-split IsChange (leb maximum_keys (length d.keys)) _ _
        (λ _. stopped-IsChange (tool limit_reached) w unchanged)
        (λ _. generated (generated_key p request))
    where
      generated : (r : Result Raised Text) → IsChange (with_generated p request d mode r w)
      generated (err e) = stopped-IsChange e w unchanged
      generated (ok value) =
          store_document-IsChange d _ mode w unchanged prior
            (added-IsExtension request.new_primary_id value d fresh)

  pub rotate_loaded-IsChange :
      (w : Installation) (r : Result Raised (Document × ℕ))
      → keyring w ≡ keyring w0
      → r ≡ load_keyring p request p.read w.files
      → r ≡ load_keyring p request p.read w0.files
      → IsChange (rotate_loaded p request r w)
  rotate_loaded-IsChange w (err e) unchanged h h0 = stopped-IsChange e w unchanged
  rotate_loaded-IsChange w (ok (d, m)) unchanged h h0 =
      elim (Bool-cases (any (λ k. k.0 == request.new_primary_id) d.keys)) [
        | inr fresh ↦ rw fresh (add_key-IsChange d _ w unchanged (inl (m, sym h0)) fresh)
        | inl there ↦ rw there (
            if-split IsChange (d.primary == request.new_primary_id) _ _
              (λ e. (
                inl unchanged,
                (d, m, sym h, (list_eq.agrees d.primary request.new_primary_id).0 e, unchanged),
              ))
              (λ _.
                if-split IsChange (not request.activate_existing) _ _
                  (λ _. stopped-IsChange (tool key_exists) w unchanged)
                  (λ _.
                    store_document-IsChange d _ _ w unchanged (inl (m, sym h0))
                      (activated-IsExtension request.new_primary_id d there))))
      ]
