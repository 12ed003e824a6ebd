-- ===== src/Secrets/Keyring/Rings.antt =====
-- scripts/rotate_credential_keyring.py and app/gateway/crypto.py: the rings that the application has before
-- and after a rotation.
use mailgate.Common.{
  length, is_empty, contains, Result, ok, err, ◌>>=◌, Ensures, Ensures-bind, Text, codes, is_space,
  strip, ltb, if-split, Bool-cases, ◌==◌, nat_eq, list_eq, option_eq, ℕ, ◌≡◌, refl, sym, ap, ◌∙◌,
  inl, inr, Bool, true, false, not, ◌||◌, Option, none, some, [], ◌∷◌, ◌++◌, arith,
}
use mailgate.Crypto.{CredentialKeyring, is_key_id, key_values, from_settings}
use mailgate.Secrets.{
  Raised, Entry, Files, Installation, is_private, ReadCall, checked_text, read_opened, read_entry,
  read_secret,
}
use mailgate.Secrets.Document.{Document, load_text}
use mailgate.Secrets.Document.Accepted.{old_keys, is_old_key, IsAccepted, load_text-Ensures}
use mailgate.Secrets.Keyring.{
  KeyringCalls, KeyringRequest, keyring_name, load_keyring, imported, import_legacy,
}
use mailgate.Secrets.Keyring.Changed.{IsPrior}
use mailgate.Secrets.Keyring.Envelopes.{same_ok}

module _ (p : KeyringCalls) (request : KeyringRequest) (legacy : Text)
    (valid : is_old_key p.cryptography legacy ≡ true) where
  abbrev raw_text : ReadCall → Files → Result Raised (Text × ℕ)
  raw_text call files = read_secret p.codec call 65536 keyring_name files

  -- A keyring that the script loads is one that the application accepts.
  abbrev IsLoaded : ReadCall → Files → Document → Type 0
  IsLoaded call files d =
      (raw : Text) × (m : ℕ) × (raw_text call files ≡ ok (raw, m))
      × IsAccepted p.cryptography legacy valid (from_settings p.cryptography raw legacy) d

  checked_text-nonempty :
      (t : Option Text) (mode : ℕ)
      → Ensures (λ (v : Text × ℕ). is_empty v.0 ≡ false) (checked_text t mode)
  checked_text-nonempty none mode = tt
  checked_text-nonempty (some t) mode =
      if-split (Ensures (λ (v : Text × ℕ). is_empty v.0 ≡ false))
        (is_empty (strip is_space t) || contains (strip is_space t) 0) (err _) (ok _) (λ _. tt)
        (λ e. first _ _ e)
    where
      first : (a b : Bool) → a || b ≡ false → a ≡ false
      first a b h = ground arith

  read_opened-nonempty :
      (e : Entry) (o : Option Entry)
      → Ensures (λ (v : Text × ℕ). is_empty v.0 ≡ false) (read_opened p.codec 65536 e o)
  read_opened-nonempty e none = tt
  read_opened-nonempty e (some opened) =
      if-split (Ensures (λ (v : Text × ℕ). is_empty v.0 ≡ false))
        (not (opened.identity == e.identity)) (err _) _ (λ _. tt)
        (λ _.
          if-split (Ensures (λ (v : Text × ℕ). is_empty v.0 ≡ false))
            (ltb 65536 (length opened.content)) (err _) _ (λ _. tt)
            (λ _. checked_text-nonempty (p.codec.decode opened.content) e.mode))

  read_entry-nonempty :
      (call : ReadCall) (e : Option Entry)
      → Ensures (λ (v : Text × ℕ). is_empty v.0 ≡ false) (read_entry p.codec call 65536 e)
  read_entry-nonempty call none = tt
  read_entry-nonempty call (some e) =
      if-split (Ensures (λ (v : Text × ℕ). is_empty v.0 ≡ false)) (is_private e) _ (err _)
        (λ _. read_opened-nonempty e (call e)) (λ _. tt)

  IsAccepted-text :
      (raw : Text)
      → is_empty raw ≡ false
      → Ensures
          (IsAccepted p.cryptography legacy valid (from_settings p.cryptography raw legacy))
          (load_text p.cryptography raw)
  IsAccepted-text [] h = cc
  IsAccepted-text (x ∷ raw) h = load_text-Ensures p.cryptography legacy valid x raw

  load-IsLoaded :
      (call : ReadCall) (files : Files)
      → Ensures (λ (v : Document × ℕ). IsLoaded call files v.0) (load_keyring p request call files)
  unfolding load_keyring read_secret
  load-IsLoaded call files =
      loaded (read_entry p.codec call 65536 (files keyring_name)) refl
        (read_entry-nonempty call (files keyring_name))
    where
      loaded :
          (r : Result Raised (Text × ℕ))
          → read_entry p.codec call 65536 (files keyring_name) ≡ r
          → Ensures (λ (v : Text × ℕ). is_empty v.0 ≡ false) r
          → Ensures
              (λ (v : Document × ℕ). IsLoaded call files v.0)
              (r >>= λ (raw, mode).
                load_text p.cryptography raw >>= λ document. ok (document, mode))
      loaded (err e) at h = tt
      loaded (ok (raw, m)) at h =
          Ensures-bind
            (IsAccepted p.cryptography legacy valid (from_settings p.cryptography raw legacy)) _
            (load_text p.cryptography raw) _ (IsAccepted-text raw h)
            (λ d accepted. (raw, m, at, accepted))

  same_text :
      {a b : Text} {n m : ℕ} → ◌≡◌ {A = Result Raised (Text × ℕ)} (ok (a, n)) (ok (b, m)) → a ≡ b
  same_text h = cc

  -- The document that a run started from, where there was a keyring.
  prior_keyring :
      (w : Installation) (d : Document) (raw : Text) (m : ℕ)
      → raw_text p.read w.files ≡ ok (raw, m)
      → IsPrior p request w d
      → IsLoaded p.read w.files d
  unfolding read_secret
  prior_keyring w d raw m read (inl (k, loaded)) = rw loaded at (load-IsLoaded p.read w.files)
  prior_keyring w d raw m read (inr (missing, (k, imported'))) = cc (rw missing at read)

  pub kept_by_keyring :
      (w : Installation) (d : Document) (raw : Text) (m : ℕ) (ring : CredentialKeyring)
      → raw_text p.read w.files ≡ ok (raw, m)
      → from_settings p.cryptography raw legacy ≡ ok ring
      → IsPrior p request w d
      → (ring.ring_keys ≡ d.keys) × (ring.legacy_keys ≡ key_values d.keys ++ old_keys legacy)
  kept_by_keyring w d raw m ring read settings prior =
      let (raw0, m0, read0, (ring0, settings0, primary0, keys0, legacy0)) =
        prior_keyring w d raw m read prior in
      let same_ring : ring0 ≡ ring = same_ok (
        sym settings0
        ∙ ap (λ t. from_settings p.cryptography t legacy) (same_text (sym read0 ∙ read))
        ∙ settings) in
      (rw same_ring at keys0, rw same_ring at legacy0)

  -- The application reads a ring from the file, with the old key as its setting.
  abbrev pub Reads : Installation → Document → Type 0
  Reads w e =
      (raw : Text) × (m : ℕ) × (ring : CredentialKeyring) × (read_secret p.codec p.read_again 65536
          keyring_name w.files
        ≡ ok (raw, m))
      × (from_settings p.cryptography raw legacy ≡ ok ring)
      × (ring.primary_id ≡ some e.primary)
      × (ring.ring_keys ≡ e.keys)
      × (ring.legacy_keys ≡ key_values e.keys ++ old_keys legacy)

  pub load_keyring-Reads :
      (w : Installation) (e : Document) (k : ℕ)
      → load_keyring p request p.read_again w.files ≡ ok (e, k)
      → Reads w e
  load_keyring-Reads w e k again =
      let loaded : IsLoaded p.read_again w.files e =
        rw again at (load-IsLoaded p.read_again w.files) in
      let (raw, m, read, (ring, settings, primary, keys, old)) = loaded in
      (raw, m, ring, read, settings, primary, keys, old)

module _ (p : KeyringCalls) (request : KeyringRequest) where
  -- the ring of the old key alone
  pub old_ring :
      (legacy : Text) (ring : CredentialKeyring)
      → from_settings p.cryptography [] legacy ≡ ok ring
      → (ring.ring_keys ≡ []) × (ring.legacy_keys ≡ legacy ∷ [])
  unfolding from_settings
  old_ring [] ring h = cc
  old_ring (x ∷ legacy) ring h = elim (Bool-cases (p.cryptography.is_fernet_key (x ∷ legacy))) [
    | inr bad ↦ cc (rw bad at h)
    | inl good ↦
        let same_ring : ◌≡◌ {A = CredentialKeyring}
            (record { primary_id = none; ring_keys = []; legacy_keys = (x ∷ legacy) ∷ [] }) ring =
          same_ok (rw good at h) in
        (rw (← same_ring) refl, rw (← same_ring) refl)
  ]

  -- The document that an import starts from holds the old key.
  imported_value :
      (id legacy : Text) (m k : ℕ) (d : Document)
      → imported p request id (ok (legacy, m)) ≡ ok (d, k)
      → d.keys ≡ (id, legacy) ∷ []
  imported_value id legacy m k d h = elim (Bool-cases (p.cryptography.is_fernet_key legacy)) [
    | inr bad ↦ cc (rw bad at h)
    | inl good ↦ same_keys (rw good at h)
  ]
    where
      same_keys :
          {a b : Document} {n k : ℕ}
          → ◌≡◌ {A = Result Raised (Document × ℕ)} (ok (a, n)) (ok (b, k))
          → b.keys ≡ a.keys
      same_keys e = cc

  pub import_value :
      (o : Option Text) (files : Files) (legacy : Text) (m k : ℕ) (d : Document)
      → read_secret p.codec p.read_legacy 65536 (codes "master_key") files ≡ ok (legacy, m)
      → import_legacy p request o files ≡ ok (d, k)
      → contains (key_values d.keys) legacy ≡ true
  import_value none files legacy m k d read h = cc
  import_value (some id) files legacy m k d read h = elim (Bool-cases (not (is_key_id id))) [
    | inl bad ↦ cc (rw bad at h)
    | inr good ↦ elim (Bool-cases (id == request.new_primary_id)) [
      | inl same' ↦ cc (rw (good, same') at h)
      | inr apart ↦
          rw
            (
              imported_value id legacy m k d (rw (good, apart, read) at h),
              (list_eq.agrees legacy legacy).1 refl,
            )
            refl
    ]
  ]
