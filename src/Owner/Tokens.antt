-- ===== src/Owner/Tokens.antt =====
-- `tokens` and `token_revoke` of app/gateway/views.py, with `TokenForm` of app/gateway/forms.py.
use mailgate.Common.{
  length, is_empty, any, is_some, modify, find, find-any, All, Text, codes, ltb, if◌then◌else◌,
  Bool-cases, Option-cases, ◌==◌, nat_eq, list_eq, option_eq, ℕ, zero, suc, ◌+◌, ◌*◌, ◌≡◌, refl, ap,
  inl, inr, Bool, true, false, ◌||◌, Option, none, some, List, [], ◌∷◌, arith,
}
use mailgate.Models.{ApiToken, Database, audit, active, issue, signal_eq, state_eq, auth_eq}
use mailgate.Owner.{Page, redirected, not_found, not_allowed}

abbrev pub max_lifetime : ℕ
max_lifetime = 365

-- `TokenForm.expires_at`
unfoldable pub expires_at : ℕ → ℕ → Option ℕ
expires_at now zero = none
expires_at now (suc days) = some (now + suc days * 86_400)

abbrev pub expiry_text : Option ℕ → Text
expiry_text none = codes "never"
expiry_text (some _) = codes "finite"

abbrev pub audit_created : ℕ → Text → Database × ApiToken × Text → Database × Text
audit_created now user (db, token, raw) = (
  audit now user (codes "token.created") (some (codes "ApiToken", token.pk))
      ((codes "prefix", token.prefix) ∷ (codes "expiry", expiry_text token.expires_at) ∷ []) db,
  raw,
)

-- `tokens`, for a POST: the database and the raw token that the page shows once. The form refuses
-- an empty name, one of more than 120 characters, and a lifetime of more than a year.
unfoldable pub create_token :
    (Text → Text) → ℕ → ℕ → Text → Text → Text → ℕ → Database → Option (Database × Text)
unfolding issue audit expires_at
create_token sha256 fresh now secret user name lifetime_days db =
    if is_empty name || ltb 120 (length name) || ltb max_lifetime lifetime_days
    then none
    else some (
        audit_created now user
          (issue sha256 fresh now secret name (expires_at now lifetime_days) db))

abbrev pub revoked : ℕ → ApiToken → ApiToken
revoked now t = record t { revoked_at = some now }

abbrev pub revoke_found : ℕ → Text → ℕ → Option ApiToken → Database → Page × Database
revoke_found now user pk none db = (not_found, db)
revoke_found now user pk (some t) db = elim t.revoked_at [
  | some _ ↦ (redirected (codes "tokens"), db)
  | none ↦ (
    redirected (codes "tokens"),
    audit now user (codes "token.revoked") (some (codes "ApiToken", pk))
        ((codes "prefix", t.prefix) ∷ [])
        (record db { tokens = modify (λ x. x.pk == pk) (revoked now) db.tokens }),
  )
]

-- `token_revoke`
unfoldable pub token_revoke : ℕ → Text → Bool → ℕ → Database → Page × Database
unfolding audit
token_revoke now user is_post pk db =
    if is_post
    then revoke_found now user pk (find (λ t. t.pk == pk) db.tokens) db
    else (not_allowed, db)

-- The keys of the tokens are unique.
abbrev pub HasUniqueKeys : List ApiToken → Type 0
HasUniqueKeys [] = Unit
HasUniqueKeys (t ∷ ts) = (any (λ s. s.pk == t.pk) ts ≡ false) × HasUniqueKeys ts

-- Every token with the key is revoked.
abbrev pub IsRevoked : ℕ → List ApiToken → Type 0
IsRevoked pk = All (λ t. t.pk ≡ pk → is_some t.revoked_at ≡ true)

modify-IsRevoked :
    (now pk : ℕ) (ts : List ApiToken) → IsRevoked pk (modify (λ x. x.pk == pk) (revoked now) ts)
modify-IsRevoked now pk [] = tt
modify-IsRevoked now pk (t ∷ ts) = elim (Bool-cases (t.pk == pk)) [
  | inl e ↦ rw e (λ _. refl, modify-IsRevoked now pk ts)
  | inr e ↦ rw e (λ h. cc ((nat_eq.agrees t.pk pk).1 h, e), modify-IsRevoked now pk ts)
]

absent-IsRevoked :
    (pk : ℕ) (ts : List ApiToken) → any (λ t. t.pk == pk) ts ≡ false → IsRevoked pk ts
absent-IsRevoked pk [] h = tt
absent-IsRevoked pk (t ∷ ts) h = elim (Bool-cases (t.pk == pk)) [
  | inl e ↦ cc (rw e at h)
  | inr e ↦ (λ k. cc ((nat_eq.agrees t.pk pk).1 k, e), absent-IsRevoked pk ts (rw e at h))
]

some_token : {a b : ApiToken} → some a ≡ some b → a ≡ b
some_token h = cc

found-IsRevoked :
    (pk : ℕ) (ts : List ApiToken) (t : ApiToken)
    → HasUniqueKeys ts
    → find (λ t. t.pk == pk) ts ≡ some t
    → is_some t.revoked_at ≡ true
    → IsRevoked pk ts
found-IsRevoked pk [] t u h k = tt
found-IsRevoked pk (x ∷ xs) t (n, u) h k = elim (Bool-cases (x.pk == pk)) [
  | inl e ↦
      let same : x ≡ t = some_token (rw e at h) in
      let key : x.pk ≡ pk = (nat_eq.agrees x.pk pk).0 e in
      (λ _. rw same k, absent-IsRevoked pk xs (rw key at n))
  | inr e ↦ (λ j. cc ((nat_eq.agrees x.pk pk).1 j, e), found-IsRevoked pk xs t u (rw e at h) k)
]

revoke_found-IsRevoked :
    (now : ℕ) (user : Text) (pk : ℕ) (o : Option ApiToken) (db : Database)
    → HasUniqueKeys db.tokens
    → find (λ t. t.pk == pk) db.tokens ≡ o
    → IsRevoked pk (revoke_found now user pk o db).1.tokens
unfolding audit
revoke_found-IsRevoked now user pk none db u e =
    absent-IsRevoked pk db.tokens (find-any (λ t. t.pk == pk) db.tokens e)
revoke_found-IsRevoked now user pk (some t) db u e = elim (Option-cases t.revoked_at) [
  | inl open' ↦ rw open' (modify-IsRevoked now pk db.tokens)
  | inr (r, closed) ↦ rw closed (found-IsRevoked pk db.tokens t u e (ap is_some closed))
]

-- A revoked token is never active again.
revoked_inactive : (now : ℕ) (t : ApiToken) → is_some t.revoked_at ≡ true → active now t ≡ false
unfolding active
revoked_inactive now t h = ground arith

All-inactive :
    (now pk : ℕ) (ts : List ApiToken)
    → IsRevoked pk ts
    → All (λ t. t.pk ≡ pk → active now t ≡ false) ts
All-inactive now pk [] h = tt
All-inactive now pk (t ∷ ts) (h, hs) =
    (λ e. revoked_inactive now t (h e), All-inactive now pk ts hs)

-- After a POST to `token_revoke` no token with the key is active, at whatever time it is asked.
pub token_revoke-inactive :
    (now : ℕ) (user : Text) (pk : ℕ) (db : Database) (later : ℕ)
    → HasUniqueKeys db.tokens
    → All (λ t. t.pk ≡ pk → active later t ≡ false) (token_revoke now user true pk db).1.tokens
unfolding token_revoke
token_revoke-inactive now user pk db later u =
    All-inactive later pk _
      (revoke_found-IsRevoked now user pk (find (λ t. t.pk == pk) db.tokens) db u refl)
