-- ===== src/Owner/Setup.antt =====
-- `setup_owner` of app/gateway/views.py with `OwnerCreationForm` of app/gateway/forms.py: the
-- installation gets one owner, who knows the setup token.
use mailgate.Common.{
  is_empty, Text, codes, if◌then◌else◌, if-split, Bool-cases, ◌==◌, nat_eq, list_eq, option_eq, ℕ,
  ◌≡◌, refl, ◌⊎◌, inl, inr, Bool, true, false, not, ◌&&◌, Option, none, some, List, [], ◌∷◌, ◌++◌,
  map, arith,
}
use mailgate.Models.{Owner, Database, audit, signal_eq, state_eq, auth_eq}
use mailgate.Owner.{Page, redirected, rendered}

pub record OwnerPost : Type 0 where
  pub username : Text
  pub setup_token : Text
  -- whether Django's own `UserCreationForm` accepts the names and the passwords
  pub is_accepted : Bool

-- `OwnerCreationForm.clean`
unfoldable pub clean_owner : Text → OwnerPost → Database → Bool
clean_owner expected post db =
    post.is_accepted
    && not (is_empty expected)
    && post.setup_token == expected
    && is_empty db.owners

-- `OwnerCreationForm.save`, and the audit event
unfoldable pub create_owner : ℕ → ℕ → OwnerPost → Database → Database
unfolding audit
create_owner now fresh post db =
    audit now post.username (codes "owner.created") (some (codes "User", fresh)) [] (record db {
      owners =
          db.owners
          ++ record { pk = fresh; username = post.username; is_staff = true; is_superuser = true }
            ∷ [];
    })

-- the transaction; `others` is what other requests did before it got the lock
unfoldable pub locked_setup : ℕ → ℕ → (Database → Database) → OwnerPost → Database → Page × Database
unfolding create_owner
locked_setup now fresh others post db =
    let seen : Database = others db in
    if is_empty seen.owners
    then (redirected (codes "mailbox-create"), create_owner now fresh post seen)
    else (redirected (codes "login"), seen)

-- `setup_owner`: `post` is there if the method is POST
unfoldable pub setup_owner :
    Text → Bool → ℕ → ℕ → (Database → Database) → Option OwnerPost → Database → Page × Database
unfolding locked_setup
setup_owner expected authenticated now fresh others none db =
    if is_empty db.owners
    then (rendered, db)
    else (redirected (if authenticated then codes "dashboard" else codes "login"), db)
setup_owner expected authenticated now fresh others (some post) db =
    if not (is_empty db.owners)
    then (redirected (if authenticated then codes "dashboard" else codes "login"), db)
    else if clean_owner expected post db
    then locked_setup now fresh others post db
    else (rendered, db)

-- Nothing happened, or other requests went first, or the one owner is the one of the request.
abbrev pub IsSetup : Text → (Database → Database) → Option OwnerPost → Database → Database → Type 0
IsSetup expected others post db db' =
    (db' ≡ db)
    ⊎ ((db' ≡ others db)
        ⊎ ((p : OwnerPost) × (post ≡ some p)
            × (p.setup_token ≡ expected)
            × (is_empty expected ≡ false)
            × (db.owners ≡ [])
            × ((others db).owners ≡ [])
            × (map (λ (o : Owner). o.username) db'.owners ≡ p.username ∷ [])
            × (db'.messages ≡ (others db).messages)))

empty_list : {A : Type 0} (xs : List A) → is_empty xs ≡ true → xs ≡ []
empty_list [] h = refl
empty_list (x ∷ xs) h = cc

locked_setup-IsSetup :
    (expected : Text) (now fresh : ℕ) (others : Database → Database) (post : OwnerPost)
    (db : Database)
    → post.setup_token ≡ expected
    → is_empty expected ≡ false
    → db.owners ≡ []
    → IsSetup expected others (some post) db (locked_setup now fresh others post db).1
unfolding locked_setup create_owner audit
locked_setup-IsSetup expected now fresh others post db token given free =
    elim (Bool-cases (is_empty (others db).owners)) [
      | inl first ↦
          let none_yet : (others db).owners ≡ [] = empty_list (others db).owners first in
          rw first (inr (inr (post, refl, token, given, free, none_yet, rw none_yet refl, refl)))
      | inr late ↦ rw late (inr (inl refl))
    ]

clean_parts : (a b c d : Bool) → a && not b && c && d ≡ true → (b ≡ false) × (c ≡ true) × (d ≡ true)
clean_parts a b c d h = ground arith

-- A request to `setup_owner` makes an owner only if it brings the setup token, which is set, and if
-- there was none when it began and none when it got the lock; that owner is then the only one.
pub setup_owner-IsSetup :
    (expected : Text) (authenticated : Bool) (now fresh : ℕ) (others : Database → Database)
    (post : Option OwnerPost) (db : Database)
    → IsSetup expected others post db
        (setup_owner expected authenticated now fresh others post db).1
unfolding setup_owner
setup_owner-IsSetup expected authenticated now fresh others none db =
    if-split (λ (r : Page × Database). IsSetup expected others none db r.1) (is_empty db.owners) _ _
      (λ _. inl refl) (λ _. inl refl)
setup_owner-IsSetup expected authenticated now fresh others (some post) db =
    elim (Bool-cases (is_empty db.owners)) [
      | inr taken ↦ rw taken (inl refl)
      | inl free ↦ elim (Bool-cases (clean_owner expected post db)) [
        | inr bad ↦ rw (free, bad) (inl refl)
        | inl good ↦
            let (given, token, _) =
              clean_parts post.is_accepted (is_empty expected) (post.setup_token == expected)
                (is_empty db.owners) (unfold clean_owner in good) in
            rw (free, good)
              (locked_setup-IsSetup expected now fresh others post db
                ((list_eq.agrees post.setup_token expected).0 token) given
                (empty_list db.owners free))
      ]
    ]
