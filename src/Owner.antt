-- ===== src/Owner.antt =====
-- app/gateway/views.py and app/gateway/forms.py, the pages of the owner that change the database, and
-- app/gateway/providers.py and app/gateway/validators.py, which the forms use. The login that the
-- pages require is Django's.
pub mod Setup
pub mod Mailboxes
pub mod Creation
pub mod Decisions
pub mod Deletion
pub mod Tokens
mod Tests
use mailgate.Common.{
  length, is_empty, all, unique, Text, codes, is_digit, is_lower, is_upper, is_space, strip, split,
  join, Unicode, ltb, leb, if◌then◌else◌, ◌==◌, nat_eq, list_eq, option_eq, ℕ, Bool, false, not,
  ◌&&◌, ◌||◌, Option, none, some, List, [], ◌∷◌, map,
}

-- What a page answers.
pub data Page : Type 0 where
  redirected : Text → Page
  rendered : Page
  not_found : Page
  not_allowed : Page

-- `PROVIDER_PRESETS`, with `get_provider_preset`: the version and the fixed host of a preset.
unfoldable pub get_provider_preset : Text → Option (ℕ × Option Text)
get_provider_preset key =
    if key == codes "generic_imaps"
    then some (1, none)
    else if key == codes "hostpoint"
    then some (1, some (codes "imap.mail.hostpoint.ch"))
    else none

-- `effective_imap_host`
abbrev pub effective_imap_host : Option Text → Text → Text
effective_imap_host none configured = configured
effective_imap_host (some host) configured = host

abbrev pub is_edge : ℕ → Bool
is_edge c = is_upper c || is_lower c || is_digit c

abbrev pub is_label_char : ℕ → Bool
is_label_char c = is_edge c || c == b'-'

abbrev pub last_is : (ℕ → Bool) → Text → Bool
last_is p [] = false
last_is p (c ∷ []) = p c
last_is p (c ∷ d ∷ s) = last_is p (d ∷ s)

abbrev pub is_label : Text → Bool
is_label [] = false
is_label (c ∷ s) =
    leb (length (c ∷ s)) 63 && is_edge c && last_is is_edge (c ∷ s) && all is_label_char (c ∷ s)

-- `_valid_authserv_id`
unfoldable pub valid_authserv_id : Text → Bool
unfolding split
valid_authserv_id value =
    leb 1 (length value) && leb (length value) 253 && all is_label (split b'.' value)

-- `normalise_authserv_ids`; `none` is `ValueError`
unfoldable pub normalise_authserv_ids : Unicode → Text → Option Text
unfolding valid_authserv_id strip is_space split unique join
normalise_authserv_ids u value =
    let items : List Text = map (λ item. u.lower (strip is_space item)) (split b',' value) in
    if is_empty (strip is_space value)
    then some []
    else if ltb 500 (length value) || not (all valid_authserv_id items)
    then none
    else some (join (codes ",") (unique items))
