-- ===== src/Mail/Claims/Trusted.antt =====
-- `parse_authentication_results` of app/gateway/mail.py: whose claims are recorded.
use mailgate.Common.{
  All, contains, Text, Unicode, if-split, nat_eq, list_eq, option_eq, ◌≡◌, refl, ap, ◌⊎◌, inl, inr,
  true, false, List, [], ◌∷◌, ◌++◌,
}
use mailgate.Mail.Claims.{
  no_claims, authserv_of, claims_of, first_trusted, parse_authentication_results,
}
use mailgate.Models.{Claims, signal_eq, state_eq, auth_eq}

-- The claims of the first trusted header, or none if no header is trusted.
abbrev pub IsFirstTrusted : Unicode → List Text → List Text → Claims → Type 0
IsFirstTrusted u headers trusted claims =
    ((claims ≡ no_claims) × All (λ h. contains trusted (authserv_of u h) ≡ false) headers)
    ⊎ ((before' : List Text) × (header : Text) × (after' : List Text) × (headers
          ≡ before' ++ header ∷ after')
        × All (λ h. contains trusted (authserv_of u h) ≡ false) before'
        × (contains trusted (authserv_of u header) ≡ true)
        × (claims ≡ claims_of u header))

first_trusted-IsFirstTrusted :
    (u : Unicode) (headers trusted : List Text)
    → IsFirstTrusted u headers trusted (first_trusted u headers trusted)
unfolding first_trusted
first_trusted-IsFirstTrusted u [] trusted = inl (refl, tt)
first_trusted-IsFirstTrusted u (h ∷ hs) trusted =
    if-split (IsFirstTrusted u (h ∷ hs) trusted) (contains trusted (authserv_of u h))
      (claims_of u h) (first_trusted u hs trusted) (λ e. inr ([], h, hs, refl, tt, e, refl))
      (λ e. later e (first_trusted-IsFirstTrusted u hs trusted))
  where
    later :
        {claims : Claims}
        → contains trusted (authserv_of u h) ≡ false
        → IsFirstTrusted u hs trusted claims
        → IsFirstTrusted u (h ∷ hs) trusted claims
    later e (inl (k, all')) = inl (k, (e, all'))
    later e (inr (b, x, a, split', all', t, k)) =
        inr (h ∷ b, x, a, ap (λ xs. h ∷ xs) split', (e, all'), t, k)

none_trusted :
    (u : Unicode) (headers : List Text) → All (λ h. contains [] (authserv_of u h) ≡ false) headers
none_trusted u [] = tt
none_trusted u (h ∷ hs) = (refl, none_trusted u hs)

-- The recorded claims are those of the first Authentication-Results header whose service is trusted; the
-- headers before and after it have no say, and where none is trusted every claim is unknown.
pub parse_authentication_results-IsFirstTrusted :
    (u : Unicode) (headers trusted : List Text)
    → IsFirstTrusted u headers trusted (parse_authentication_results u headers trusted)
unfolding parse_authentication_results
parse_authentication_results-IsFirstTrusted u headers [] = inl (refl, none_trusted u headers)
parse_authentication_results-IsFirstTrusted u headers (t ∷ ts) =
    first_trusted-IsFirstTrusted u headers (t ∷ ts)
