-- ===== src/Resolver/Guarded.antt =====
-- What the resolver service asks for, and what it answers.
use mailgate.Common.{
  length, is_empty, All, Text, Bytes, codes, is_space, rstrip, strip, ltb, if-split, ltb-false,
  Bool-cases, ◌==◌, nat_eq, list_eq, option_eq, ℕ, zero, suc, ◌≤◌, ◌≡◌, refl, ◌⊎◌, inl, inr, true,
  false, not, ◌&&◌, ◌||◌, Option, none, some, List, [], ◌∷◌, arith,
}
use mailgate.Dns.{HttpReply, os_error, responded}
use mailgate.Json.{Json, boolean, integer, array, object, Fields, get}
use mailgate.Regex.{fullmatch}
use mailgate.Resolver.{
  max_response_bytes, max_txt_bytes, query_re, rate_allowed, found, unavailable, ResolverLibraries,
  txt_records, one_value, answers, by_status, by_document, by_reply, resolve_dkim_txt, reply_of,
  Handled, refuse, resolve_name, by_query, do_get,
}

-- The name of a DKIM key, in the shape that the service accepts.
abbrev pub IsKeyName : ResolverLibraries → Text → Type 0
IsKeyName l name = fullmatch l.is_word query_re name ≡ true

-- An answer with a value of at most 8192 bytes, or with none.
abbrev pub IsSmallAnswer : Option (ℕ × Option (Option Bytes)) → Type 0
IsSmallAnswer (some (status, some (some value))) = (status ≡ 200) × (length value ≤ max_txt_bytes)
IsSmallAnswer _ = Unit

module _ (l : ResolverLibraries) where
  one_value-IsSmallAnswer : (rs : Option (List Bytes)) → IsSmallAnswer (reply_of l (one_value l rs))
  one_value-IsSmallAnswer none = tt
  one_value-IsSmallAnswer (some []) = tt
  one_value-IsSmallAnswer (some (r ∷ [])) =
      if-split (λ k. IsSmallAnswer (reply_of l k)) (ltb max_txt_bytes (length r)) unavailable
        (found (some r)) (λ _. tt) (λ e. (refl, ltb-false _ _ e))
  one_value-IsSmallAnswer (some (r ∷ s ∷ rs)) = tt

  answers-IsSmallAnswer : (v : Option Json) → IsSmallAnswer (reply_of l (answers l v))
  answers-IsSmallAnswer none = tt
  answers-IsSmallAnswer (some (array items)) = one_value-IsSmallAnswer (txt_records l items)
  answers-IsSmallAnswer (some _) = tt

  by_status-IsSmallAnswer :
      (v : Option Json) (fs : Fields) → IsSmallAnswer (reply_of l (by_status l v fs))
  by_status-IsSmallAnswer (some (integer zero)) fs = answers-IsSmallAnswer (get (codes "Answer") fs)
  by_status-IsSmallAnswer (some (integer (suc n))) fs =
      if-split (λ k. IsSmallAnswer (reply_of l k)) (suc n == 3) (found none) unavailable (λ _. tt)
        (λ _. tt)
  by_status-IsSmallAnswer (some (boolean false)) fs =
      answers-IsSmallAnswer (get (codes "Answer") fs)
  by_status-IsSmallAnswer (some (boolean true)) fs = tt
  by_status-IsSmallAnswer none fs = tt
  by_status-IsSmallAnswer (some _) fs = tt

  by_document-IsSmallAnswer : (v : Option Json) → IsSmallAnswer (reply_of l (by_document l v))
  by_document-IsSmallAnswer none = tt
  by_document-IsSmallAnswer (some (object fs)) =
      by_status-IsSmallAnswer (get (codes "Status") fs) fs
  by_document-IsSmallAnswer (some _) = tt

  by_reply-IsSmallAnswer : (r : HttpReply) → IsSmallAnswer (reply_of l (by_reply l r))
  by_reply-IsSmallAnswer os_error = tt
  by_reply-IsSmallAnswer (responded status body) = elim (Bool-cases (status == 200)) [
    | inr bad ↦ rw bad tt
    | inl good ↦ elim (Bool-cases (ltb max_response_bytes (length body))) [
      | inl large ↦ rw (good, large) tt
      | inr small ↦ rw (good, small) (by_document-IsSmallAnswer (l.loads body))
    ]
  ]

  -- A request that asks for a name has been let pass, asks for one name only, and that in the shape of
  -- a DKIM key.
  abbrev pub IsGuarded : ℕ → List ℕ → Handled l → Type 0
  IsGuarded now times (answer, asked, times') =
      IsSmallAnswer answer
      × All (IsKeyName l) asked
      × (length asked ≤ 1)
      × ((asked ≡ []) ⊎ ((rate_allowed now times).0 ≡ true))

  resolve_dkim_txt-guarded :
      (name : Text)
      → let (k, asked) = resolve_dkim_txt l name in
        IsSmallAnswer (reply_of l k) × All (IsKeyName l) asked × (length asked ≤ 1)
  unfolding resolve_dkim_txt
  resolve_dkim_txt-guarded name =
      let normalized : Text = rstrip (λ c. c == b'.') (l.lower (strip is_space name)) in
      elim (Bool-cases (fullmatch l.is_word query_re normalized)) [
        | inl e ↦ rw e (by_reply-IsSmallAnswer (l.ask normalized), (e, tt), omega arith)
        | inr e ↦ rw e (tt, tt, omega arith)
      ]

  resolve_name-IsGuarded :
      (now : ℕ) (name : Text) (times : List ℕ) → IsGuarded now times (resolve_name l now name times)
  resolve_name-IsGuarded now name times =
      let (small, names, few) = resolve_dkim_txt-guarded name in
      elim (Bool-cases (rate_allowed now times).0) [
        | inl e ↦ rw e (small, names, few, inr refl)
        | inr e ↦ rw e (tt, tt, omega arith, inl refl)
      ]

  by_query-IsGuarded :
      (now : ℕ) (q : Option (List (Text × List Text))) (times : List ℕ)
      → IsGuarded now times (by_query l now q times)
  by_query-IsGuarded now (some ((key, name ∷ []) ∷ [])) times =
      if-split (IsGuarded now times) (key == codes "name") (resolve_name l now name times)
        (refuse l 400 times) (λ _. resolve_name-IsGuarded now name times)
        (λ _. (tt, tt, omega arith, inl refl))
  by_query-IsGuarded now none times = (tt, tt, omega arith, inl refl)
  by_query-IsGuarded now (some []) times = (tt, tt, omega arith, inl refl)
  by_query-IsGuarded now (some ((key, []) ∷ ps)) times = (tt, tt, omega arith, inl refl)
  by_query-IsGuarded now (some ((key, name ∷ other' ∷ more) ∷ ps)) times =
      (tt, tt, omega arith, inl refl)
  by_query-IsGuarded now (some ((key, name ∷ []) ∷ p ∷ ps)) times = (tt, tt, omega arith, inl refl)

-- One request asks the upstream resolver for at most one name, and only for a name of the shape of a DKIM
-- key and if the rate limit lets it pass; and a value in its answer has at most 8192 bytes and the
-- status 200.
pub do_get-IsGuarded :
    (l : ResolverLibraries) (now : ℕ) (path : Text) (times : List ℕ)
    → IsGuarded l now times (do_get l now path times)
unfolding do_get
do_get-IsGuarded l now path times =
    let (route, query) = l.urlsplit path in
    if-split (IsGuarded l now times) ((route == codes "/health") && is_empty query) _ _
      (λ _. (tt, tt, omega arith, inl refl))
      (λ _.
        if-split (IsGuarded l now times) (not (route == codes "/resolve") || ltb 600 (length path))
          (refuse l 404 times) (by_query l now (l.parse_qs query) times)
          (λ _. (tt, tt, omega arith, inl refl))
          (λ _. by_query-IsGuarded l now (l.parse_qs query) times))
