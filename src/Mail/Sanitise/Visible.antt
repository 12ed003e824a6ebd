-- ===== src/Mail/Sanitise/Visible.antt =====
-- `_visible_controls` of app/gateway/mail.py: what its output can hold, and how long it gets.
use mailgate.Common.{
  length, any, length-append, All, All-append, Text, codes, in_range, Category, plain, Unicode,
  Bool-cases, ℕ, ◌*◌, ◌≤◌, ◌≡◌, refl, ap, ◌⊎◌, inl, inr, Bool, true, false, not, ◌&&◌, ◌||◌, [],
  ◌∷◌, ◌++◌, arith,
}
use mailgate.Mail.Sanitise.{
  or_control, is_format, is_control, is_newline_or_tab, is_hidden, visible_name, visible_char,
  visible_controls,
}

-- What the Unicode database documents: names are printable ASCII, and no printable ASCII character
-- is a format or a control character.
pub record HasPlainNames (u : Unicode) : Type 0 where
  pub names : (c : ℕ) → All (λ d. in_range 32 126 d ≡ true) (u.char_name c)
  pub printable : (d : ℕ) → in_range 32 126 d ≡ true → u.category d ≡ plain

-- A newline, a tab, or neither a format nor a control character.
abbrev pub IsShown : Unicode → ℕ → Type 0
IsShown u c = (is_newline_or_tab c ≡ true) ⊎ (u.category c ≡ plain)

All-imp : (P Q : ℕ → Type 0) → ((c : ℕ) → P c → Q c) → (s : Text) → All P s → All Q s
All-imp P Q f [] h = tt
All-imp P Q f (c ∷ s) (h, hs) = (f c h, All-imp P Q f s hs)

module _ (u : Unicode) (plain_names : HasPlainNames u) where
  IsShown-ascii : (s : Text) → All (λ d. in_range 32 126 d ≡ true) s → All (IsShown u) s
  IsShown-ascii s = All-imp _ (IsShown u) (λ d h. inr (plain_names.printable d h)) s

  or_control-ascii :
      (s : Text)
      → All (λ d. in_range 32 126 d ≡ true) s
      → All (λ d. in_range 32 126 d ≡ true) (or_control s)
  or_control-ascii [] h = (refl, (refl, (refl, (refl, (refl, (refl, (refl, tt)))))))
  or_control-ascii (c ∷ s) h = h

  visible_name-IsShown : (c : ℕ) → All (IsShown u) (visible_name u c)
  unfolding visible_name
  visible_name-IsShown c = IsShown-ascii (visible_name u c) (
      All-append (λ d. in_range 32 126 d ≡ true) (codes "[UNICODE " ++ or_control (u.char_name c))
        (codes "]")
        (All-append (λ d. in_range 32 126 d ≡ true) (codes "[UNICODE ") (or_control (u.char_name c))
          (refl, (refl, (refl, (refl, (refl, (refl, (refl, (refl, (refl, tt)))))))))
          (or_control-ascii (u.char_name c) (plain_names.names c)))
        (refl, tt))

  plain_category : (c : Category) → is_format c ≡ false → is_control c ≡ false → c ≡ plain
  plain_category c h k = ground arith

  visible_char-IsShown : (c : ℕ) → All (IsShown u) (visible_char u c)
  unfolding visible_char
  visible_char-IsShown c = elim (Bool-cases (is_newline_or_tab c)) [
    | inl e ↦ rw e (inl e, tt)
    | inr other' ↦ elim (Bool-cases (is_hidden u c)) [
      | inl hidden ↦ rw (other', hidden) (visible_name-IsShown c)
      | inr seen ↦ elim (Bool-cases (is_control (u.category c))) [
        | inl e ↦ rw (other', seen, e) (inr (plain_names.printable 32 refl), tt)
        | inr e ↦
            rw (other', seen, e)
              (inr (plain_category (u.category c) (or_left _ _ (unfold is_hidden in seen)) e), tt)
      ]
    ]
  ]
    where
      or_left : (a b : Bool) → a || b ≡ false → a ≡ false
      or_left a b h = ground arith

  -- The output holds no format and no control character but newlines and tabs, and the flag tells
  -- whether a character other than these was made visible.
  pub visible_controls-IsShown :
      (s : Text)
      → All (IsShown u) (visible_controls u s).0
        × ((visible_controls u s).1 ≡ any (λ c. not (is_newline_or_tab c) && is_hidden u c) s)
  unfolding visible_controls
  visible_controls-IsShown [] = (tt, refl)
  visible_controls-IsShown (c ∷ s) =
      let (shown, found) = visible_controls-IsShown s in
      (
        All-append (IsShown u) (visible_char u c) (visible_controls u s).0 (visible_char-IsShown c)
            shown,
        ap (λ b. (not (is_newline_or_tab c) && is_hidden u c) || b) found,
      )

-- A character that is made visible.
abbrev pub IsHidden : Unicode → ℕ → Type 0
IsHidden u c = (is_newline_or_tab c ≡ false) × (is_hidden u c ≡ true)

or_control-pos : (s : Text) → 1 ≤ length (or_control s)
or_control-pos [] = omega arith
or_control-pos (c ∷ s) = omega arith

visible_char-length : (u : Unicode) (c : ℕ) → IsHidden u c → 11 ≤ length (visible_char u c)
unfolding visible_char
visible_char-length u c (other', hidden) =
    rw (other', hidden)
      (omega (
        arith,
        length-append (codes "[UNICODE " ++ or_control (u.char_name c)) (codes "]"),
        length-append (codes "[UNICODE ") (or_control (u.char_name c)),
        or_control-pos (u.char_name c),
      ))

-- A text of hidden characters only comes out at least eleven times as long.
pub length-visible_controls :
    (u : Unicode) (s : Text) → All (IsHidden u) s → 11 * length s ≤ length (visible_controls u s).0
unfolding visible_controls
length-visible_controls u [] h = omega arith
length-visible_controls u (c ∷ s) (h, hs) = omega (
  arith,
  length-append (visible_char u c) (visible_controls u s).0,
  visible_char-length u c h,
  length-visible_controls u s hs,
)
