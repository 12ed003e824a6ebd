-- ===== src/Mail/Sanitise.antt =====
-- app/gateway/mail.py: `_safe_header`, `_visible_controls`, `_TextExtractor` and `_html_to_text`.
pub mod Visible
use mailgate.Common.{
  take, any, contains, Text, codes, is_space, words, join, is_infix, remove_char, Category, format,
  control, Unicode, ltb, if◌then◌else◌, ◌==◌, nat_eq, list_eq, option_eq, ℕ, ◌+◌, ◌-◌, ◌*◌, Bool,
  true, false, not, ◌&&◌, ◌||◌, List, [], ◌∷◌, ◌++◌,
}
use mailgate.Dkim.{tag}
use mailgate.Mail.{max_text_chars, HtmlEvent, start_tag, end_tag, text_data, Libraries}

-- `_safe_header`; a missing value is empty.
unfoldable pub safe_header : Text → ℕ → Text
unfolding words remove_char
safe_header value limit = take limit (join (codes " ") (words is_space (remove_char 0 value)))

-- `CONTROL_NAMES`
abbrev pub control_names : List Text
control_names =
    codes "RIGHT-TO-LEFT"
    ∷ codes "LEFT-TO-RIGHT"
    ∷ codes "ISOLATE"
    ∷ codes "OVERRIDE"
    ∷ codes "EMBEDDING"
    ∷ []

abbrev pub or_control : Text → Text
or_control [] = codes "CONTROL"
or_control (c ∷ s) = c ∷ s

abbrev pub is_format : Category → Bool
is_format format = true
is_format _ = false

abbrev pub is_control : Category → Bool
is_control control = true
is_control _ = false

abbrev pub is_newline_or_tab : ℕ → Bool
is_newline_or_tab c = c == 10 || c == 9

module _ (u : Unicode) where
  -- the test that makes a character visible
  unfoldable pub is_hidden : ℕ → Bool
  is_hidden c =
      is_format (u.category c) || any (λ item. is_infix item (u.char_name c)) control_names

  unfoldable pub visible_name : ℕ → Text
  visible_name c = codes "[UNICODE " ++ or_control (u.char_name c) ++ codes "]"

  -- what the loop appends for one character
  unfoldable pub visible_char : ℕ → Text
  unfolding is_hidden visible_name
  visible_char c =
      if is_newline_or_tab c
      then c ∷ []
      else if is_hidden c
      then visible_name c
      else if is_control (u.category c)
      then codes " "
      else c ∷ []

  -- `_visible_controls`: the text, and whether something was found.
  unfoldable pub visible_controls : Text → Text × Bool
  unfolding visible_char
  visible_controls [] = ([], false)
  visible_controls (c ∷ s) =
      let (rest, found) = visible_controls s in
      (visible_char c ++ rest, (not (is_newline_or_tab c) && is_hidden c) || found)

abbrev pub skipped_tags : List Text
skipped_tags =
    codes "script"
    ∷ codes "style"
    ∷ codes "template"
    ∷ codes "svg"
    ∷ codes "form"
    ∷ codes "object"
    ∷ codes "iframe"
    ∷ []

abbrev pub breaking_starts : List Text
breaking_starts =
    codes "p"
    ∷ codes "br"
    ∷ codes "div"
    ∷ codes "li"
    ∷ codes "tr"
    ∷ codes "h1"
    ∷ codes "h2"
    ∷ codes "h3"
    ∷ codes "h4"
    ∷ []

abbrev pub breaking_ends : List Text
breaking_ends = codes "p" ∷ codes "div" ∷ codes "li" ∷ codes "tr" ∷ []

-- `_TextExtractor`: `parts` joined, and `skip`.
pub record TextExtractor : Type 0 where
  pub parts : Text
  pub skip : ℕ

unfoldable pub handle_starttag : Text → TextExtractor → TextExtractor
handle_starttag tag x =
    if contains skipped_tags tag
    then record x { skip = x.skip + 1 }
    else if contains breaking_starts tag
    then record x { parts = x.parts ++ codes "\n" }
    else x

unfoldable pub handle_endtag : Text → TextExtractor → TextExtractor
handle_endtag tag x =
    if contains skipped_tags tag && ltb 0 x.skip
    then record x { skip = x.skip - 1 }
    else if contains breaking_ends tag
    then record x { parts = x.parts ++ codes "\n" }
    else x

unfoldable pub handle_data : Text → TextExtractor → TextExtractor
handle_data s x = if x.skip == 0 then record x { parts = x.parts ++ s } else x

unfoldable pub handle : HtmlEvent → TextExtractor → TextExtractor
unfolding handle_starttag handle_endtag handle_data
handle (start_tag tag) x = handle_starttag tag x
handle (end_tag tag) x = handle_endtag tag x
handle (text_data s) x = handle_data s x

unfoldable pub feed : List HtmlEvent → TextExtractor → TextExtractor
unfolding handle
feed [] x = x
feed (e ∷ es) x = feed es (handle e x)

-- `_html_to_text`
unfoldable pub html_to_text : Libraries → Text → Text
unfolding feed
html_to_text l value =
    l.html_unescape
      (feed (l.html_events (take (max_text_chars * 2) value))
        (record { parts = []; skip = 0 })).parts
