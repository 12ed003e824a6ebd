-- ===== src/Mail/Injection.antt =====
-- app/gateway/mail.py: `PROMPT_INJECTION_PATTERNS` and `has_prompt_injection_indicators`. The
-- patterns are compiled with `re.IGNORECASE | re.DOTALL`.
use mailgate.Common.{
  any, contains, Text, codes, join, Unicode, ◌==◌, nat_eq, list_eq, option_eq, ℕ, Bool, true, ◌||◌,
  none, List, [], ◌∷◌,
}
use mailgate.Regex.{
  Regex, chars, alt, star, boundary, opt, up_to, one_of, folded_letter, fold_char, folded,
  folded_word, all_of, search_from,
}

abbrev pub words_of : List Text → Regex
words_of [] = one_of []
words_of (w ∷ ws) = alt (folded_word w) (words_of ws)

-- `\b(?:a|b)\b`
abbrev pub bounded : List Text → Regex
bounded ws = all_of (boundary ∷ words_of ws ∷ boundary ∷ [])

-- `\b(?:a|b)s?\b`
abbrev pub bounded_plural : List Text → Regex
bounded_plural ws = all_of (boundary ∷ words_of ws ∷ opt (chars (folded b's')) ∷ boundary ∷ [])

-- `.{0,n}`
abbrev pub gap : ℕ → Regex
gap n = up_to n (chars (λ _. true))

-- `[a-zäöüß-]`
abbrev pub german : ℕ → Bool
german c = folded_letter c || contains (228 ∷ 246 ∷ 252 ∷ 223 ∷ []) (fold_char c) || c == b'-'

-- `api[ -]?key` and `api[ -]?schlüssel`
abbrev pub api_word : Text → Regex
api_word w =
    all_of
      (folded_word (codes "api") ∷ opt (chars (contains (32 ∷ b'-' ∷ []))) ∷ folded_word w ∷ [])

abbrev pub ignore_pattern : Regex
ignore_pattern = all_of (
    bounded (codes "ignore" ∷ codes "disregard" ∷ codes "forget" ∷ [])
    ∷ gap 80
    ∷ bounded
        (codes "previous" ∷ codes "prior" ∷ codes "above" ∷ codes "system" ∷ codes "developer" ∷ [])
    ∷ gap 40
    ∷ bounded_plural (codes "instruction" ∷ codes "message" ∷ codes "prompt" ∷ [])
    ∷ [])

abbrev pub role_pattern : Regex
role_pattern = bounded (codes "system prompt" ∷ codes "developer message" ∷ [])

abbrev pub reveal_pattern : Regex
reveal_pattern = all_of (
    bounded (codes "reveal" ∷ codes "print" ∷ codes "show" ∷ codes "send" ∷ codes "exfiltrate" ∷ [])
    ∷ gap 80
    ∷ boundary
    ∷ alt (words_of (codes "secret" ∷ codes "password" ∷ codes "credential" ∷ codes "token" ∷ []))
        (api_word (codes "key"))
    ∷ opt (chars (folded b's'))
    ∷ boundary
    ∷ [])

abbrev pub tool_pattern : Regex
tool_pattern = all_of (
    bounded (codes "call" ∷ codes "use" ∷ codes "invoke" ∷ codes "run" ∷ codes "execute" ∷ [])
    ∷ gap 40
    ∷ bounded_plural
        (codes "tool" ∷ codes "command" ∷ codes "shell" ∷ codes "terminal" ∷ codes "api" ∷ [])
    ∷ [])

abbrev pub persona_pattern : Regex
persona_pattern = all_of (
    bounded (codes "you are now" ∷ [])
    ∷ gap 80
    ∷ bounded (codes "assistant" ∷ codes "agent" ∷ codes "system" ∷ codes "administrator" ∷ [])
    ∷ [])

abbrev pub ignore_pattern_de : Regex
ignore_pattern_de = all_of (
    bounded (codes "ignoriere" ∷ [])
    ∷ gap 80
    ∷ boundary
    ∷ words_of (codes "vorherige" ∷ codes "obige" ∷ codes "system" ∷ codes "entwickler" ∷ [])
    ∷ star (chars german)
    ∷ boundary
    ∷ gap 40
    ∷ bounded_plural (codes "anweisung" ∷ codes "nachricht" ∷ codes "prompt" ∷ [])
    ∷ [])

abbrev pub reveal_pattern_de : Regex
reveal_pattern_de = all_of (
    bounded (codes "zeige" ∷ codes "sende" ∷ codes "verrate" ∷ codes "extrahiere" ∷ [])
    ∷ gap 80
    ∷ boundary
    ∷ alt
        (words_of
          (codes "geheimnis" ∷ codes "passwort" ∷ codes "zugangsdaten" ∷ codes "token" ∷ []))
        (api_word (codes "schlüssel"))
    ∷ boundary
    ∷ [])

abbrev pub tool_pattern_de : Regex
tool_pattern_de = all_of (
    bounded (codes "führe" ∷ codes "starte" ∷ codes "verwende" ∷ [])
    ∷ gap 40
    ∷ bounded
        (codes "werkzeug" ∷ codes "befehl" ∷ codes "shell" ∷ codes "terminal" ∷ codes "api" ∷ [])
    ∷ [])

-- `PROMPT_INJECTION_PATTERNS`
unfoldable pub prompt_injection_patterns : List Regex
unfolding folded_letter fold_char
prompt_injection_patterns =
    ignore_pattern ∷ role_pattern ∷ reveal_pattern ∷ tool_pattern ∷ persona_pattern
    ∷ ignore_pattern_de ∷ reveal_pattern_de ∷ tool_pattern_de ∷ []

-- `has_prompt_injection_indicators`
unfoldable pub has_prompt_injection_indicators : Unicode → List Text → Bool
unfolding prompt_injection_patterns search_from
has_prompt_injection_indicators u values =
    let content : Text = u.nfkc (join (codes "\n") values) in
    any (λ r. search_from u.is_word r none content) prompt_injection_patterns
