-- ===== src/Mail/Tests.antt =====
-- Runs of the message parser and of the policy.
use mailgate.Common.{
  length, is_empty, any, All, contains, unique, Result, ok, err, Text, codes, in_range, ascii_lower,
  plain, if-split, ◌==◌, nat_eq, list_eq, option_eq, ℕ, ◌≤◌, ◌≡◌, refl, ◌↔◌, true, false, not, ◌&&◌,
  ◌||◌, none, List, [], ◌∷◌, arith,
}
use mailgate.Mail.{max_message_bytes, max_parts, ParsedMessage, MailError}
use mailgate.Mail.Claims.{parse_authentication_results}
use mailgate.Mail.Claims.Trusted.{IsFirstTrusted, parse_authentication_results-IsFirstTrusted}
use mailgate.Mail.Links.{find_links}
use mailgate.Mail.Links.Bounds.{AreCollected, find_links-AreCollected}
use mailgate.Mail.Parse.{parse_message}
use mailgate.Mail.Parse.Limits.{IsBounded, parse_message-IsBounded, parse_message-assess-dangerous}
use mailgate.Mail.Policy.{claim_failed, assess}
use mailgate.Mail.Policy.Decisions.{dkim_failed, assess-quarantined, IsBlocked, assess-high_iff}
use mailgate.Mail.Policy.LowRisk.{assess-low_iff}
use mailgate.Mail.Sanitise.{is_newline_or_tab, is_hidden, visible_controls}
use mailgate.Mail.Sanitise.Visible.{HasPlainNames, IsShown, visible_controls-IsShown}
use mailgate.Models.{
  Signal, quarantined, low, high, AuthResult, pass, fail, temperror, unknown, Authentication,
  signal_eq, state_eq, auth_eq,
}
use mailgate.Samples.{ascii, sample_libraries}

abbrev parsed_or : ParsedMessage → Result MailError ParsedMessage → ParsedMessage
parsed_or d (ok p) = p
parsed_or d (err e) = d

abbrev authentication : AuthResult → AuthResult → Authentication
authentication dkim dmarc = record {
  provider_claims = record {
    spf = unknown;
    dkim = unknown;
    dmarc = dmarc;
    arc = unknown;
    authserv_id = [];
  };
  independent_dkim = record { result = dkim; signatures = []; too_many = false };
}

abbrev plain_message : AuthResult → AuthResult → ParsedMessage
plain_message dkim dmarc = record {
  sender = codes "ann@example.org";
  sender_name = codes "Ann";
  recipients = [];
  subject = codes "Hello";
  received_at = none;
  text = codes "Hi";
  links = [];
  attachments = [];
  message_id_hash = [];
  authentication = authentication dkim dmarc;
  signals = [];
}

-- A message with a program attached, as the parser returns it.
abbrev program_message : ParsedMessage
program_message =
    parsed_or (plain_message unknown unknown) (parse_message sample_libraries [] (codes "P"))

program_parsed : parse_message sample_libraries [] (codes "P") ≡ ok program_message
unfolding parse_message
program_parsed = refl

program_dangerous : any (λ a. a.dangerous) program_message.attachments ≡ true
unfolding parse_message ascii_lower
program_dangerous = refl

parse_message-IsBounded_example :
    IsBounded sample_libraries program_message
    × (length (sample_libraries.parse_bytes (codes "P")).parts ≤ max_parts)
    × (length (codes "P") ≤ max_message_bytes)
parse_message-IsBounded_example =
    parse_message-IsBounded sample_libraries [] (codes "P") program_message program_parsed

parse_message-assess-dangerous_example :
    ((assess program_message).risk ≡ high) × ((assess program_message).state ≡ quarantined)
parse_message-assess-dangerous_example =
    parse_message-assess-dangerous sample_libraries [] (codes "P") program_message program_parsed
      program_dangerous

assess-high_iff_example :
    ((assess (plain_message fail pass)).risk ≡ high) ↔ IsBlocked (plain_message fail pass)
assess-high_iff_example = assess-high_iff (plain_message fail pass)

assess-quarantined_example :
    ((assess (plain_message pass pass)).state ≡ quarantined)
    × ((s : Signal)
        → contains (plain_message pass pass).signals s ≡ true
        → contains (assess (plain_message pass pass)).reasons s ≡ true)
assess-quarantined_example = assess-quarantined (plain_message pass pass)

assess-low_iff_example : ((assess (plain_message pass unknown)).risk ≡ low) ↔ (
    (is_empty (plain_message pass unknown).signals ≡ true)
    × (is_empty (plain_message pass unknown).sender ≡ false)
    × (claim_failed (plain_message pass unknown).authentication.provider_claims ≡ false)
    × (dkim_failed (plain_message pass unknown).authentication.independent_dkim.result ≡ false)
    × (((plain_message pass unknown).authentication.independent_dkim.result == temperror) ≡ false)
    × ((((plain_message pass unknown).authentication.independent_dkim.result == pass)
          || ((plain_message pass unknown).authentication.provider_claims.dmarc == pass))
        ≡ true))
assess-low_iff_example = assess-low_iff (plain_message pass unknown)

-- Verified mail of low risk, failed mail of high risk.
test_assess :
    ((assess (plain_message pass unknown)).risk ≡ low)
    × ((assess (plain_message fail pass)).risk ≡ high)
unfolding assess unique
test_assess = (refl, refl)

ascii_names : HasPlainNames ascii
ascii_names = record { names = name_plain; printable = printable_plain }
  where
    name_plain : (c : ℕ) → All (λ d. in_range 32 126 d ≡ true) (ascii.char_name c)
    name_plain c =
        if-split (All (λ d. in_range 32 126 d ≡ true)) (c == 8203) (codes "ZERO WIDTH SPACE") []
          (λ _. (
            refl,
            (
              refl,
              (
                refl,
                (
                  refl,
                  (
                    refl,
                    (
                      refl,
                      (
                        refl,
                        (refl, (refl, (refl, (refl, (refl, (refl, (refl, (refl, (refl, tt))))))))),
                      ),
                    ),
                  ),
                ),
              ),
            ),
          ))
          (λ _. tt)

    printable_plain : (d : ℕ) → in_range 32 126 d ≡ true → ascii.category d ≡ plain
    printable_plain d h = ground arith

visible_controls-IsShown_example :
    All (IsShown ascii) (visible_controls ascii (b'a' ∷ 8203 ∷ [])).0
    × ((visible_controls ascii (b'a' ∷ 8203 ∷ [])).1
        ≡ any (λ c. not (is_newline_or_tab c) && is_hidden ascii c) (b'a' ∷ 8203 ∷ []))
visible_controls-IsShown_example = visible_controls-IsShown ascii ascii_names (b'a' ∷ 8203 ∷ [])

find_links-AreCollected_example :
    AreCollected sample_libraries (find_links sample_libraries (codes "see https://example.org/a."))
find_links-AreCollected_example =
    find_links-AreCollected sample_libraries (codes "see https://example.org/a.")

test_links :
    find_links sample_libraries (codes "see https://example.org/a.")
    ≡ (codes "https://example.org/a" ∷ [], false)
unfolding find_links ascii_lower
test_links = refl

abbrev result_headers : List Text
result_headers = codes "mx.other; dmarc=fail" ∷ codes "mx.example.org; dmarc=pass" ∷ []

parse_authentication_results-IsFirstTrusted_example :
    IsFirstTrusted ascii result_headers
      (codes "mx.example.org" ∷ [])
      (parse_authentication_results ascii result_headers (codes "mx.example.org" ∷ []))
parse_authentication_results-IsFirstTrusted_example =
    parse_authentication_results-IsFirstTrusted ascii result_headers (codes "mx.example.org" ∷ [])

test_claims :
    (parse_authentication_results ascii result_headers (codes "mx.example.org" ∷ [])).dmarc ≡ pass
unfolding parse_authentication_results ascii_lower
test_claims = refl

-- The loop over the keys takes a word after `authserv_id=` for the identifier.
test_authserv_id :
    (parse_authentication_results ascii
      (codes "mx.example.org; authserv_id=fail" ∷ [])
      (codes "mx.example.org" ∷ [])).authserv_id
    ≡ codes "fail"
unfolding parse_authentication_results ascii_lower
test_authserv_id = refl
