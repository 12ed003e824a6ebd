-- ===== src/Crypto/Envelope.antt =====
-- app/gateway/crypto.py: an envelope, a token with the identifier of its key before it, is read back.
use mailgate.Common.{
  is_empty, all, ok, Text, Bytes, before, after, has_char, starts_with, ◌==◌, nat_eq, list_eq,
  option_eq, ℕ, ◌≡◌, refl, Bool, true, false, ◌&&◌, none, some, [], ◌∷◌, ◌++◌, arith,
}
use mailgate.Crypto.{
  Cryptography, token_prefix, is_alnum, is_key_char, is_key_id, envelope, identify,
}

key_char_colon : (c : ℕ) → is_key_char c ≡ true → c == b':' ≡ false
key_char_colon c h = ground arith

key_chars_colon : (s : Text) → all is_key_char s ≡ true → has_char b':' s ≡ false
unfolding has_char
key_chars_colon [] h = refl
key_chars_colon (c ∷ s) h =
    let (h1, h2) = both (is_key_char c) (all is_key_char s) h in
    rw (key_char_colon c h1) (key_chars_colon s h2)
  where
    both : (a b : Bool) → a && b ≡ true → (a ≡ true) × (b ≡ true)
    both a b h = ground arith

key_id_colon : (s : Text) → is_key_id s ≡ true → has_char b':' s ≡ false
unfolding is_key_id
key_id_colon [] h = cc
key_id_colon (c ∷ s) h = key_chars_colon (c ∷ s) (split_id c _ _ h)
  where
    split_id :
        (c : ℕ) (chars' size : Bool)
        → is_alnum c && (chars' && size) ≡ true
        → is_key_char c && chars' ≡ true
    split_id c chars' size h = ground arith

before-join : (id token : Text) → has_char b':' id ≡ false → before b':' (id ++ b':' ∷ token) ≡ id
unfolding has_char before
before-join [] token h = refl
before-join (c ∷ id) token h = ground (arith, before-join id token)

after-join : (id token : Text) → has_char b':' id ≡ false → after b':' (id ++ b':' ∷ token) ≡ token
unfolding has_char after
after-join [] token h = refl
after-join (c ∷ id) token h = ground (arith, after-join id token)

has_char-join : (id token : Text) → has_char b':' (id ++ b':' ∷ token) ≡ true
unfolding has_char
has_char-join [] token = refl
has_char-join (c ∷ id) token = ground (arith, has_char-join id token)

pub list_beq_refl : (s : Text) → s == s ≡ true
list_beq_refl s = (list_eq.agrees s s).1 refl

module _ (c : Cryptography) where
  -- An envelope is read back.
  pub identify-envelope :
      (id token : Text)
      → is_key_id id ≡ true
      → is_empty token ≡ false
      → identify c (envelope c id token) ≡ ok (some id, token)
  unfolding identify
  identify-envelope id token h k =
      let no = key_id_colon id h in
      rw (has_char-join id token, before-join id token no, after-join id token no, h, k) refl

  pub identify-legacy :
      (token : Bytes) → has_char b':' token ≡ false → identify c token ≡ ok (none, token)
  unfolding identify has_char
  identify-legacy token h = rw (no_prefix token h) refl
    where
      no_prefix :
          (token : Bytes) → has_char b':' token ≡ false → starts_with token_prefix token ≡ false
      no_prefix [] h = refl
      no_prefix (a ∷ []) h = ground arith
      no_prefix (a ∷ b ∷ []) h = ground arith
      no_prefix (a ∷ b ∷ d ∷ []) h = ground arith
      no_prefix (a ∷ b ∷ d ∷ e ∷ []) h = ground arith
      no_prefix (a ∷ b ∷ d ∷ e ∷ f ∷ s) h = ground arith
