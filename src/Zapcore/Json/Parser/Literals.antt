-- ===== src/Zapcore/Json/Parser/Literals.antt =====
-- How the parser reads a literal, a string, and the bytes between values.
use nanozap.Base.{ℕ, suc, ◌≡◌, refl, Bool, true, false, some, List, [], ◌∷◌, ◌++◌, arith, ◌==◌}
use nanozap.Zapcore.Json.Reader.{plain, read_string}
use nanozap.Zapcore.Json.Parser.{
  string, literal, is_space, is_delimiter, skip_space, span_token, is_literal, reads_number,
  parse_literal, parse_value,
}
use nanozap.Zapcore.Json.Parser.Tokens.{IsToken, is_literal-IsToken}

-- A text before which a literal ends.
abbrev pub ends_literal : List ℕ → Bool
ends_literal [] = true
ends_literal (c ∷ t) = is_delimiter c

span_token-append :
    (t rest : List ℕ) → IsToken t → ends_literal rest ≡ true → span_token (t ++ rest) ≡ (t, rest)
unfolding span_token
span_token-append [] [] h e = refl
span_token-append [] (c ∷ rest) h e = rw (e) refl
span_token-append (c ∷ t) rest (h, hs) e = rw (h, span_token-append t rest hs e) refl

-- The byte that a value starts with is not skipped.
pub skip_space-kept : (c : ℕ) (t : List ℕ) → is_space c ≡ false → skip_space (c ∷ t) ≡ c ∷ t
unfolding skip_space
skip_space-kept c t h = rw h refl

token_space : (c : ℕ) → is_delimiter c ≡ false → is_space c ≡ false
token_space c h = ground arith

pub empty-is_literal : is_literal [] ≡ false
unfolding is_literal reads_number
empty-is_literal = refl

parse_literal-token :
    (t rest : List ℕ)
    → is_literal t ≡ true
    → ends_literal rest ≡ true
    → parse_literal (t ++ rest) ≡ some (literal t, rest)
unfolding parse_literal
parse_literal-token t rest h e = rw (span_token-append t rest (is_literal-IsToken t h) e, h) refl

pub parse_value-literal :
    (f : ℕ) (t rest : List ℕ)
    → is_literal t ≡ true
    → ends_literal rest ≡ true
    → parse_value (suc f) (t ++ rest) ≡ some (literal t, rest)
unfolding parse_value
parse_value-literal f [] rest h e = cc (empty-is_literal)
parse_value-literal f (c ∷ t) rest h e =
    let (plain_c, plain_t) = is_literal-IsToken (c ∷ t) h in
    let kept = skip_space-kept c (t ++ rest) (token_space c plain_c) in
    let quote : c == b'"' ≡ false = ground arith in
    let bracket : c == b'[' ≡ false = ground arith in
    let brace : c == b'{' ≡ false = ground arith in
    rw (kept, parse_value) (rw (quote, bracket, brace) (parse_literal-token (c ∷ t) rest h e))

pub parse_value-string :
    (f : ℕ) (s : List ℕ) (str rest : List ℕ)
    → read_string plain s ≡ some (str, rest)
    → parse_value (suc f) (b'"' ∷ s) ≡ some (string str, rest)
unfolding parse_value skip_space
parse_value-string f s str rest e = rw (e, parse_value) refl
