-- ===== src/Zapcore/Json/Reader.antt =====
-- A reader of JSON strings, after RFC 8259: what the bytes between two quotes stand for.
use nanozap.Base.{
  ℕ, suc, ◌+◌, ◌-◌, ◌*◌, ◌/◌, ◌%◌, ◌&&◌, ◌||◌, Option, none, some, List, [], ◌∷◌, ◌++◌, ltb, leb,
  ◌==◌, if◌then◌else◌,
}

-- Where the reader stands: in the text, behind a backslash, or behind `\\u` and some of the digits.
pub data Reading : Type 0 where
  plain : Reading
  escaped : Reading
  unicode : ℕ → ℕ → Reading

pub data Action : Type 0 where
  stop : Action
  fail : Action
  skip : Reading → Action
  emit : List ℕ → Action

abbrev pub hex_value : ℕ → Option ℕ
hex_value c =
    if leb b'0' c && leb c b'9'
    then some (c - b'0')
    else if leb b'a' c && leb c b'f'
    then some (c - b'a' + 10)
    else if leb b'A' c && leb c b'F'
    then some (c - b'A' + 10)
    else none

-- UTF-8, of a code point below 65536.
abbrev pub encode_rune : ℕ → List ℕ
encode_rune r =
    if ltb r 128
    then r ∷ []
    else if ltb r 2048
    then (192 + r / 64) ∷ (128 + r % 64) ∷ []
    else (224 + r / 4096) ∷ (128 + r / 64 % 64) ∷ (128 + r % 64) ∷ []

abbrev pub read_digit : ℕ → ℕ → Option ℕ → Action
read_digit k v none = fail
read_digit k v (some d) =
    if k == 3 then emit (encode_rune (v * 16 + d)) else skip (unicode (suc k) (v * 16 + d))

unfoldable pub read_byte : Reading → ℕ → Action
read_byte plain c =
    if c == 34
    then stop
    else if c == 92
    then skip escaped
    else if ltb c 32
    then fail
    else emit (c ∷ [])
read_byte escaped c =
    if c == 34 || c == 92 || c == b'/'
    then emit (c ∷ [])
    else if c == b'b'
    then emit (8 ∷ [])
    else if c == b'f'
    then emit (12 ∷ [])
    else if c == b'n'
    then emit (10 ∷ [])
    else if c == b'r'
    then emit (13 ∷ [])
    else if c == b't'
    then emit (9 ∷ [])
    else if c == b'u'
    then skip (unicode 0 0)
    else fail
read_byte (unicode k v) c = read_digit k v (hex_value c)

-- What was read goes before what is read behind it.
abbrev pub prepend : List ℕ → Option (List ℕ × List ℕ) → Option (List ℕ × List ℕ)
prepend p none = none
prepend p (some (s, rest)) = some (p ++ s, rest)

-- The text up to the closing quote, and what follows that.
unfoldable pub read_string : Reading → List ℕ → Option (List ℕ × List ℕ)
read_string st [] = none
read_string st (c ∷ s) = elim (read_byte st c) [
  | stop ↦ some ([], s)
  | fail ↦ none
  | skip st' ↦ read_string st' s
  | emit p ↦ prepend p (read_string plain s)
]
