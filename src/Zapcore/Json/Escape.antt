-- ===== src/Zapcore/Json/Escape.antt =====
-- zapcore/json_encoder.go: `safeAddString`, and `safeAddByteString`, which does the same to bytes.
use nanozap.Base.{
  ℕ, zero, suc, ◌/◌, ◌%◌, not, ◌&&◌, ◌||◌, Option, none, some, List, [], ◌∷◌, ◌++◌, leb, ◌==◌,
  if◌then◌else◌, length, take, drop, get_or,
}
use nanozap.Base.Bytes.{bytes}
use nanozap.Buffer.{Buffer}
use nanozap.Zapcore.Utf8.{rune_self, rune_error, decode_rune}

abbrev pub hex : List ℕ
hex = bytes "0123456789abcdef"

abbrev pub quote : ℕ
quote = 34

abbrev pub backslash : ℕ
backslash = 92

-- What `tryAddRuneSelf` appends for a byte below `utf8.RuneSelf`.
unfoldable pub self_text : ℕ → List ℕ
self_text b =
    if leb 32 b && not (b == backslash) && not (b == quote)
    then b ∷ []
    else if b == backslash || b == quote
    then backslash ∷ b ∷ []
    else if b == 10
    then backslash ∷ b'n' ∷ []
    else if b == 13
    then backslash ∷ b'r' ∷ []
    else if b == 9
    then backslash ∷ b't' ∷ []
    else backslash ∷ b'u' ∷ b'0' ∷ b'0' ∷ get_or hex (b / 16) 0 ∷ get_or hex (b % 16) 0 ∷ []

-- `none` is false: nothing was appended.
abbrev pub try_add_rune_self : ℕ → Buffer → Option Buffer
try_add_rune_self b buf = if leb rune_self b then none else some (buf ++ self_text b)

abbrev pub error_text : List ℕ
error_text = backslash ∷ bytes "ufffd"

abbrev pub try_add_rune_error : ℕ → ℕ → Buffer → Option Buffer
try_add_rune_error r size buf =
    if r == rune_error && size == 1 then some (buf ++ error_text) else none

-- One turn of the loop: the width taken from the text and the buffer.
unfoldable pub add_rune : List ℕ → Buffer → ℕ × Buffer
add_rune s buf = elim (try_add_rune_self (get_or s 0 0) buf) [
  | some buf' ↦ (1, buf')
  | none ↦
      let (r, size) = decode_rune s in
      elim (try_add_rune_error r size buf) [
        | some buf' ↦ (1, buf')
        | none ↦ (size, buf ++ take size s)
      ]
]

-- The loop, which takes at least a byte in each turn.
unfoldable pub safe_add_loop : ℕ → List ℕ → Buffer → Buffer
safe_add_loop zero s buf = buf
safe_add_loop (suc f) [] buf = buf
safe_add_loop (suc f) (b ∷ s) buf =
    let (size, buf') = add_rune (b ∷ s) buf in safe_add_loop f (drop size (b ∷ s)) buf'

unfoldable pub safe_add_string : List ℕ → Buffer → Buffer
safe_add_string s buf = safe_add_loop (length s) s buf
