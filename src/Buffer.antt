-- ===== src/Buffer.antt =====
-- buffer/buffer.go: the byte buffer. Its state is its bytes; the pool it goes back to is not
-- modelled, since a buffer from the pool is reset first (buffer/pool.go).
pub mod Decimal
mod Tests
use nanozap.Base.{
  ℕ, zero, suc, ◌+◌, ◌-◌, ◌/◌, ◌%◌, Bool, List, [], ◌∷◌, ◌++◌, ltb, ◌==◌, if◌then◌else◌, length,
}
use nanozap.Base.Int.{ℤ, pos, negsuc}
use nanozap.Base.Bytes.{bytes}

abbrev pub Buffer : Type 0
Buffer = List ℕ

abbrev pub append_byte : ℕ → Buffer → Buffer
append_byte v b = b ++ v ∷ []

abbrev pub append_string : List ℕ → Buffer → Buffer
append_string s b = b ++ s

-- The digits of a number of at most `f` digits.
unfoldable pub digits : ℕ → ℕ → List ℕ
digits zero n = []
digits (suc f) n =
    let front = digits f (n / 10) in
    if ltb n 10 then (b'0' + n) ∷ [] else front ++ (b'0' + n % 10) ∷ []

-- `strconv.AppendUint` in base 10; a `uint64` has at most twenty digits.
unfoldable pub decimal : ℕ → List ℕ
decimal n = digits 20 n

-- `strconv.AppendInt` in base 10
unfoldable pub signed_decimal : ℤ → List ℕ
signed_decimal (pos n) = decimal n
signed_decimal (negsuc n) = b'-' ∷ decimal (suc n)

abbrev pub append_uint : ℕ → Buffer → Buffer
append_uint i b = b ++ decimal i

abbrev pub append_int : ℤ → Buffer → Buffer
append_int i b = b ++ signed_decimal i

abbrev pub append_bool : Bool → Buffer → Buffer
append_bool v b = b ++ (if v then bytes "true" else bytes "false")

abbrev pub len : Buffer → ℕ
len b = length b

abbrev pub reset : Buffer → Buffer
reset b = []

abbrev pub write : List ℕ → Buffer → ℕ × Buffer
write bs b = (length bs, b ++ bs)

-- `TrimNewline`: the last byte goes if it is a line feed.
unfoldable pub trim_newline : Buffer → Buffer
trim_newline [] = []
trim_newline (x ∷ []) = if x == 10 then [] else x ∷ []
trim_newline (x ∷ y ∷ b) = x ∷ trim_newline (y ∷ b)
