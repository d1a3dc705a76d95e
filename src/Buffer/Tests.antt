-- ===== src/Buffer/Tests.antt =====
-- Numbers printed into a buffer, and its last line feed.
use nanozap.Base.{ℕ, ◌∷◌, ◌++◌, ◌≡◌, some, refl, List, [], arith}
use nanozap.Base.Int.{negsuc}
use nanozap.Base.Bytes.{bytes}
use nanozap.Buffer.{digits, decimal, signed_decimal, append_uint, append_int, trim_newline}
use nanozap.Buffer.Decimal.{read_uint, read_int, read-append}

minus_forty_two : append_int (negsuc 41) (bytes "x=") ≡ bytes "x=-42"
unfolding signed_decimal decimal digits
minus_forty_two = refl

one_line_feed : trim_newline (bytes "ab" ++ 10 ∷ 10 ∷ []) ≡ bytes "ab" ++ 10 ∷ []
unfolding trim_newline
one_line_feed = refl

read-append_example :
    (s t : List ℕ) × (append_uint 107 (bytes "x=") ≡ bytes "x=" ++ s)
    × (read_uint s ≡ some 107)
    × (append_int (negsuc 41) (bytes "x=") ≡ bytes "x=" ++ t)
    × (read_int t ≡ some (negsuc 41))
read-append_example =
    read-append (bytes "x=") 107 (negsuc 41) (omega arith) (omega arith) (omega arith)
