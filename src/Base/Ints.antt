-- ===== src/Base/Ints.antt =====
-- The conversions of Go to narrower signed integers: the lowest bits, read as two's complement.
use Prim.Native.Nat.{ℕ, ◌-◌, ◌%◌, ◌^◌, ◌≤◌, ◌<◌}
use mathlib.Core.Path.{◌≡◌}
use mathlib.Core.Bool.{Bool, ◌&&◌}
use native.Mathlib.Omega.{arith}
use nanozap.Base.Tests.{ltb, if◌then◌else◌}
use nanozap.Base.Int.{ℤ, pos, negsuc, pos_part, neg_part, leb_ℤ}

abbrev pub eq_ℤ : ℤ → ℤ → Bool
eq_ℤ a b = leb_ℤ a b && leb_ℤ b a

abbrev pub int8_of_bits : ℕ → ℤ
int8_of_bits b = if ltb b (2 ^ 7) then pos b else negsuc (2 ^ 8 - 1 - b)

unfoldable pub int8 : ℤ → ℤ
int8 (pos n) = int8_of_bits (n % 2 ^ 8)
int8 (negsuc n) = int8_of_bits (2 ^ 8 - 1 - n % 2 ^ 8)

pub int8-fits : (x : ℤ) → pos_part x < 2 ^ 7 → neg_part x ≤ 2 ^ 7 → int8 x ≡ x
unfolding int8
int8-fits (pos n) h h' = ground arith
int8-fits (negsuc n) h h' = ground arith

abbrev pub int16_of_bits : ℕ → ℤ
int16_of_bits b = if ltb b (2 ^ 15) then pos b else negsuc (2 ^ 16 - 1 - b)

unfoldable pub int16 : ℤ → ℤ
int16 (pos n) = int16_of_bits (n % 2 ^ 16)
int16 (negsuc n) = int16_of_bits (2 ^ 16 - 1 - n % 2 ^ 16)

pub int16-fits : (x : ℤ) → pos_part x < 2 ^ 15 → neg_part x ≤ 2 ^ 15 → int16 x ≡ x
unfolding int16
int16-fits (pos n) h h' = ground arith
int16-fits (negsuc n) h h' = ground arith

abbrev pub int32_of_bits : ℕ → ℤ
int32_of_bits b = if ltb b (2 ^ 31) then pos b else negsuc (2 ^ 32 - 1 - b)

unfoldable pub int32 : ℤ → ℤ
int32 (pos n) = int32_of_bits (n % 2 ^ 32)
int32 (negsuc n) = int32_of_bits (2 ^ 32 - 1 - n % 2 ^ 32)

pub int32-fits : (x : ℤ) → pos_part x < 2 ^ 31 → neg_part x ≤ 2 ^ 31 → int32 x ≡ x
unfolding int32
int32-fits (pos n) h h' = ground arith
int32-fits (negsuc n) h h' = ground arith
