-- ===== src/Base/Word.antt =====
-- `int64` as two's complement words: `word` is the bit pattern, `to_i64` the integer it stands for.
use Prim.Native.Nat.{ℕ, suc, ◌+◌, ◌-◌, ◌*◌, ◌%◌, ◌^◌, ◌<◌}
use mathlib.Core.Path.{◌≡◌}
use native.Mathlib.Omega.{arith}
use nanozap.Base.Tests.{ltb, if◌then◌else◌}
use nanozap.Base.Int.{ℤ, pos, negsuc}

unfoldable pub word : ℤ → ℕ
word (pos a) = a % 2 ^ 64
word (negsuc a) = 2 ^ 64 - 1 - a % 2 ^ 64

unfoldable pub to_i64 : ℕ → ℤ
to_i64 x = if ltb (x % 2 ^ 64) (2 ^ 63) then pos (x % 2 ^ 64) else negsuc (2 ^ 64 - 1 - x % 2 ^ 64)

unfoldable pub mul_i64 : ℤ → ℤ → ℤ
mul_i64 a b = to_i64 (word a * word b)

unfoldable pub add_i64 : ℤ → ℤ → ℤ
add_i64 a b = to_i64 (word a + word b)

-- Where nothing overflows, the operations are those of the integers.
pub word_pos : (a : ℕ) → a < 2 ^ 64 → word (pos a) ≡ a
unfolding word
word_pos a h = omega arith

pub to_i64_pos : (x : ℕ) → x < 2 ^ 63 → to_i64 x ≡ pos x
unfolding to_i64
to_i64_pos x h = ground arith

pub mul_i64_pos :
    (a b : ℕ) → a < 2 ^ 64 → b < 2 ^ 64 → a * b < 2 ^ 63 → mul_i64 (pos a) (pos b) ≡ pos (a * b)
unfolding mul_i64
mul_i64_pos a b ha hb h = rw (word_pos a ha, word_pos b hb) (to_i64_pos (a * b) h)

pub add_i64_pos : (a b : ℕ) → a + b < 2 ^ 63 → add_i64 (pos a) (pos b) ≡ pos (a + b)
unfolding add_i64
add_i64_pos a b h = rw (word_pos a (omega arith), word_pos b (omega arith)) (to_i64_pos (a + b) h)

pub add_i64-minus_one : (a : ℕ) → suc a < 2 ^ 63 → add_i64 (pos (suc a)) (negsuc 0) ≡ pos a
unfolding add_i64 word to_i64
add_i64-minus_one a h = ground arith

pub word-to_i64 : (x : ℕ) → x < 2 ^ 64 → word (to_i64 x) ≡ x
unfolding word to_i64
word-to_i64 x h = ground arith
