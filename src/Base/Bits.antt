-- ===== src/Base/Bits.antt =====
-- A mask of low ones, as arithmetic.
use Prim.Native.Nat.{
  ℕ, zero, suc, ◌+◌, ◌-◌, ◌*◌, ◌/◌, ◌%◌, ◌^◌, ◌≤◌, ◌<◌, min, bit_and, digits, bit_and-bitwise,
}
use mathlib.Core.Path.{◌≡◌, refl, ap}
use native.Mathlib.Nat.{
  pow-suc, one-le-pow, mod-eq-sub-mul-div, div-div-eq-div-mul, mul-div-le, mod-add-mod, mod-lt,
  mod-eq_of_lt, mod-eq-sub-mod,
}
use native.Mathlib.Decide.{dec_lt}
use nanozap.Base.Tests.{ltb, if◌then◌else◌}
use native.Mathlib.Omega.{arith}

-- The digit recursion that the native operation stands for, at fuel `n`.
abbrev conj : ℕ → ℕ → ℕ → ℕ
conj n a b = digits (λ d. 0) min n a b

-- Any two fuels that reach the first number agree.
conj_any : (n m a b : ℕ) → a ≤ n → a ≤ m → conj n a b ≡ conj m a b
conj_any zero zero a b p q = refl
conj_any zero (suc m) zero b p q = refl
conj_any (suc n) zero zero b p q = refl
conj_any (suc n) (suc m) zero b p q = refl
conj_any (suc n) (suc m) (suc a) b p q =
    omega (arith, conj_any n m (suc a / 2) (b / 2) (omega arith) (omega arith))
conj_any zero m (suc a) b p q = absurd (omega arith)
conj_any (suc n) zero (suc a) b p q = absurd (omega arith)

-- The lowest digit of a conjunction.
pub bit_and_low : (a b : ℕ) → bit_and a b ≡ bit_and (a / 2) (b / 2) * 2 + min (a % 2) (b % 2)
bit_and_low zero b = omega (arith, bit_and-bitwise 0 b, bit_and-bitwise 0 (b / 2))
bit_and_low (suc a) b = omega (
  arith,
  bit_and-bitwise (suc a) b,
  bit_and-bitwise (suc a / 2) (b / 2),
  conj_any a (suc a / 2) (suc a / 2) (b / 2) (omega arith) (omega arith),
)

bit_and-zero_below : (n a : ℕ) → a < n → bit_and a 0 ≡ 0
bit_and-zero_below zero a h = absurd (omega arith)
bit_and-zero_below (suc n) zero h = refl
bit_and-zero_below (suc n) (suc a) h =
    omega (arith, bit_and_low (suc a) 0, bit_and-zero_below n (suc a / 2) (omega arith))

-- The remainder splits into the remainder of the half and the lowest digit.
mod_double : (a p : ℕ) → a % (2 * p) ≡ (a / 2) % p * 2 + a % 2
mod_double a p = omega (
  arith,
  mod-eq-sub-mul-div a (2 * p),
  mod-eq-sub-mul-div (a / 2) p,
  ap (λ (t : ℕ). p * t) (div-div-eq-div-mul a 2 p),
  mul-div-le (a / 2) p,
)

-- `x & (2^k - 1)` is the remainder of `x` by `2^k`.
pub bit_and_mask : (k a : ℕ) → bit_and a (2 ^ k - 1) ≡ a % 2 ^ k
bit_and_mask zero a = omega (arith, bit_and-zero_below (suc a) a (omega arith))
bit_and_mask (suc k) a =
    let halved : (2 ^ suc k - 1) / 2 ≡ 2 ^ k - 1 = omega (arith, pow-suc 2 k, one-le-pow k 2) in
    let odd : (2 ^ suc k - 1) % 2 ≡ 1 = omega (arith, pow-suc 2 k, one-le-pow k 2) in
    ground (
      arith,
      bit_and_low a (2 ^ suc k - 1),
      bit_and_mask k (a / 2),
      halved,
      odd,
      pow-suc 2 k,
      mod_double a (2 ^ k),
    )

-- Less than `p` past `a`, the remainder wraps round at most once.
pub mod_wrap :
    (a i p : ℕ) → i < p → (a + i) % p ≡ (if ltb (a % p + i) p then a % p + i else a % p + i - p)
mod_wrap a i p hi =
    let folded : (a % p + i) % p ≡ (a + i) % p = mod-add-mod a p i in
    let low : a % p < p = mod-lt a (omega arith) in
    elim (dec_lt (a % p + i) p) [
      | yes h ↦ ground (arith, folded, mod-eq_of_lt h)
      | no h ↦
          let below : a % p + i - p < p = omega arith in
          ground (
            arith,
            folded,
            mod-eq-sub-mod {n = a % p + i} {m = p} (omega arith),
            mod-eq_of_lt below,
          )
    ]

-- Fewer than `p` steps past `a` meet no remainder twice.
pub mod_inj : (a i j p : ℕ) → i < p → j < p → (a + i) % p ≡ (a + j) % p → i ≡ j
mod_inj a i j p hi hj e =
    let low : a % p < p = mod-lt a (omega arith) in
    ground (arith, mod_wrap a i p hi, mod_wrap a j p hj)

-- A whole turn changes no remainder.
pub mod_wrap_whole : (a p : ℕ) → (a + p) % p ≡ (a + 0) % p
mod_wrap_whole a p = ground (arith, mod-eq-sub-mod {n = a + p} {m = p})
