-- ===== src/Base/Bytes.antt =====
-- Byte strings as lists of numbers: equality, prefixes and suffixes.
use Prim.Native.Nat.{ℕ, ◌-◌}
use Prim.Native.Char.{code}
use Prim.Native.String.{String}
use mathlib.Core.Path.{◌≡◌, refl}
use mathlib.Core.Bool.{Bool, true, false, ◌&&◌}
use mathlib.Core.List.{List, [], ◌∷◌, ◌++◌}
use native.Mathlib.Omega.{arith}
use nanozap.Base.Tests.{◌==◌, leb}
use nanozap.Base.Lists.{length, take, drop, length-append, take-append_self, drop-append_self}

-- The bytes of an ASCII text.
abbrev pub bytes : String → List ℕ
bytes String.[] = []
bytes (String.◌∷◌ c s) = code c ∷ bytes s

abbrev pub bytes_eq : List ℕ → List ℕ → Bool
bytes_eq [] [] = true
bytes_eq (x ∷ xs) (y ∷ ys) = x == y && bytes_eq xs ys
bytes_eq xs ys = false

pub bytes_eq_refl : (xs : List ℕ) → bytes_eq xs xs ≡ true
bytes_eq_refl [] = refl
bytes_eq_refl (x ∷ xs) = ground (arith, bytes_eq_refl xs)

pub eq_of_bytes_eq : (xs ys : List ℕ) → bytes_eq xs ys ≡ true → xs ≡ ys
eq_of_bytes_eq [] [] h = refl
eq_of_bytes_eq [] (y ∷ ys) h = cc
eq_of_bytes_eq (x ∷ xs) [] h = cc
eq_of_bytes_eq (x ∷ xs) (y ∷ ys) h = ground (arith, eq_of_bytes_eq xs ys)

-- `strings.HasPrefix` and `strings.HasSuffix`
unfoldable pub has_prefix : List ℕ → List ℕ → Bool
has_prefix s p = bytes_eq (take (length p) s) p

unfoldable pub has_suffix : List ℕ → List ℕ → Bool
has_suffix s e = leb (length e) (length s) && bytes_eq (drop (length s - length e) s) e

pub has_prefix-append : (p s : List ℕ) → has_prefix (p ++ s) p ≡ true
unfolding has_prefix
has_prefix-append p s = rw (take-append_self p s) (bytes_eq_refl p)

pub drop-append_len : (s e : List ℕ) → drop (length (s ++ e) - length e) (s ++ e) ≡ e
drop-append_len s e =
    let cut : length (s ++ e) - length e ≡ length s = omega (arith, length-append s e) in
    rw cut (drop-append_self s e)

pub has_suffix-append : (s e : List ℕ) → has_suffix (s ++ e) e ≡ true
unfolding has_suffix
has_suffix-append s e =
    rw (drop-append_len s e, bytes_eq_refl e) (ground (arith, length-append s e))
