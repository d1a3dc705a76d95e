-- ===== src/Zaproll/BufIo/Bytes.antt =====
-- Go's `copy` into a byte slice, and what stands at its front afterwards.
use native.Mathlib.Nat.{zero-add, add-zero}
use nanozap.Base.{
  sym, drop_of_le, ℕ, zero, suc, ◌+◌, ◌-◌, ◌≤◌, ◌≡◌, refl, ap, List, [], ◌∷◌, ◌++◌, arith, length,
  take, drop,
}

pub take-nil : (n : ℕ) → take n (let e : List ℕ = [] in e) ≡ []
take-nil zero = refl
take-nil (suc n) = refl

-- `copy(buf[i:], p)`
unfoldable pub copy_at : ℕ → List ℕ → List ℕ → List ℕ
copy_at i p [] = []
copy_at zero [] (b ∷ buf) = b ∷ buf
copy_at zero (x ∷ p) (b ∷ buf) = x ∷ copy_at zero p buf
copy_at (suc i) p (b ∷ buf) = b ∷ copy_at i p buf

pub length-copy_at : (i : ℕ) (p buf : List ℕ) → length (copy_at i p buf) ≡ length buf
unfolding copy_at
length-copy_at i p [] = refl
length-copy_at zero [] (b ∷ buf) = refl
length-copy_at zero (x ∷ p) (b ∷ buf) = ap suc (length-copy_at zero p buf)
length-copy_at (suc i) p (b ∷ buf) = ap suc (length-copy_at i p buf)

pub take-copy_front :
    (k : ℕ) (p buf : List ℕ) → k ≤ length buf → k ≤ length p → take k (copy_at 0 p buf) ≡ take k p
unfolding copy_at
take-copy_front zero p buf h h' = refl
take-copy_front (suc k) p [] h h' = absurd (omega arith)
take-copy_front (suc k) [] (b ∷ buf) h h' = absurd (omega arith)
take-copy_front (suc k) (x ∷ p) (b ∷ buf) h h' =
    ap (◌∷◌ x) (take-copy_front k p buf (omega arith) (omega arith))

-- The front of the slice is what stood before the copy, then the bytes copied.
pub take-copy_at :
    (i k : ℕ) (p buf : List ℕ)
    → i + k ≤ length buf
    → k ≤ length p
    → take (i + k) (copy_at i p buf) ≡ take i buf ++ take k p
unfolding copy_at
take-copy_at zero k p buf h h' = rw (zero-add k) (take-copy_front k p buf (omega arith) h')
take-copy_at (suc i) k p [] h h' = absurd (omega arith)
take-copy_at (suc i) k p (b ∷ buf) h h' =
    let carried : suc i + k ≡ suc (i + k) = omega arith in
    rw carried (ap (◌∷◌ b) (take-copy_at i k p buf (omega arith) h'))

-- `p[:n]` then `p[n:]`, in two cuts.
pub take-add : (i k : ℕ) (xs : List ℕ) → take (i + k) xs ≡ take i xs ++ take k (drop i xs)
take-add zero k xs = rw (zero-add k)
take-add (suc i) k [] = rw (take-nil (suc i + k), take-nil k)
take-add (suc i) k (x ∷ xs) =
    let carried : suc i + k ≡ suc (i + k) = omega arith in rw carried (ap (◌∷◌ x) (take-add i k xs))

pub drop-take : (n k : ℕ) (xs : List ℕ) → drop n (take k xs) ≡ take (k - n) (drop n xs)
drop-take zero k xs = ap (λ j. take j xs) (omega arith)
drop-take (suc n) zero xs = let none_left : 0 - suc n ≡ 0 = omega arith in rw none_left
drop-take (suc n) (suc k) [] = rw (take-nil (suc k - suc n))
drop-take (suc n) (suc k) (x ∷ xs) =
    let same : suc k - suc n ≡ k - n = omega arith in rw same (drop-take n k xs)

pub drop-add : (i k : ℕ) (xs : List ℕ) → drop k (drop i xs) ≡ drop (i + k) xs
drop-add zero k xs = rw (zero-add k)
drop-add (suc i) zero [] = rw (add-zero (suc i))
drop-add (suc i) (suc k) [] = sym (drop_of_le (suc i + suc k) [] (omega arith))
drop-add (suc i) k (x ∷ xs) =
    let carried : suc i + k ≡ suc (i + k) = omega arith in rw carried (drop-add i k xs)
