-- ===== src/Buffer/Decimal.antt =====
-- buffer/buffer.go: the texts of numbers, and a reader of them.
use nanozap.Base.{
  ◌&&◌, not, Bool, Option, none, some, false, ◌≤◌, ℕ, zero, suc, ◌+◌, ◌-◌, ◌*◌, ◌/◌, ◌%◌, ◌^◌, ◌<◌,
  ◌≡◌, refl, ap, sym, ◌∙◌, List, [], ◌∷◌, ◌++◌, arith, ltb, ◌==◌, if◌then◌else◌, Bool-cases, inl,
  inr,
}
use mathlib.Core.Option
use nanozap.Base.Int.{ℤ, pos, negsuc, pos_part, neg_part}
use nanozap.Buffer.{Buffer, digits, decimal, signed_decimal, append_uint, append_int}

abbrev pub is_digit : ℕ → Bool
is_digit c = not (ltb c b'0') && not (ltb b'9' c)

-- The number that a list of digits spells after `acc`. `none`: a byte is not a digit.
abbrev pub read_digits : ℕ → List ℕ → Option ℕ
read_digits acc [] = some acc
read_digits acc (c ∷ s) =
    let rest = read_digits (acc * 10 + (c - b'0')) s in if is_digit c then rest else none

abbrev only_zero : List ℕ → Option ℕ
only_zero [] = some 0
only_zero (c ∷ s) = none

-- The number that a text spells. `none`: the text is empty, is not all digits, or starts with a 0
-- that is not all of it.
abbrev pub read_uint : List ℕ → Option ℕ
read_uint [] = none
read_uint (c ∷ s) = if c == b'0' then only_zero s else read_digits 0 (c ∷ s)

-- The negative of a number; there is none of 0.
abbrev pub negate : ℕ → Option ℤ
negate zero = none
negate (suc n) = some (negsuc n)

-- The integer that a text spells.
abbrev pub read_int : List ℕ → Option ℤ
read_int [] = none
read_int (c ∷ s) =
    if c == b'-' then Option.bind (read_uint s) negate else Option.map pos (read_uint (c ∷ s))

abbrev next_digit : ℕ → ℕ → Option ℕ
next_digit c n = if is_digit c then some (n * 10 + (c - b'0')) else none

read_digits-snoc :
    (acc : ℕ) (s : List ℕ) (c : ℕ)
    → read_digits acc (s ++ c ∷ []) ≡ Option.bind (read_digits acc s) (next_digit c)
unfolding Option.bind
read_digits-snoc acc [] c = refl
read_digits-snoc acc (x ∷ s) c = elim (Bool-cases (is_digit x)) [
  | inl e ↦ rw e (read_digits-snoc (acc * 10 + (x - b'0')) s c)
  | inr e ↦ rw e refl
]

next_digit_lem : (q d n : ℕ) → d < 10 → q * 10 + d ≡ n → next_digit (b'0' + d) q ≡ some n
next_digit_lem q d n h e = ground arith

read_digits-digits : (f n : ℕ) → n < 10 ^ f → read_digits 0 (digits f n) ≡ some n
unfolding digits Option.bind
read_digits-digits zero n h = ap some (omega arith)
read_digits-digits (suc f) n h = elim (Bool-cases (ltb n 10)) [
  | inl e ↦ rw e (next_digit_lem 0 n n (ground arith) (omega arith))
  | inr e ↦
      let front = read_digits-digits f (n / 10) (omega arith) in
      rw e (
        read_digits-snoc 0 (digits f (n / 10)) (b'0' + n % 10)
        ∙ rw front (next_digit_lem (n / 10) (n % 10) n (omega arith) (omega arith)))
]

-- The first digit of a number that is not 0.
digits-first :
    (f n : ℕ)
    → 0 < n
    → n < 10 ^ suc f
    → (c : ℕ) × (s : List ℕ) × (digits (suc f) n ≡ c ∷ s)
      × (c == b'-' ≡ false)
      × (c == b'0' ≡ false)
unfolding digits
digits-first zero n h h' = elim (Bool-cases (ltb n 10)) [
  | inl e ↦ rw e (b'0' + n, [], refl, ground arith, ground arith)
  | inr e ↦ ground arith
]
digits-first (suc f) n h h' = elim (Bool-cases (ltb n 10)) [
  | inl e ↦ rw e (b'0' + n, [], refl, ground arith, ground arith)
  | inr e ↦
      let (c, s, q, other, other') = digits-first f (n / 10) (ground arith) (omega arith) in
      rw e (c, s ++ (b'0' + n % 10) ∷ [], ap (λ l. l ++ (b'0' + n % 10) ∷ []) q, other, other')
]

decimal-read :
    (n : ℕ) → n < 2 ^ 64 → (read_uint (decimal n) ≡ some n) × (read_int (decimal n) ≡ some (pos n))
unfolding decimal digits
decimal-read zero h = (refl, refl)
decimal-read (suc n) h =
    let (c, s, q, other, other') = digits-first 19 (suc n) (omega arith) (omega arith) in
    let value : read_digits 0 (c ∷ s) ≡ some (suc n) =
      ap (read_digits 0) (sym q) ∙ read_digits-digits 20 (suc n) (omega arith) in
    let whole : read_uint (c ∷ s) ≡ some (suc n) = rw other' value in
    (ap read_uint q ∙ whole, ap read_int q ∙ rw other (ap (Option.map pos) whole))

-- What is appended for a `uint64` and for an `int64` leaves the buffer before it as it was and is a
-- text that spells the number: it is not empty, all of it is digits behind at most one minus sign,
-- and it has no leading zero.
pub read-append :
    (b : Buffer) (n : ℕ) (i : ℤ)
    → n < 2 ^ 64
    → pos_part i < 2 ^ 63
    → neg_part i ≤ 2 ^ 63
    → (s t : List ℕ) × (append_uint n b ≡ b ++ s)
      × (read_uint s ≡ some n)
      × (append_int i b ≡ b ++ t)
      × (read_int t ≡ some i)
unfolding decimal signed_decimal Option.bind
read-append b n (pos i) h h₁ h₂ =
    (decimal n, decimal i, refl, (decimal-read n h).0, refl, (decimal-read i (omega arith)).1)
read-append b n (negsuc i) h h₁ h₂ = (
  decimal n,
  b'-' ∷ decimal (suc i),
  refl,
  (decimal-read n h).0,
  refl,
  ap (λ r. Option.bind r negate) (decimal-read (suc i) (omega arith)).0,
)
