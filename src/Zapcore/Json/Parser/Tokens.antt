-- ===== src/Zapcore/Json/Parser/Tokens.antt =====
-- Which texts are literals: numbers, and what the buffer prints of one.
use mathlib.Core.Path.{subst⁻¹}
use nanozap.Base.{
  ℕ, zero, suc, ◌+◌, ◌/◌, ◌%◌, ◌^◌, ◌<◌, ◌≤◌, ◌≡◌, refl, ap, sym, ◌∙◌, true, false, none, some,
  List, [], ◌∷◌, ◌++◌, append-nil, append_assoc, arith, ltb, ltb→lt, Bool-cases, by_option, inl,
  inr,
}
use nanozap.Base.Int.{ℤ, pos, negsuc, pos_part, neg_part}
use nanozap.Base.Bytes.{bytes, bytes_eq, eq_of_bytes_eq}
use nanozap.Buffer.{digits, decimal, signed_decimal}
use nanozap.Zapcore.Json.Parser.{
  is_delimiter, Numeral, at_start, after_minus, after_zero, in_integer, after_point, in_fraction,
  after_e, after_sign, in_exponent, next_numeral, reads_number, is_number, is_literal,
}

-- No byte of a literal is a delimiter.
abbrev pub IsToken : List ℕ → Type 0
IsToken [] = Unit
IsToken (c ∷ t) = (is_delimiter c ≡ false) × IsToken t

next_numeral-token :
    (st st' : Numeral) (c : ℕ) → next_numeral st c ≡ some st' → is_delimiter c ≡ false
unfolding next_numeral
next_numeral-token at_start st' c h = ground arith
next_numeral-token after_minus st' c h = ground arith
next_numeral-token after_zero st' c h = ground arith
next_numeral-token in_integer st' c h = ground arith
next_numeral-token after_point st' c h = ground arith
next_numeral-token in_fraction st' c h = ground arith
next_numeral-token after_e st' c h = ground arith
next_numeral-token after_sign st' c h = ground arith
next_numeral-token in_exponent st' c h = ground arith

reads_number-IsToken : (st : Numeral) (t : List ℕ) → reads_number st t ≡ true → IsToken t
unfolding reads_number
reads_number-IsToken st [] h = tt
reads_number-IsToken st (c ∷ t) h =
    by_option
      (λ o.
        elim o [ none ↦ false | some st' ↦ reads_number st' t ] ≡ true
        → (is_delimiter c ≡ false) × IsToken t)
      (next_numeral st c) (λ e h. cc)
      (λ st' e h. (next_numeral-token st st' c e, reads_number-IsToken st' t h)) h

is_number-IsToken : (t : List ℕ) → is_number t ≡ true → IsToken t
is_number-IsToken t h = reads_number-IsToken at_start t h

-- A literal is a token and not empty.
pub is_literal-IsToken : (t : List ℕ) → is_literal t ≡ true → IsToken t
unfolding is_literal
is_literal-IsToken t h = elim (Bool-cases (bytes_eq t (bytes "true"))) [
  | inl e ↦ subst⁻¹ IsToken (eq_of_bytes_eq t (bytes "true") e) (refl, (refl, (refl, (refl, tt))))
  | inr e ↦ elim (Bool-cases (bytes_eq t (bytes "false"))) [
    | inl e' ↦
        subst⁻¹ IsToken (eq_of_bytes_eq t (bytes "false") e')
          (refl, (refl, (refl, (refl, (refl, tt)))))
    | inr e' ↦ elim (Bool-cases (bytes_eq t (bytes "null"))) [
      | inl e'' ↦
          subst⁻¹ IsToken (eq_of_bytes_eq t (bytes "null") e'') (refl, (refl, (refl, (refl, tt))))
      | inr e'' ↦ is_number-IsToken t (ground arith)
    ]
  ]
]

reads_next :
    (st st' : Numeral) (c : ℕ) (t : List ℕ)
    → next_numeral st c ≡ some st'
    → reads_number st (c ∷ t) ≡ reads_number st' t
unfolding reads_number
reads_next st st' c t e = rw (e, reads_number) refl

integer_digit : (d : ℕ) → d < 10 → next_numeral in_integer (b'0' + d) ≡ some in_integer
unfolding next_numeral
integer_digit d h = ground arith

-- Where an integer may start.
abbrev Before : Numeral → Type 0
Before st = (d : ℕ) → d < 10 → 0 < d → next_numeral st (b'0' + d) ≡ some in_integer

start-Before : Before at_start
unfolding next_numeral
start-Before d h h' = ground arith

minus-Before : Before after_minus
unfolding next_numeral
minus-Before d h h' = ground arith

-- The digits of a positive number, before a text.
digits-number :
    (f n : ℕ) (st : Numeral) (t : List ℕ)
    → Before st
    → n < 10 ^ suc f
    → 0 < n
    → reads_number st (digits (suc f) n ++ t) ≡ reads_number in_integer t
unfolding digits
digits-number zero n st t before h h' =
    let one : ltb n 10 ≡ true = ground arith in
    rw one (reads_next st in_integer (b'0' + n) t (before n (omega arith) h'))
digits-number (suc f) n st t before h h' = elim (Bool-cases (ltb n 10)) [
  | inl e ↦
      rw e (reads_next st in_integer (b'0' + n) t (before n (omega (arith, ltb→lt n 10 e)) h'))
  | inr e ↦
      let d = b'0' + n % 10 in
      let two : 10 ≤ n = ground arith in
      rw e (
        ap (reads_number st) (append_assoc (digits (suc f) (n / 10)) (d ∷ []) t)
        ∙ digits-number f (n / 10) st (d ∷ t) before (omega arith) (omega arith)
        ∙ reads_next in_integer in_integer d t (integer_digit (n % 10) (omega arith)))
]

positive-number :
    (n : ℕ) (st : Numeral) → Before st → n < 10 ^ 20 → 0 < n → reads_number st (decimal n) ≡ true
unfolding decimal reads_number
positive-number n st before h h' =
    ap (reads_number st) (sym (append-nil (digits 20 n))) ∙ digits-number 19 n st [] before h h'

pub decimal-is_number : (n : ℕ) → n < 2 ^ 64 → is_number (decimal n) ≡ true
unfolding decimal digits reads_number next_numeral
decimal-is_number zero h = refl
decimal-is_number (suc n) h =
    positive-number (suc n) at_start start-Before (omega arith) (omega arith)

minus_first : (t : List ℕ) → is_number (b'-' ∷ t) ≡ reads_number after_minus t
unfolding reads_number next_numeral
minus_first t = refl

pub signed_decimal-is_number :
    (i : ℤ) → pos_part i < 2 ^ 63 → neg_part i ≤ 2 ^ 63 → is_number (signed_decimal i) ≡ true
unfolding signed_decimal
signed_decimal-is_number (pos n) h h' = decimal-is_number n (omega arith)
signed_decimal-is_number (negsuc n) h h' =
    minus_first (decimal (suc n))
    ∙ positive-number (suc n) after_minus minus-Before (omega arith) (omega arith)

pub is_number-is_literal : (t : List ℕ) → is_number t ≡ true → is_literal t ≡ true
unfolding is_literal
is_number-is_literal t h = ground arith
