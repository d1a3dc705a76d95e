-- ===== src/Zapcore/Json/OneLine/Strings.antt =====
-- zapcore/json_encoder.go: line feeds in an escaped string and in the digits of a number.
use nanozap.Base.{
  ℕ, zero, suc, ◌+◌, ◌/◌, ◌%◌, ◌≡◌, refl, not, Bool, true, false, ◌&&◌, ◌||◌, List, [], ◌∷◌, ◌++◌,
  leb, ltb, ◌==◌, arith, inl, inr, Bool-cases, get_or, take, drop, length,
}
use nanozap.Base.Int.{ℤ, pos, negsuc}
use nanozap.Buffer.{Buffer, digits, decimal, signed_decimal}
use nanozap.Zapcore.Utf8.{decode_rune, rune_error}
use nanozap.Zapcore.Json.Escape.{
  hex, backslash, quote, self_text, error_text, add_rune, safe_add_loop, safe_add_string,
}
use nanozap.Zapcore.Json.Quoted.Runes.{all_high, decode_rune-high}

-- Whether a text has no line feed.
abbrev pub one_line : List ℕ → Bool
one_line [] = true
one_line (c ∷ t) = not (c == 10) && one_line t

pub one_line-append :
    (s t : List ℕ) → one_line s ≡ true → one_line t ≡ true → one_line (s ++ t) ≡ true
one_line-append [] t h h' = h'
one_line-append (c ∷ s) t h h' =
    let this : c == 10 ≡ false = ground arith in rw this (one_line-append s t (ground arith) h')

pub one_line-snoc :
    (s : List ℕ) (c : ℕ) → one_line s ≡ true → c == 10 ≡ false → one_line (s ++ c ∷ []) ≡ true
one_line-snoc s c h h' = one_line-append s (c ∷ []) h (rw h' refl)

one_line-get_or : (s : List ℕ) (d : ℕ) → one_line s ≡ true → get_or s d 0 == 10 ≡ false
one_line-get_or [] d h = refl
one_line-get_or (c ∷ s) zero h = ground arith
one_line-get_or (c ∷ s) (suc d) h = one_line-get_or s d (ground arith)

one_line-self_text : (b : ℕ) → one_line (self_text b) ≡ true
unfolding self_text
one_line-self_text b =
    let d₁ = one_line-get_or hex (b / 16) refl in
    let d₀ = one_line-get_or hex (b % 16) refl in
    elim (Bool-cases (leb 32 b && not (b == backslash) && not (b == quote))) [
      | inl e ↦ rw e (ground arith)
      | inr e ↦ rw e (elim (Bool-cases (b == backslash || b == quote)) [
        | inl e' ↦ rw e' (ground arith)
        | inr e' ↦ rw e' (elim (Bool-cases (b == 10)) [
          | inl n ↦ rw n refl
          | inr n ↦ rw n (elim (Bool-cases (b == 13)) [
            | inl r ↦ rw r refl
            | inr r ↦
                rw r
                  (elim (Bool-cases (b == 9)) [ inl t ↦ rw t refl | inr t ↦ rw (t, d₁, d₀) refl ])
          ])
        ])
      ])
    ]

one_line-high : (s : List ℕ) → all_high s ≡ true → one_line s ≡ true
one_line-high [] h = refl
one_line-high (c ∷ s) h =
    let this : c == 10 ≡ false = ground arith in rw this (one_line-high s (ground arith))

one_line-add_rune :
    (b : ℕ) (s : List ℕ) (buf : Buffer)
    → one_line buf ≡ true
    → one_line (add_rune (b ∷ s) buf).1 ≡ true
unfolding add_rune
one_line-add_rune b s buf h = elim (Bool-cases (leb 128 b)) [
  | inr low ↦
      let turn : (add_rune (b ∷ s) buf).1 ≡ buf ++ self_text b = rw (low, add_rune) refl in
      rw turn (one_line-append buf (self_text b) h (one_line-self_text b))
  | inl high ↦
      let size = (decode_rune (b ∷ s)).1 in
      elim (Bool-cases ((decode_rune (b ∷ s)).0 == rune_error && size == 1)) [
        | inl bad ↦
            let turn : (add_rune (b ∷ s) buf).1 ≡ buf ++ error_text =
              rw (high, bad, add_rune) refl in
            rw turn (one_line-append buf error_text h refl)
        | inr good ↦
            let turn : (add_rune (b ∷ s) buf).1 ≡ buf ++ take size (b ∷ s) =
              rw (high, good, add_rune) refl in
            rw turn (
              one_line-append buf (take size (b ∷ s)) h
                (one_line-high (take size (b ∷ s)) (decode_rune-high b s (ground arith))))
      ]
]

one_line-safe_add_loop :
    (f : ℕ) (s : List ℕ) (buf : Buffer)
    → one_line buf ≡ true
    → one_line (safe_add_loop f s buf) ≡ true
unfolding safe_add_loop
one_line-safe_add_loop zero s buf h = h
one_line-safe_add_loop (suc f) [] buf h = h
one_line-safe_add_loop (suc f) (b ∷ s) buf h =
    let (size, buf') = add_rune (b ∷ s) buf in
    one_line-safe_add_loop f (drop size (b ∷ s)) buf' (one_line-add_rune b s buf h)

pub one_line-safe_add_string :
    (s : List ℕ) (buf : Buffer) → one_line buf ≡ true → one_line (safe_add_string s buf) ≡ true
unfolding safe_add_string
one_line-safe_add_string s buf h = one_line-safe_add_loop (length s) s buf h

pub one_line-digits : (f n : ℕ) → one_line (digits f n) ≡ true
unfolding digits
one_line-digits zero n = refl
one_line-digits (suc f) n = elim (Bool-cases (ltb n 10)) [
  | inl e ↦ rw e (ground arith)
  | inr e ↦ rw e (
      one_line-snoc (digits f (n / 10)) (b'0' + n % 10) (one_line-digits f (n / 10)) (ground arith))
]

pub one_line-signed_decimal : (i : ℤ) → one_line (signed_decimal i) ≡ true
unfolding signed_decimal decimal
one_line-signed_decimal (pos n) = one_line-digits 20 n
one_line-signed_decimal (negsuc n) = one_line-digits 20 (suc n)
