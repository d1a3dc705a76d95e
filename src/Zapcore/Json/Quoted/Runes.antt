-- ===== src/Zapcore/Json/Quoted/Runes.antt =====
-- The reader on the bytes that stand for one rune.
use nanozap.Base.{
  ℕ, zero, suc, ◌+◌, ◌*◌, ◌/◌, ◌%◌, ◌≤◌, ◌<◌, ◌≡◌, refl, ap, sym, ◌∙◌, not, Bool, true, ◌&&◌, ◌||◌,
  Option, none, some, List, [], ◌∷◌, ◌++◌, leb, ◌==◌, arith, inl, inr, Bool-cases, get_or, take,
}
use nanozap.Zapcore.Utf8.{decode_rune}
use nanozap.Zapcore.Json.Escape.{self_text, error_text, hex, quote, backslash}
use nanozap.Zapcore.Json.Reader.{
  Reading, plain, escaped, unicode, hex_value, prepend, read_byte, read_string, read_digit, emit,
  skip,
}

hex_value-hex : (d : ℕ) → d < 16 → hex_value (get_or hex d 0) ≡ some d
hex_value-hex zero h = refl
hex_value-hex (suc zero) h = refl
hex_value-hex (suc (suc zero)) h = refl
hex_value-hex (suc (suc (suc zero))) h = refl
hex_value-hex (suc (suc (suc (suc zero)))) h = refl
hex_value-hex (suc (suc (suc (suc (suc zero))))) h = refl
hex_value-hex (suc (suc (suc (suc (suc (suc zero)))))) h = refl
hex_value-hex (suc (suc (suc (suc (suc (suc (suc zero))))))) h = refl
hex_value-hex (suc (suc (suc (suc (suc (suc (suc (suc zero)))))))) h = refl
hex_value-hex (suc (suc (suc (suc (suc (suc (suc (suc (suc zero))))))))) h = refl
hex_value-hex (suc (suc (suc (suc (suc (suc (suc (suc (suc (suc zero)))))))))) h = refl
hex_value-hex (suc (suc (suc (suc (suc (suc (suc (suc (suc (suc (suc zero))))))))))) h = refl
hex_value-hex (suc (suc (suc (suc (suc (suc (suc (suc (suc (suc (suc (suc zero)))))))))))) h = refl
hex_value-hex (suc (suc (suc (suc (suc (suc (suc (suc (suc (suc (suc (suc (suc zero))))))))))))) h =
    refl
hex_value-hex
      (suc (suc (suc (suc (suc (suc (suc (suc (suc (suc (suc (suc (suc (suc zero)))))))))))))) h =
    refl
hex_value-hex
      (suc (suc (suc (suc (suc (suc (suc (suc (suc (suc (suc (suc (suc (suc (suc zero)))))))))))))))
      h =
    refl
hex_value-hex
      (suc
        (suc (suc (suc (suc (suc (suc (suc (suc (suc (suc (suc (suc (suc (suc (suc d))))))))))))))))
      h =
    absurd (omega arith)

-- Reading one byte that stands for itself.
read-emit :
    (st : Reading) (c : ℕ) (p t : List ℕ)
    → read_byte st c ≡ emit p
    → read_string st (c ∷ t) ≡ prepend p (read_string plain t)
unfolding read_string
read-emit st c p t e = rw (e, read_string) refl

read-skip :
    (st st' : Reading) (c : ℕ) (t : List ℕ)
    → read_byte st c ≡ skip st'
    → read_string st (c ∷ t) ≡ read_string st' t
unfolding read_string
read-skip st st' c t e = rw (e, read_string) refl

read-opening :
    (t : List ℕ)
    → read_string plain (backslash ∷ b'u' ∷ b'0' ∷ b'0' ∷ t) ≡ read_string (unicode 2 0) t
unfolding read_string read_byte
read-opening t = refl

read-control :
    (b : ℕ) (t : List ℕ)
    → b < 32
    → read_string plain
        (backslash ∷ b'u' ∷ b'0' ∷ b'0' ∷ get_or hex (b / 16) 0 ∷ get_or hex (b % 16) 0 ∷ t)
      ≡ prepend (b ∷ []) (read_string plain t)
unfolding read_byte
read-control b t h =
    let d₁ = get_or hex (b / 16) 0 in
    let d₀ = get_or hex (b % 16) 0 in
    let first : 0 * 16 + b / 16 ≡ b / 16 = omega arith in
    let high : read_byte (unicode 2 0) d₁ ≡ skip (unicode 3 (b / 16)) =
      ap (read_digit 2 0) (hex_value-hex (b / 16) (omega arith))
      ∙ ap (λ v. skip (unicode 3 v)) first in
    let whole : b / 16 * 16 + b % 16 ≡ b = omega arith in
    let low : read_byte (unicode 3 (b / 16)) d₀ ≡ emit (b ∷ []) =
      ap (read_digit 3 (b / 16)) (hex_value-hex (b % 16) (omega arith)) ∙ rw whole (ground arith) in
    read-opening (d₁ ∷ d₀ ∷ t)
    ∙ read-skip (unicode 2 0) (unicode 3 (b / 16)) d₁ (d₀ ∷ t) high
    ∙ read-emit (unicode 3 (b / 16)) d₀ (b ∷ []) t low

read-pair :
    (c : ℕ) (p t : List ℕ)
    → read_byte escaped c ≡ emit p
    → read_string plain (backslash ∷ c ∷ t) ≡ prepend p (read_string plain t)
unfolding read_byte
read-pair c p t e = read-skip plain escaped backslash (c ∷ t) refl ∙ read-emit escaped c p t e

pub read-self_text :
    (b : ℕ) (t : List ℕ)
    → b < 128
    → read_string plain (self_text b ++ t) ≡ prepend (b ∷ []) (read_string plain t)
unfolding self_text read_byte
read-self_text b t h = elim (Bool-cases (leb 32 b && not (b == backslash) && not (b == quote))) [
  | inl e ↦ rw e (read-emit plain b (b ∷ []) t (ground arith))
  | inr e ↦ rw e (elim (Bool-cases (b == backslash || b == quote)) [
    | inl e' ↦ rw e' (read-pair b (b ∷ []) t (ground arith))
    | inr e' ↦ rw e' (elim (Bool-cases (b == 10)) [
      | inl n ↦ rw n (read-pair b'n' (b ∷ []) t (ground arith))
      | inr n ↦ rw n (elim (Bool-cases (b == 13)) [
        | inl r ↦ rw r (read-pair b'r' (b ∷ []) t (ground arith))
        | inr r ↦ rw r (elim (Bool-cases (b == 9)) [
          | inl t' ↦ rw t' (read-pair b't' (b ∷ []) t (ground arith))
          | inr t' ↦ rw t' (read-control b t (ground arith))
        ])
      ])
    ])
  ])
]

pub read-error_text :
    (t : List ℕ)
    → read_string plain (error_text ++ t) ≡ prepend (239 ∷ 191 ∷ 189 ∷ []) (read_string plain t)
unfolding read_string read_byte
read-error_text t = refl

-- Bytes that belong to longer runes.
abbrev pub all_high : List ℕ → Bool
all_high [] = true
all_high (c ∷ s) = leb 128 c && all_high s

prepend-cons :
    (c : ℕ) (p : List ℕ) (o : Option (List ℕ × List ℕ))
    → prepend (c ∷ []) (prepend p o) ≡ prepend (c ∷ p) o
prepend-cons c p none = refl
prepend-cons c p (some r) = refl

prepend-nil : (o : Option (List ℕ × List ℕ)) → prepend [] o ≡ o
prepend-nil none = refl
prepend-nil (some r) = refl

pub read-high :
    (p t : List ℕ)
    → all_high p ≡ true
    → read_string plain (p ++ t) ≡ prepend p (read_string plain t)
unfolding read_byte
read-high [] t h = sym (prepend-nil (read_string plain t))
read-high (c ∷ p) t h =
    read-emit plain c (c ∷ []) (p ++ t) (ground arith)
    ∙ ap (prepend (c ∷ [])) (read-high p t (ground arith))
    ∙ prepend-cons c p (read_string plain t)

-- All bytes of a longer rune are 128 or above.
pub decode_rune-high :
    (b : ℕ) (s : List ℕ) → 128 ≤ b → all_high (take (decode_rune (b ∷ s)).1 (b ∷ s)) ≡ true
unfolding decode_rune
decode_rune-high b [] h = ground arith
decode_rune-high b (c ∷ []) h = ground arith
decode_rune-high b (c ∷ d ∷ []) h = ground arith
decode_rune-high b (c ∷ d ∷ e ∷ s) h = ground arith

pub decode_rune-takes : (s : List ℕ) → 0 < (decode_rune s).1
unfolding decode_rune
decode_rune-takes s = ground arith

pub decode_rune_self : (b : ℕ) (s : List ℕ) → b < 128 → decode_rune (b ∷ s) ≡ (b, 1)
unfolding decode_rune
decode_rune_self b s h = ground arith
