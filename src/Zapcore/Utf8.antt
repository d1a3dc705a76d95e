-- ===== src/Zapcore/Utf8.antt =====
-- `utf8.DecodeRune` of Go's library, as zapcore/json_encoder.go uses it: the rune and its width.
use nanozap.Base.{ℕ, ◌+◌, ◌*◌, ◌%◌, Bool, ◌&&◌, List, ltb, leb, ◌==◌, if◌then◌else◌, get_or}

abbrev pub rune_self : ℕ
rune_self = 128

abbrev pub rune_error : ℕ
rune_error = 65533

abbrev within : ℕ → ℕ → ℕ → Bool
within lo hi b = leb lo b && leb b hi

-- The second byte of a sequence, whose range depends on the first one: neither an overlong form,
-- nor a surrogate, nor a rune above the last.
abbrev second : ℕ → ℕ → Bool
second b₀ b₁ =
    within (if b₀ == 224 then 160 else if b₀ == 240 then 144 else 128)
      (if b₀ == 237 then 159 else if b₀ == 244 then 143 else 191) b₁

-- A position behind the end reads as 0, which continues no sequence.
unfoldable pub decode_rune : List ℕ → ℕ × ℕ
decode_rune s =
    let b₀ = get_or s 0 0 in
    let b₁ = get_or s 1 0 in
    let b₂ = get_or s 2 0 in
    let b₃ = get_or s 3 0 in
    if ltb b₀ rune_self
    then (b₀, 1)
    else if within 194 223 b₀ && second b₀ b₁
    then (b₀ % 32 * 64 + b₁ % 64, 2)
    else if within 224 239 b₀ && second b₀ b₁ && within 128 191 b₂
    then ((b₀ % 16 * 64 + b₁ % 64) * 64 + b₂ % 64, 3)
    else if within 240 244 b₀ && second b₀ b₁ && within 128 191 b₂ && within 128 191 b₃
    then (((b₀ % 8 * 64 + b₁ % 64) * 64 + b₂ % 64) * 64 + b₃ % 64, 4)
    else (rune_error, 1)
