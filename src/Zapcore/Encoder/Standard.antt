-- ===== src/Zapcore/Encoder/Standard.antt =====
-- zapcore/encoder.go: the encoders of levels, times and durations, and the choice of one by its
-- name. Go's printing of numbers, times and durations, and its division of floats, are parameters.
pub mod Truncate
mod Tests
use nanozap.Base.{ℕ, suc, ◌/◌, ◌^◌, List, [], ◌∷◌, if◌then◌else◌}
use nanozap.Base.Int.{ℤ, pos, negsuc, sub_ℕ}
use nanozap.Base.Bytes.{bytes}
use nanozap.Zapcore.Level
use nanozap.Zapcore.Level.{Level, one_of}
use nanozap.Zapcore.Encoder.{Externals, bits64, Primitive, string_value, int_value, float_value}

-- Go's division of an integer by a positive one, which truncates towards zero.
unfoldable pub quot : ℤ → ℕ → ℤ
quot (pos n) d = pos (n / d)
quot (negsuc n) d = sub_ℕ 0 (suc n / d)

abbrev pub millisecond : ℕ
millisecond = 10 ^ 6

abbrev pub second : ℕ
second = 10 ^ 9

-- What the encoders print with: `%d`, `time.Unix(0, ns).Format`, `Duration.String`, and a duration
-- as a float, divided by a second.
pub record Printing (ex : Externals) : Type 0 where
  pub decimal : ℤ → List ℕ
  pub iso8601 : ℤ → List ℕ
  pub duration_string : ℤ → List ℕ
  pub float_seconds : ℤ → ex.Float

module _ (ex : Externals) where
  abbrev pub epoch_time_encoder : ℤ → List (Primitive ex)
  epoch_time_encoder ns = int_value bits64 (quot ns second) ∷ []

  abbrev pub epoch_millis_time_encoder : ℤ → List (Primitive ex)
  epoch_millis_time_encoder ns = int_value bits64 (quot ns millisecond) ∷ []

  abbrev pub epoch_nanos_time_encoder : ℤ → List (Primitive ex)
  epoch_nanos_time_encoder ns = int_value bits64 ns ∷ []

  abbrev pub nanos_duration_encoder : ℤ → List (Primitive ex)
  nanos_duration_encoder d = int_value bits64 d ∷ []

  module _ (pr : Printing ex) where
    abbrev pub lowercase_level_encoder : Level → List (Primitive ex)
    lowercase_level_encoder l = string_value (Level.string pr.decimal l) ∷ []

    abbrev pub capital_level_encoder : Level → List (Primitive ex)
    capital_level_encoder l = string_value (Level.capital_string pr.decimal l) ∷ []

    unfoldable pub level_encoder : List ℕ → Level → List (Primitive ex)
    level_encoder text =
        if one_of text (bytes "capital" ∷ [])
        then capital_level_encoder
        else lowercase_level_encoder

    abbrev pub iso8601_time_encoder : ℤ → List (Primitive ex)
    iso8601_time_encoder ns = string_value (pr.iso8601 ns) ∷ []

    unfoldable pub time_encoder : List ℕ → ℤ → List (Primitive ex)
    time_encoder text =
        if one_of text (bytes "iso8601" ∷ bytes "ISO8601" ∷ [])
        then iso8601_time_encoder
        else if one_of text (bytes "millis" ∷ [])
        then epoch_millis_time_encoder
        else if one_of text (bytes "nanos" ∷ [])
        then epoch_nanos_time_encoder
        else epoch_time_encoder

    abbrev pub seconds_duration_encoder : ℤ → List (Primitive ex)
    seconds_duration_encoder d = float_value (pr.float_seconds d) 64 ∷ []

    abbrev pub string_duration_encoder : ℤ → List (Primitive ex)
    string_duration_encoder d = string_value (pr.duration_string d) ∷ []

    unfoldable pub duration_encoder : List ℕ → ℤ → List (Primitive ex)
    duration_encoder text =
        if one_of text (bytes "string" ∷ [])
        then string_duration_encoder
        else if one_of text (bytes "nanos" ∷ [])
        then nanos_duration_encoder
        else seconds_duration_encoder
