-- ===== src/Zapcore/Encoder/Standard/Tests.antt =====
-- The standard encoders run on concrete values.
use nanozap.Base.{◌≡◌, refl, [], ◌∷◌}
use nanozap.Base.Int.{ℤ, negsuc}
use nanozap.Base.Bytes.{bytes}
use nanozap.Zapcore.Level.{warn_level}
use nanozap.Zapcore.Encoder.Sample.{library}
use nanozap.Zapcore.Encoder.{bits64, int_value, string_value}
use nanozap.Zapcore.Encoder.Standard.{
  quot, Printing, millisecond, level_encoder, time_encoder, duration_encoder,
}
use nanozap.Zapcore.Encoder.Standard.Truncate.{Truncates, time_encoder-Truncates}
use nanozap.Zapcore.Level.{string, capital_string}

abbrev printing : Printing library
printing = record {
  decimal = λ l. bytes "9";
  iso8601 = λ ns. bytes "1970-01-01T00:00:00.000Z";
  duration_string = λ d. bytes "0s";
  float_seconds = λ d. tt;
}

-- A millisecond and a half before the epoch.
abbrev before : ℤ
before = negsuc 1499999

time_encoder-Truncates_example :
    (q : ℤ) × (time_encoder library printing (bytes "millis") before ≡ int_value bits64 q ∷ [])
    × Truncates q before millisecond
time_encoder-Truncates_example =
    time_encoder-Truncates library printing (bytes "millis") before refl

towards_zero :
    time_encoder library printing (bytes "millis") before ≡ int_value bits64 (negsuc 0) ∷ []
unfolding time_encoder quot
towards_zero = refl

capital_warn :
    level_encoder library printing (bytes "capital") warn_level ≡ string_value (bytes "WARN") ∷ []
unfolding level_encoder capital_string
capital_warn = refl

lower_warn :
    level_encoder library printing (bytes "colored") warn_level ≡ string_value (bytes "warn") ∷ []
unfolding level_encoder string
lower_warn = refl

whole_duration :
    duration_encoder library printing (bytes "nanos") before ≡ int_value bits64 before ∷ []
unfolding duration_encoder
whole_duration = refl
