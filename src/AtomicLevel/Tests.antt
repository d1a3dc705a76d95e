-- ===== src/AtomicLevel/Tests.antt =====
-- Levels through the atomic cell.
use nanozap.Base.{ℕ, ◌∷◌, ◌≡◌, refl, none, List, [], map, arith}
use nanozap.Base.Int.{ℤ, pos}
use nanozap.Base.Ints.{int8, int32}
use nanozap.Zapcore.Level
use nanozap.Zapcore.Level.{warn_level, error_level}
use nanozap.Zapcore.Level.Names.{lower_byte, is_warn}
use nanozap.AtomicLevel.{
  new_atomic_level, level, set_level, enabled, string, marshal_text, unmarshal, int32, int8,
}
use nanozap.AtomicLevel.Words.{level-set_level, unmarshal-marshal_text, unmarshal-string_atomic}

-- A printer of numbers for levels without a name.
abbrev digits : ℤ → List ℕ
digits l = 63 ∷ []

starts_at_info : level new_atomic_level ≡ pos 0
unfolding int32 int8
starts_at_info = refl

level-set_level_example :
    (level (set_level warn_level new_atomic_level) ≡ warn_level)
    × (enabled (set_level warn_level new_atomic_level) error_level
        ≡ Level.enabled warn_level error_level)
    × (string digits (set_level warn_level new_atomic_level) ≡ Level.string digits warn_level)
level-set_level_example =
    level-set_level digits warn_level error_level new_atomic_level (omega arith, omega arith)

warn_parsed :
    let (e, a') = unmarshal (map lower_byte) (Level.string digits warn_level) none in
    (e ≡ none) × (string digits a' ≡ Level.string digits warn_level)
warn_parsed = unmarshal-string_atomic digits (map lower_byte) warn_level none is_warn

unmarshal-marshal_text_example :
    let (e, a') =
      unmarshal
        (map lower_byte)
        (marshal_text digits (set_level warn_level new_atomic_level))
        none in
    (e ≡ none)
    × (level a' ≡ warn_level)
    × (enabled a' error_level ≡ enabled (set_level warn_level new_atomic_level) error_level)
unmarshal-marshal_text_example =
    unmarshal-marshal_text digits (map lower_byte) warn_level error_level new_atomic_level none
      is_warn
