-- ===== src/Zapcore/Level/Tests.antt =====
-- Names of levels, in capitals and in mixed case.
use nanozap.Base.{ℕ, ◌∷◌, ◌≡◌, refl, none, some, List, [], map}
use nanozap.Base.Int.{ℤ}
use nanozap.Base.Bytes.{bytes}
use nanozap.Zapcore.Level.{
  warn_level, info_level, string, capital_string, unmarshal_text, unmarshal_name, unrecognized,
}
use nanozap.Zapcore.Level.Names.{
  lower_byte, is_warn, LowersAscii, unmarshal-string, unmarshal-any_case,
}

abbrev digits : ℤ → List ℕ
digits l = 63 ∷ []

lower_bytes-LowersAscii : LowersAscii (map lower_byte)
lower_bytes-LowersAscii s h = refl

-- A text that is no name leaves the level as it was.
not_a_level :
    unmarshal_text (map lower_byte) (bytes "foo") (some warn_level)
    ≡ (some (unrecognized (bytes "foo")), some warn_level)
unfolding unmarshal_text unmarshal_name
not_a_level = refl

unmarshal-string_example :
    (unmarshal_text (map lower_byte) (string digits warn_level) (some info_level)
      ≡ (none, some warn_level))
    × (unmarshal_text (map lower_byte) (capital_string digits warn_level) (some info_level)
        ≡ (none, some warn_level))
unmarshal-string_example = unmarshal-string digits (map lower_byte) warn_level info_level is_warn

unmarshal-any_case_example :
    unmarshal_text (map lower_byte) (bytes "wArN") (some info_level) ≡ (none, some warn_level)
unfolding string
unmarshal-any_case_example =
    unmarshal-any_case digits (map lower_byte) lower_bytes-LowersAscii (bytes "wArN") warn_level
      info_level is_warn refl refl
