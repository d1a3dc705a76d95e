-- ===== src/Zapcore/Field/Equals.antt =====
-- zapcore/field.go: when two fields are equal. `deep_equal` is `reflect.DeepEqual` of what two
-- interfaces hold; `same` is Go's `==` of them, with `none` for its panic on types that it cannot
-- compare.
use nanozap.Base.{ℕ, ◌==◌, ◌&&◌, Bool, false, Option, none, some, if◌then◌else◌}
use nanozap.Base.Ints.{eq_ℤ}
use nanozap.Base.Bytes.{bytes_eq}
use nanozap.Zapcore.Encoder.{Externals}
use nanozap.Zapcore.Field.{
  FieldType, unknown_type, array_marshaler_type, object_marshaler_type, binary_type, bool_type,
  byte_string_type, complex128_type, complex64_type, duration_type, float64_type, float32_type,
  int64_type, int32_type, int16_type, int8_type, string_type, time_type, uint64_type, uint32_type,
  uint16_type, uint8_type, uintptr_type, reflect_type, namespace_type, stringer_type, error_type,
  skip_type, Interface, byte_slice, Field,
}

-- The number of a type.
abbrev number : FieldType → ℕ
number unknown_type = 0
number array_marshaler_type = 1
number object_marshaler_type = 2
number binary_type = 3
number bool_type = 4
number byte_string_type = 5
number complex128_type = 6
number complex64_type = 7
number duration_type = 8
number float64_type = 9
number float32_type = 10
number int64_type = 11
number int32_type = 12
number int16_type = 13
number int8_type = 14
number string_type = 15
number time_type = 16
number uint64_type = 17
number uint32_type = 18
number uint16_type = 19
number uint8_type = 20
number uintptr_type = 21
number reflect_type = 22
number namespace_type = 23
number stringer_type = 24
number error_type = 25
number skip_type = 26

module _ {ex : Externals} where
  -- `bytes.Equal` of two byte slices; `none` is the panic where one is none.
  abbrev bytes_equal : Interface ex → Interface ex → Option Bool
  bytes_equal (byte_slice s) (byte_slice t) = some (bytes_eq s t)
  bytes_equal i j = none

  module _ (deep_equal : Interface ex → Interface ex → Bool)
      (same : Interface ex → Interface ex → Option Bool) where
    unfoldable pub equals : Field ex → Field ex → Option Bool
    equals f g =
        if (number f.type == number g.type) && bytes_eq f.key g.key
        then elim f.type [
          | binary_type ↦ bytes_equal f.interface g.interface
          | byte_string_type ↦ bytes_equal f.interface g.interface
          | array_marshaler_type ↦ some (deep_equal f.interface g.interface)
          | object_marshaler_type ↦ some (deep_equal f.interface g.interface)
          | error_type ↦ some (deep_equal f.interface g.interface)
          | reflect_type ↦ some (deep_equal f.interface g.interface)
          | _ ↦
              if eq_ℤ f.integer g.integer && bytes_eq f.string g.string
              then same f.interface g.interface
              else some false
        ]
        else some false
