-- ===== src/Zapcore/Field.antt =====
-- zapcore/field.go: a field and what it adds to an encoder. `none` is a panic: an unknown type, or
-- an interface that does not hold what the type says. An encoder answers with an error only where a
-- marshaler returned it, or where it cannot encode a value by reflection, which `reflect_error`
-- tells of an encoder.
pub mod Equals
use nanozap.Base.{ℕ, ◌%◌, ◌^◌, Bool, Option, none, some, List, [], ◌∷◌, ◌++◌}
use nanozap.Base.Int.{ℤ, pos}
use nanozap.Base.Word.{word}
use nanozap.Base.Bytes.{bytes}
use nanozap.Base.Ints.{int8, int16, int32, eq_ℤ}
use nanozap.Zapcore.Encoder.{
  Externals, bits64, bits32, bits16, bits8, pointer, Value, primitive, bool_value,
  byte_string_value, complex_value, float_value, int_value, string_value, uint_value, time_value,
  duration_value, array_value, object_value, Values, Members, end, member, binary_member,
  reflected_member, namespace, append_members,
}
use nanozap.Zapcore.Failure.{Failure, encode_error, string_member}

pub data FieldType : Type 0 where
  unknown_type : FieldType
  array_marshaler_type : FieldType
  object_marshaler_type : FieldType
  binary_type : FieldType
  bool_type : FieldType
  byte_string_type : FieldType
  complex128_type : FieldType
  complex64_type : FieldType
  duration_type : FieldType
  float64_type : FieldType
  float32_type : FieldType
  int64_type : FieldType
  int32_type : FieldType
  int16_type : FieldType
  int8_type : FieldType
  string_type : FieldType
  time_type : FieldType
  uint64_type : FieldType
  uint32_type : FieldType
  uint16_type : FieldType
  uint8_type : FieldType
  uintptr_type : FieldType
  reflect_type : FieldType
  namespace_type : FieldType
  stringer_type : FieldType
  error_type : FieldType
  skip_type : FieldType

-- The bit patterns of floats, `math.Float64bits` and its like. A float is a `float64`; a `float32`
-- is one with the value of a `float32`, which is how an encoder gets it.
pub record FloatBits (ex : Externals) : Type 0 where
  pub is_float32 : ex.Float → Bool
  pub bits64_of : ex.Float → ℕ
  pub of_bits64 : ℕ → ex.Float
  pub bits32_of : ex.Float → ℕ
  pub of_bits32 : ℕ → ex.Float

module _ (ex : Externals) where
  -- What the interface of a field holds. A marshaler comes with the error that it returns, a
  -- `fmt.Stringer` with its string.
  pub data Interface : Type 0 where
    nothing : Interface
    array_marshaler : Values ex → Option (List ℕ) → Interface
    object_marshaler : Members ex → Option (List ℕ) → Interface
    byte_slice : List ℕ → Interface
    complex128 : ex.Float → ex.Float → Interface
    complex64 : ex.Float → ex.Float → Interface
    reflected : ex.Reflected → Interface
    stringer : List ℕ → Interface
    failure : Failure → Interface

  pub record Field : Type 0 where
    pub key : List ℕ
    pub type : FieldType
    pub integer : ℤ
    pub string : List ℕ
    pub interface : Interface

  -- The string that is added behind the calls where there was an error.
  abbrev pub note_error : List ℕ → Option (List ℕ) → Members ex
  note_error key none = end
  note_error key (some err) = string_member ex (key ++ bytes "Error") err end

  abbrev pub one : List ℕ → Value ex → Members ex
  one key v = member key v end

  -- The assertions of `AddTo` on the interface.
  unfoldable pub add_interface :
      (ex.Reflected → Option (List ℕ)) → List ℕ → FieldType → Interface → Option (Members ex)
  add_interface reflect_error key array_marshaler_type (array_marshaler vs err) =
      some (member key (array_value vs) (note_error key err))
  add_interface reflect_error key object_marshaler_type (object_marshaler ms err) =
      some (member key (object_value ms) (note_error key err))
  add_interface reflect_error key binary_type (byte_slice s) = some (binary_member key s end)
  add_interface reflect_error key byte_string_type (byte_slice s) =
      some (one key (primitive (byte_string_value s)))
  add_interface reflect_error key complex128_type (complex128 r i) =
      some (one key (primitive (complex_value r i 128)))
  add_interface reflect_error key complex64_type (complex64 r i) =
      some (one key (primitive (complex_value r i 64)))
  add_interface reflect_error key stringer_type (stringer s) =
      some (one key (primitive (string_value s)))
  add_interface reflect_error key error_type (failure err) = some (encode_error ex key err)
  add_interface reflect_error key type i = none

  module _ (fb : FloatBits ex) (reflect_error : ex.Reflected → Option (List ℕ)) where
    -- `AddTo`, as the calls on the encoder.
    unfoldable pub add_to : Field → Option (Members ex)
    add_to f = elim f.type [
      | bool_type ↦ some (one f.key (primitive (bool_value (eq_ℤ f.integer (pos 1)))))
      | duration_type ↦ some (one f.key (duration_value f.integer))
      | float64_type ↦ some (one f.key (primitive (float_value (fb.of_bits64 (word f.integer)) 64)))
      | float32_type ↦
          some (one f.key (primitive (float_value (fb.of_bits32 (word f.integer % 2 ^ 32)) 32)))
      | int64_type ↦ some (one f.key (primitive (int_value bits64 f.integer)))
      | int32_type ↦ some (one f.key (primitive (int_value bits32 (int32 f.integer))))
      | int16_type ↦ some (one f.key (primitive (int_value bits16 (int16 f.integer))))
      | int8_type ↦ some (one f.key (primitive (int_value bits8 (int8 f.integer))))
      | string_type ↦ some (one f.key (primitive (string_value f.string)))
      | time_type ↦ some (one f.key (time_value f.integer))
      | uint64_type ↦ some (one f.key (primitive (uint_value bits64 (word f.integer))))
      | uint32_type ↦ some (one f.key (primitive (uint_value bits32 (word f.integer % 2 ^ 32))))
      | uint16_type ↦ some (one f.key (primitive (uint_value bits16 (word f.integer % 2 ^ 16))))
      | uint8_type ↦ some (one f.key (primitive (uint_value bits8 (word f.integer % 2 ^ 8))))
      | uintptr_type ↦ some (one f.key (primitive (uint_value pointer (word f.integer))))
      | reflect_type ↦ elim f.interface [
        | reflected r ↦ some (reflected_member f.key r (note_error f.key (reflect_error r)))
        | _ ↦ none
      ]
      | namespace_type ↦ some (namespace f.key end)
      | skip_type ↦ some end
      | unknown_type ↦ none
      | t ↦ add_interface reflect_error f.key t f.interface
    ]

    -- `addFields`: one field after the other, up to one that panics.
    unfoldable pub add_fields : List Field → Option (Members ex)
    add_fields [] = some end
    add_fields (f ∷ fs) = elim (add_to f) [
      | none ↦ none
      | some ms ↦ elim (add_fields fs) [ none ↦ none | some ns ↦ some (append_members ex ms ns) ]
    ]
