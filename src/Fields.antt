-- ===== src/Fields.antt =====
-- field.go and error.go of the root package: the constructors of fields.
pub mod Arrays
pub mod Slices
pub mod Carried
mod Tests
use nanozap.Base.{ℕ, zero, suc, Bool, true, false, Option, none, some, List, [], if◌then◌else◌}
use nanozap.Base.Int.{ℤ, pos}
use nanozap.Base.Word.{to_i64}
use nanozap.Zapcore.Encoder.{Externals, Values, nil, cons, Members, object_value}
use nanozap.Zapcore.Failure.{Failure, Failures, error_key, done, nil_then, failure_then}
use nanozap.Zapcore.Field.{
  FieldType, array_marshaler_type, object_marshaler_type, binary_type, bool_type, byte_string_type,
  complex128_type, complex64_type, duration_type, float64_type, float32_type, int64_type,
  int32_type, int16_type, int8_type, string_type, time_type, uint64_type, uint32_type, uint16_type,
  uint8_type, uintptr_type, reflect_type, namespace_type, stringer_type, error_type, skip_type,
  FloatBits, Interface, nothing, array_marshaler, object_marshaler, byte_slice, reflected, failure,
  Field, add_to,
}
use nanozap.Zapcore.Field

module _ (ex : Externals) where
  -- A literal that sets the key, the type and one more field.
  abbrev bare : List ℕ → FieldType → Field ex
  bare k t = record { key = k; type = t; integer = pos 0; string = []; interface = nothing }

  abbrev with_integer : List ℕ → FieldType → ℤ → Field ex
  with_integer k t i = record (bare k t) { integer = i }

  abbrev with_interface : List ℕ → FieldType → Interface ex → Field ex
  with_interface k t i = record (bare k t) { interface = i }

  abbrev pub skip : Field ex
  skip = bare [] skip_type

  abbrev pub binary : List ℕ → List ℕ → Field ex
  binary key val = with_interface key binary_type (byte_slice val)

  abbrev pub bool : List ℕ → Bool → Field ex
  bool key val = with_integer key bool_type (if val then pos 1 else pos 0)

  abbrev pub byte_string : List ℕ → List ℕ → Field ex
  byte_string key val = with_interface key byte_string_type (byte_slice val)

  abbrev pub complex128 : List ℕ → ex.Float → ex.Float → Field ex
  complex128 key re im = with_interface key complex128_type (Field.complex128 re im)

  abbrev pub complex64 : List ℕ → ex.Float → ex.Float → Field ex
  complex64 key re im = with_interface key complex64_type (Field.complex64 re im)

  abbrev pub int64 : List ℕ → ℤ → Field ex
  int64 key val = with_integer key int64_type val

  abbrev pub int32 : List ℕ → ℤ → Field ex
  int32 key val = with_integer key int32_type val

  abbrev pub int16 : List ℕ → ℤ → Field ex
  int16 key val = with_integer key int16_type val

  abbrev pub int8 : List ℕ → ℤ → Field ex
  int8 key val = with_integer key int8_type val

  -- `int` has 64 bits.
  abbrev pub int : List ℕ → ℤ → Field ex
  int key val = int64 key val

  abbrev pub string : List ℕ → List ℕ → Field ex
  string key val = record (bare key string_type) { string = val }

  abbrev pub uint64 : List ℕ → ℕ → Field ex
  uint64 key val = with_integer key uint64_type (to_i64 val)

  abbrev pub uint32 : List ℕ → ℕ → Field ex
  uint32 key val = with_integer key uint32_type (to_i64 val)

  abbrev pub uint16 : List ℕ → ℕ → Field ex
  uint16 key val = with_integer key uint16_type (to_i64 val)

  abbrev pub uint8 : List ℕ → ℕ → Field ex
  uint8 key val = with_integer key uint8_type (to_i64 val)

  abbrev pub uint : List ℕ → ℕ → Field ex
  uint key val = uint64 key val

  abbrev pub uintptr : List ℕ → ℕ → Field ex
  uintptr key val = with_integer key uintptr_type (to_i64 val)

  abbrev pub reflect : List ℕ → ex.Reflected → Field ex
  reflect key val = with_interface key reflect_type (reflected val)

  abbrev pub namespace : List ℕ → Field ex
  namespace key = bare key namespace_type

  abbrev pub stringer : List ℕ → List ℕ → Field ex
  stringer key val = with_interface key stringer_type (Field.stringer val)

  abbrev pub time : List ℕ → ℤ → Field ex
  time key val = with_integer key time_type val

  abbrev pub duration : List ℕ → ℤ → Field ex
  duration key val = with_integer key duration_type val

  -- A marshaler is its calls and the error it returns.
  abbrev pub object : List ℕ → Members ex → Option (List ℕ) → Field ex
  object key ms err = with_interface key object_marshaler_type (object_marshaler ms err)

  abbrev pub array : List ℕ → Values ex → Option (List ℕ) → Field ex
  array key vs err = with_interface key array_marshaler_type (array_marshaler vs err)

  -- `NamedError`; `none` is a nil error.
  abbrev pub named_error : List ℕ → Option Failure → Field ex
  named_error key none = skip
  named_error key (some err) = with_interface key error_type (failure err)

  abbrev pub error : Option Failure → Field ex
  error err = named_error error_key err

  module _ (fb : FloatBits ex) where
    abbrev pub float64 : List ℕ → ex.Float → Field ex
    float64 key val = with_integer key float64_type (to_i64 (fb.bits64_of val))

    abbrev pub float32 : List ℕ → ex.Float → Field ex
    float32 key val = with_integer key float32_type (to_i64 (fb.bits32_of val))

    module _ (reflect_error : ex.Reflected → Option (List ℕ)) where
      -- `errArray` of the root package, whose elements go through `Error` and `AddTo`. `none` is a
      -- panic of `AddTo`.
      unfoldable pub err_array : Failures → Option (Values ex)
      err_array done = some nil
      err_array (nil_then errs) = err_array errs
      err_array (failure_then err errs) = elim (add_to ex fb reflect_error (error (some err))) [
        | none ↦ none
        | some ms ↦ elim (err_array errs) [
          | none ↦ none
          | some vs ↦ some (cons (object_value ms) vs)
        ]
      ]
