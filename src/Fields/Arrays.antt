-- ===== src/Fields/Arrays.antt =====
-- array.go and error.go of the root package: the constructors of the fields that carry slices.
use nanozap.Base.{ℕ, Bool, Option, none, some, List}
use nanozap.Base.Int.{ℤ}
use nanozap.Zapcore.Encoder.{Externals}
use nanozap.Zapcore.Failure.{Failures}
use nanozap.Zapcore.Field.{FloatBits, Field}
use nanozap.Fields.{array, err_array}
use nanozap.Fields.Slices

module _ (ex : Externals) where
  abbrev pub bools : List ℕ → List Bool → Field ex
  bools key xs = array ex key (Slices.bools ex xs) none

  abbrev pub byte_strings : List ℕ → List (List ℕ) → Field ex
  byte_strings key xs = array ex key (Slices.byte_strings ex xs) none

  abbrev pub complex128s : List ℕ → List (ex.Float × ex.Float) → Field ex
  complex128s key xs = array ex key (Slices.complex128s ex xs) none

  abbrev pub complex64s : List ℕ → List (ex.Float × ex.Float) → Field ex
  complex64s key xs = array ex key (Slices.complex64s ex xs) none

  abbrev pub durations : List ℕ → List ℤ → Field ex
  durations key xs = array ex key (Slices.durations ex xs) none

  abbrev pub float64s : List ℕ → List ex.Float → Field ex
  float64s key xs = array ex key (Slices.float64s ex xs) none

  abbrev pub float32s : List ℕ → List ex.Float → Field ex
  float32s key xs = array ex key (Slices.float32s ex xs) none

  abbrev pub ints : List ℕ → List ℤ → Field ex
  ints key xs = array ex key (Slices.ints ex xs) none

  abbrev pub int64s : List ℕ → List ℤ → Field ex
  int64s key xs = array ex key (Slices.int64s ex xs) none

  abbrev pub int32s : List ℕ → List ℤ → Field ex
  int32s key xs = array ex key (Slices.int32s ex xs) none

  abbrev pub int16s : List ℕ → List ℤ → Field ex
  int16s key xs = array ex key (Slices.int16s ex xs) none

  abbrev pub int8s : List ℕ → List ℤ → Field ex
  int8s key xs = array ex key (Slices.int8s ex xs) none

  abbrev pub strings : List ℕ → List (List ℕ) → Field ex
  strings key xs = array ex key (Slices.strings ex xs) none

  abbrev pub uints : List ℕ → List ℕ → Field ex
  uints key xs = array ex key (Slices.uints ex xs) none

  abbrev pub uint64s : List ℕ → List ℕ → Field ex
  uint64s key xs = array ex key (Slices.uint64s ex xs) none

  abbrev pub uint32s : List ℕ → List ℕ → Field ex
  uint32s key xs = array ex key (Slices.uint32s ex xs) none

  abbrev pub uint16s : List ℕ → List ℕ → Field ex
  uint16s key xs = array ex key (Slices.uint16s ex xs) none

  abbrev pub uint8s : List ℕ → List ℕ → Field ex
  uint8s key xs = array ex key (Slices.uint8s ex xs) none

  abbrev pub uintptrs : List ℕ → List ℕ → Field ex
  uintptrs key xs = array ex key (Slices.uintptrs ex xs) none

  abbrev pub times : {T : Type 0} → (T → ℤ) → List ℕ → List T → Field ex
  times unix_nano key xs = array ex key (Slices.times ex unix_nano xs) none

  module _ (fb : FloatBits ex) (reflect_error : ex.Reflected → Option (List ℕ)) where
    -- `Errors`. `none` is a panic of the marshaler.
    abbrev pub errors : List ℕ → Failures → Option (Field ex)
    errors key errs = elim (err_array ex fb reflect_error errs) [
      | none ↦ none
      | some vs ↦ some (array ex key vs none)
    ]
