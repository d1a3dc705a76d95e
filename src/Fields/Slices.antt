-- ===== src/Fields/Slices.antt =====
-- array.go: the marshalers of slices. A time is appended as its `UnixNano`.
use nanozap.Base.{ℕ, Bool, List, [], ◌∷◌}
use nanozap.Base.Int.{ℤ}
use nanozap.Zapcore.Encoder.{
  Externals, native, bits64, bits32, bits16, bits8, pointer, Value, primitive, bool_value,
  byte_string_value, complex_value, float_value, int_value, string_value, uint_value, time_value,
  duration_value, Values, nil, cons,
}

module _ (ex : Externals) where
  -- A loop that appends each element.
  unfoldable pub each : {A : Type 0} → (A → Value ex) → List A → Values ex
  each f [] = nil
  each f (x ∷ xs) = cons (f x) (each f xs)

  abbrev pub bools : List Bool → Values ex
  bools xs = each (λ x. primitive (bool_value x)) xs

  abbrev pub byte_strings : List (List ℕ) → Values ex
  byte_strings xs = each (λ x. primitive (byte_string_value x)) xs

  abbrev pub complex128s : List (ex.Float × ex.Float) → Values ex
  complex128s xs = each (λ x. primitive (complex_value x.0 x.1 128)) xs

  abbrev pub complex64s : List (ex.Float × ex.Float) → Values ex
  complex64s xs = each (λ x. primitive (complex_value x.0 x.1 64)) xs

  abbrev pub durations : List ℤ → Values ex
  durations xs = each (λ x. duration_value x) xs

  abbrev pub float64s : List ex.Float → Values ex
  float64s xs = each (λ x. primitive (float_value x 64)) xs

  abbrev pub float32s : List ex.Float → Values ex
  float32s xs = each (λ x. primitive (float_value x 32)) xs

  abbrev pub ints : List ℤ → Values ex
  ints xs = each (λ x. primitive (int_value native x)) xs

  abbrev pub int64s : List ℤ → Values ex
  int64s xs = each (λ x. primitive (int_value bits64 x)) xs

  abbrev pub int32s : List ℤ → Values ex
  int32s xs = each (λ x. primitive (int_value bits32 x)) xs

  abbrev pub int16s : List ℤ → Values ex
  int16s xs = each (λ x. primitive (int_value bits16 x)) xs

  abbrev pub int8s : List ℤ → Values ex
  int8s xs = each (λ x. primitive (int_value bits8 x)) xs

  abbrev pub strings : List (List ℕ) → Values ex
  strings xs = each (λ x. primitive (string_value x)) xs

  abbrev pub uints : List ℕ → Values ex
  uints xs = each (λ x. primitive (uint_value native x)) xs

  abbrev pub uint64s : List ℕ → Values ex
  uint64s xs = each (λ x. primitive (uint_value bits64 x)) xs

  abbrev pub uint32s : List ℕ → Values ex
  uint32s xs = each (λ x. primitive (uint_value bits32 x)) xs

  abbrev pub uint16s : List ℕ → Values ex
  uint16s xs = each (λ x. primitive (uint_value bits16 x)) xs

  abbrev pub uint8s : List ℕ → Values ex
  uint8s xs = each (λ x. primitive (uint_value bits8 x)) xs

  abbrev pub uintptrs : List ℕ → Values ex
  uintptrs xs = each (λ x. primitive (uint_value pointer x)) xs

  abbrev pub times : {T : Type 0} → (T → ℤ) → List T → Values ex
  times unix_nano xs = each (λ x. time_value (unix_nano x)) xs
