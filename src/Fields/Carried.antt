-- ===== src/Fields/Carried.antt =====
-- field.go and zapcore/field.go: a constructor of a field, and `AddTo` on what it makes.
use nanozap.Base.{
  ℕ, ◌%◌, ◌^◌, ◌<◌, ◌≤◌, ◌≡◌, refl, ap, arith, true, false, Option, none, some, List, ◌⊎◌, inl, inr,
  ◌==◌, ◌-◌, if◌then◌else◌,
}
use nanozap.Base.Int.{pos_part, neg_part}
use nanozap.Base.Word.{word-to_i64}
use nanozap.Base.Ints.{int8-fits, int16-fits, int32-fits}
use nanozap.Zapcore.Encoder.{
  Externals, Width, native, bits64, bits32, bits16, bits8, pointer, Value, primitive, bool_value,
  byte_string_value, complex_value, float_value, int_value, string_value, uint_value, time_value,
  duration_value, array_value, object_value, end, member,
}
use nanozap.Zapcore.Failure
use nanozap.Zapcore.Failure.{Failures, done, nil_then, failure_then}
use nanozap.Zapcore.Field.{FloatBits, Field, add_to, add_interface}
use nanozap.Fields

-- The range of an integer's type. An `int` and a pointer have 64 bits.
abbrev pub size : Width → ℕ
size native = 64
size bits64 = 64
size bits32 = 32
size bits16 = 16
size bits8 = 8
size pointer = 64

module _ (ex : Externals) where
  -- An `int` is added as an `int64`, since there is no type of field for it.
  abbrev pub as_added : Value ex → Value ex
  as_added (primitive (int_value native x)) = primitive (int_value bits64 x)
  as_added (primitive (uint_value native n)) = primitive (uint_value bits64 n)
  as_added v = v

  module _ (fb : FloatBits ex) where
    -- The values of Go's types: numbers in the range of their type, floats and complex numbers of
    -- the two sizes there are, a `float32` with a value of that type. There is no signed `uintptr`.
    abbrev pub IsTyped : Value ex → Type 0
    IsTyped (primitive (int_value pointer x)) = ⊥
    IsTyped (primitive (int_value w x)) =
        (pos_part x < 2 ^ (size w - 1)) × (neg_part x ≤ 2 ^ (size w - 1))
    IsTyped (primitive (uint_value w n)) = n < 2 ^ size w
    IsTyped (primitive (float_value x n)) = (n ≡ 64) ⊎ ((n ≡ 32) × (fb.is_float32 x ≡ true))
    IsTyped (primitive (complex_value r i n)) = (n ≡ 128) ⊎ (n ≡ 64)
    IsTyped v = Unit

    -- The constructor for a value of each of Go's types.
    unfoldable pub constructed : List ℕ → Value ex → Field ex
    constructed key (primitive (bool_value b)) = Fields.bool ex key b
    constructed key (primitive (byte_string_value s)) = Fields.byte_string ex key s
    constructed key (primitive (string_value s)) = Fields.string ex key s
    constructed key (primitive (complex_value r i n)) =
        if n == 128 then Fields.complex128 ex key r i else Fields.complex64 ex key r i
    constructed key (primitive (float_value x n)) =
        if n == 64 then Fields.float64 ex fb key x else Fields.float32 ex fb key x
    constructed key (primitive (int_value native x)) = Fields.int ex key x
    constructed key (primitive (int_value bits64 x)) = Fields.int64 ex key x
    constructed key (primitive (int_value bits32 x)) = Fields.int32 ex key x
    constructed key (primitive (int_value bits16 x)) = Fields.int16 ex key x
    constructed key (primitive (int_value bits8 x)) = Fields.int8 ex key x
    constructed key (primitive (int_value pointer x)) = Fields.skip ex
    constructed key (primitive (uint_value native n)) = Fields.uint ex key n
    constructed key (primitive (uint_value bits64 n)) = Fields.uint64 ex key n
    constructed key (primitive (uint_value bits32 n)) = Fields.uint32 ex key n
    constructed key (primitive (uint_value bits16 n)) = Fields.uint16 ex key n
    constructed key (primitive (uint_value bits8 n)) = Fields.uint8 ex key n
    constructed key (primitive (uint_value pointer n)) = Fields.uintptr ex key n
    constructed key (time_value t) = Fields.time ex key t
    constructed key (duration_value d) = Fields.duration ex key d
    constructed key (array_value vs) = Fields.array ex key vs none
    constructed key (object_value ms) = Fields.object ex key ms none

    module _ (reflect_error : ex.Reflected → Option (List ℕ))
        (of_bits64 : (x : ex.Float)
          → (fb.of_bits64 (fb.bits64_of x) ≡ x) × (fb.bits64_of x < 2 ^ 64))
        (of_bits32 : (x : ex.Float)
          → fb.is_float32 x ≡ true
          → (fb.of_bits32 (fb.bits32_of x) ≡ x) × (fb.bits32_of x < 2 ^ 32))
        (key : List ℕ) where
      abbrev Carries : Value ex → Type 0
      Carries v =
          add_to ex fb reflect_error (constructed key v) ≡ some (member key (as_added v) end)

      add_to-unsigned : (w : Width) (n : ℕ) → n < 2 ^ size w → Carries (primitive (uint_value w n))
      unfolding add_to constructed
      add_to-unsigned native n h = rw (word-to_i64 n h) refl
      add_to-unsigned bits64 n h = rw (word-to_i64 n h) refl
      add_to-unsigned bits32 n h =
          rw (word-to_i64 n (omega arith))
            (ap (λ x. some (member key (primitive (uint_value bits32 x)) end)) (omega arith))
      add_to-unsigned bits16 n h =
          rw (word-to_i64 n (omega arith))
            (ap (λ x. some (member key (primitive (uint_value bits16 x)) end)) (omega arith))
      add_to-unsigned bits8 n h =
          rw (word-to_i64 n (omega arith))
            (ap (λ x. some (member key (primitive (uint_value bits8 x)) end)) (omega arith))
      add_to-unsigned pointer n h = rw (word-to_i64 n h) refl

      -- The field that a constructor makes of a value of a Go type adds just that value under its
      -- key, with no error and no panic: integers of every width and sign survive the passage
      -- through an `int64`, and floats that through their bits, where the conversion of a `float64`
      -- to its bits and back is inverse, and that of a `float64` with the value of a `float32` to
      -- the 32 bits of that and back. An `int` is added as an `int64`.
      pub add_to-constructed : (v : Value ex) → IsTyped v → Carries v
      unfolding add_to constructed add_interface
      add_to-constructed (primitive (bool_value true)) h = refl
      add_to-constructed (primitive (bool_value false)) h = refl
      add_to-constructed (primitive (byte_string_value s)) h = refl
      add_to-constructed (primitive (string_value s)) h = refl
      add_to-constructed (primitive (complex_value r i n)) (inl e) = rw (e) refl
      add_to-constructed (primitive (complex_value r i n)) (inr e) = rw (e) refl
      add_to-constructed (primitive (float_value x n)) (inl e) =
          let (back, small) = of_bits64 x in rw (e, word-to_i64 (fb.bits64_of x) small, back) refl
      add_to-constructed (primitive (float_value x n)) (inr (e, single)) =
          let (back, small) = of_bits32 x single in
          let low : fb.bits32_of x % 2 ^ 32 ≡ fb.bits32_of x = omega arith in
          rw (e, word-to_i64 (fb.bits32_of x) (omega arith), low, back) refl
      add_to-constructed (primitive (int_value native x)) h = refl
      add_to-constructed (primitive (int_value bits64 x)) h = refl
      add_to-constructed (primitive (int_value bits32 x)) (h, h') = rw (int32-fits x h h') refl
      add_to-constructed (primitive (int_value bits16 x)) (h, h') = rw (int16-fits x h h') refl
      add_to-constructed (primitive (int_value bits8 x)) (h, h') = rw (int8-fits x h h') refl
      add_to-constructed (primitive (int_value pointer x)) h = elim h [ ]
      add_to-constructed (primitive (uint_value w n)) h = add_to-unsigned w n h
      add_to-constructed (time_value t) h = refl
      add_to-constructed (duration_value d) h = refl
      add_to-constructed (array_value vs) h = refl
      add_to-constructed (object_value ms) h = refl

  module _ (fb : FloatBits ex) (reflect_error : ex.Reflected → Option (List ℕ)) where
    -- The two types `errArray`, of `Errors` and of `encodeError`, make the same calls: `AddTo` on
    -- an error's field is `encodeError`, never panics, and a nil error adds nothing.
    pub err_array-err_array :
        (errs : Failures)
        → Fields.err_array ex fb reflect_error errs ≡ some (Failure.err_array ex errs)
    unfolding Fields.err_array Failure.err_array add_to add_interface
    err_array-err_array done = refl
    err_array-err_array (nil_then errs) = err_array-err_array errs
    err_array-err_array (failure_then err errs) = rw (err_array-err_array errs) refl
