-- ===== src/Fields/Tests.antt =====
-- Fields run on concrete values.
use nanozap.Base.{
  ◌<◌, ◌^◌, ℕ, ◌==◌, inr, ◌≡◌, refl, Bool, true, false, Option, none, some, List, [], arith,
  if◌then◌else◌,
}
use nanozap.Base.Int.{pos}
use nanozap.Base.Bytes.{bytes}
use nanozap.Zapcore.Encoder.{Externals, Value, primitive, float_value, Members, end, member}
use nanozap.Zapcore.Failure
use nanozap.Zapcore.Failure.{Failures, done, nil_then, failure_then, plain, formatted}
use nanozap.Zapcore.Field.{FloatBits, Field, add_to, add_interface}
use nanozap.Zapcore.Field.Equals.{equals}
use nanozap.Base.Word.{to_i64, word}
use nanozap.Fields
use nanozap.Fields.Carried.{add_to-constructed, constructed, err_array-err_array}

-- The floats 0, 1, 0.1 and the float32 nearest to that, which is another float64.
data Sample : Type 0 where
  naught : Sample
  unity : Sample
  tenth : Sample
  near_tenth : Sample

abbrev spelling : Sample → List ℕ
spelling naught = bytes "0"
spelling unity = bytes "1"
spelling tenth = bytes "0.1"
spelling near_tenth = bytes "0.1"

abbrev wide_bits : Sample → ℕ
wide_bits naught = 0
wide_bits unity = 4607182418800017408
wide_bits tenth = 4591870180066957722
wide_bits near_tenth = 4591870180174331904

abbrev narrow_bits : Sample → ℕ
narrow_bits naught = 0
narrow_bits unity = 1065353216
narrow_bits tenth = 1036831949
narrow_bits near_tenth = 1036831949

abbrev is_narrow : Sample → Bool
is_narrow tenth = false
is_narrow x = true

abbrev library : Externals
library = record {
  Float = Sample;
  is_nan = λ f. false;
  is_inf = λ f. false;
  is_neg_inf = λ f. false;
  format = λ f size. spelling f;
  Reflected = Unit;
  to_json = λ r. some (bytes "null\n");
  json_error = λ r. [];
  base64 = λ v. v;
}

abbrev ieee : FloatBits library
ieee = record {
  is_float32 = is_narrow;
  bits64_of = wide_bits;
  of_bits64 = λ b.
      if b == 4607182418800017408
      then unity
      else if b == 4591870180066957722
      then tenth
      else if b == 4591870180174331904
      then near_tenth
      else naught;
  bits32_of = narrow_bits;
  of_bits32 =
      λ b. if b == 1065353216 then unity else if b == 1036831949 then near_tenth else naught;
}

abbrev fine : library.Reflected → Option (List ℕ)
fine r = none

ieee64_inverse :
    (x : Sample) → (ieee.of_bits64 (ieee.bits64_of x) ≡ x) × (ieee.bits64_of x < 2 ^ 64)
ieee64_inverse naught = (refl, omega arith)
ieee64_inverse unity = (refl, omega arith)
ieee64_inverse tenth = (refl, omega arith)
ieee64_inverse near_tenth = (refl, omega arith)

ieee32_inverse :
    (x : Sample)
    → ieee.is_float32 x ≡ true
    → (ieee.of_bits32 (ieee.bits32_of x) ≡ x) × (ieee.bits32_of x < 2 ^ 32)
ieee32_inverse naught single = (refl, omega arith)
ieee32_inverse unity single = (refl, omega arith)
ieee32_inverse tenth single = ground arith
ieee32_inverse near_tenth single = (refl, omega arith)

abbrev single_tenth : Value library
single_tenth = primitive (float_value near_tenth 32)

add_to-constructed_example :
    add_to library ieee fine (constructed library ieee (bytes "k") single_tenth)
    ≡ some (member (bytes "k") single_tenth end)
add_to-constructed_example =
    add_to-constructed library ieee fine ieee64_inverse ieee32_inverse (bytes "k") single_tenth
      (inr (refl, refl))

-- A field of a float64 that is no float32 holds the nearest one.
narrowed_float :
    add_to library ieee fine (Fields.float32 library ieee (bytes "k") tenth)
    ≡ some (member (bytes "k") single_tenth end)
unfolding add_to to_i64 word
narrowed_float = refl

abbrev causes : Failures
causes =
    failure_then (formatted (bytes "boom") (bytes "boom at x"))
      (nil_then (failure_then (plain (bytes "eof")) done))

same_causes : Fields.err_array library ieee fine causes ≡ some (Failure.err_array library causes)
same_causes = err_array-err_array library ieee fine causes

abbrev panics : Option (Members library)
panics = add_to library ieee fine (record (Fields.skip library) { type = Fields.Field.error_type })

panicking : panics ≡ none
unfolding add_to add_interface
panicking = refl

-- Two fields of one key and value, and a float that differs in its bits.
abbrev compare_fields : Field library → Field library → Option Bool
compare_fields f g = equals (λ i j. false) (λ i j. some true) f g

equal_ints :
    compare_fields (Fields.int library (bytes "k") (pos 3)) (Fields.int library (bytes "k") (pos 3))
    ≡ some true
unfolding equals
equal_ints = refl

unequal_floats :
    compare_fields
      (Fields.float64 library ieee (bytes "k") unity)
      (Fields.float64 library ieee (bytes "k") naught)
    ≡ some false
unfolding equals to_i64
unequal_floats = refl
