-- ===== src/Zapcore/Failure/Tests.antt =====
-- Errors put into an object.
use nanozap.Base.{◌≡◌, refl}
use nanozap.Base.Bytes.{bytes}
use nanozap.Zapcore.Encoder.{
  Externals, nil, cons, member, end, primitive, string_value, array_value, object_value,
}
use nanozap.Zapcore.Failure.{
  Failure, formatted, group, done, nil_then, failure_then, encode_error, err_array,
}

module _ (ex : Externals) where
  -- A group with a nil error in it, and a verbose text.
  abbrev both : Failure
  both =
      group (bytes "a; b")
        (nil_then (failure_then (formatted (bytes "b") (bytes "b at main")) done))

  grouped :
      encode_error ex (bytes "k") both
      ≡ member (bytes "k") (primitive (string_value (bytes "a; b"))) (
          member
            (bytes "kCauses")
            (array_value (
              cons
                (object_value (
                  member (bytes "error") (primitive (string_value (bytes "b"))) (
                    member
                      (bytes "errorVerbose")
                      (primitive (string_value (bytes "b at main")))
                      end)))
                nil))
            end)
  unfolding encode_error err_array
  grouped = refl

  -- A verbose text that is the message is left out.
  same_text :
      encode_error ex (bytes "k") (formatted (bytes "b") (bytes "b"))
      ≡ member (bytes "k") (primitive (string_value (bytes "b"))) end
  unfolding encode_error
  same_text = refl
