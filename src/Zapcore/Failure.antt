-- ===== src/Zapcore/Failure.antt =====
-- zapcore/error.go: an error as the calls that put it into an object. A Go error is what
-- `encodeError` can see of it: its text, and either the errors it groups, some of which may be nil,
-- or the text of its verbose format. The pool of the elements is left out.
mod Tests
use nanozap.Base.{Bool, not, List, [], ◌∷◌, ◌++◌, if◌then◌else◌}
use Prim.Native.Nat.{ℕ}
use nanozap.Base.Bytes.{bytes, bytes_eq}
use nanozap.Zapcore.Encoder.{
  Externals, Value, primitive, string_value, array_value, object_value, Values, nil, cons, Members,
  end, member,
}

mutual
  pub data Failure : Type 0 where
    plain : List ℕ → Failure
    formatted : List ℕ → List ℕ → Failure
    group : List ℕ → Failures → Failure

  pub data Failures : Type 0 where
    done : Failures
    nil_then : Failures → Failures
    failure_then : Failure → Failures → Failures

-- `err.Error()`
abbrev pub message : Failure → List ℕ
message (plain msg) = msg
message (formatted msg verbose) = msg
message (group msg errs) = msg

abbrev pub error_key : List ℕ
error_key = bytes "error"

module _ (ex : Externals) where
  abbrev pub string_member : List ℕ → List ℕ → Members ex → Members ex
  string_member key s ms = member key (primitive (string_value s)) ms

  -- `encodeError`, and `MarshalLogArray` of `errArray`, whose elements are objects with one error.
  unfoldable mutual
    pub encode_error : List ℕ → Failure → Members ex
    encode_error key (plain msg) = string_member key msg end
    encode_error key (formatted msg verbose) = string_member key msg (
        if not (bytes_eq verbose msg)
        then string_member (key ++ bytes "Verbose") verbose end
        else end)
    encode_error key (group msg errs) =
        string_member key msg (member (key ++ bytes "Causes") (array_value (err_array errs)) end)

    pub err_array : Failures → Values ex
    err_array done = nil
    err_array (nil_then errs) = err_array errs
    err_array (failure_then err errs) =
        cons (object_value (encode_error error_key err)) (err_array errs)
