-- ===== src/Zapcore/Json/Tests.antt =====
-- Strings with control characters, quotes and broken UTF-8.
use nanozap.Base.{true, false, ℕ, ◌∷◌, ◌++◌, ◌≡◌, refl, some, List, []}
use nanozap.Base.Bytes.{bytes}
use nanozap.Base.Int.{ℤ, pos}
use nanozap.Buffer
use nanozap.Buffer.{decimal}
use nanozap.Zapcore.Level.{string}
use nanozap.Zapcore.Entry.{Entry}
use nanozap.Zapcore.Encoder.{Externals, Members, member, primitive, bool_value, end}
use nanozap.Zapcore.Json.{
  JsonEncoder, encode_entry, add_entry_members, add_members, append_value, append_with,
  append_primitives, append_primitive, primitive_bytes, add_key, add_element_separator,
  close_namespaces,
}
use nanozap.Buffer.{trim_newline}
use nanozap.Zapcore.Encoder.{object_value, namespace, reflected_member}
use nanozap.Zapcore.Json.Printer.{print_members}
use nanozap.Zapcore.Json.Framed.{encode_entry-framed}
use nanozap.Zapcore.Utf8.{decode_rune}
use nanozap.Zapcore.Json.Escape.{quote, safe_add_string, safe_add_loop, add_rune, self_text}
use nanozap.Zapcore.Json.Reader.{plain, read_string}
use nanozap.Zapcore.Json.Quoted.{Scrubs, safe_add_string-read}

-- A quote, a line feed, an escape character, an `é` and the first byte of another.
abbrev odd : List ℕ
odd = 34 ∷ 10 ∷ 27 ∷ 195 ∷ 169 ∷ 195 ∷ []

odd_escaped : safe_add_string odd [] ≡ bytes "\\\"\\n\\u001b" ++ 195 ∷ 169 ∷ bytes "\\ufffd"
unfolding safe_add_string safe_add_loop add_rune self_text decode_rune
odd_escaped = refl

safe_add_string-read_example :
    (text out : List ℕ) × Scrubs odd text
    × (safe_add_string odd (bytes "k") ≡ bytes "k" ++ out)
    × ((t : List ℕ) → read_string plain (out ++ quote ∷ t) ≡ some (text, t))
safe_add_string-read_example = safe_add_string-read odd (bytes "k")

abbrev library : Externals
library = record {
  Float = Unit;
  is_nan = λ f. false;
  is_inf = λ f. false;
  is_neg_inf = λ f. false;
  format = λ f size. bytes "1.5";
  Reflected = Unit;
  to_json = λ r. some (bytes "null\n");
  json_error = λ r. [];
  base64 = λ v. v;
}

abbrev context : JsonEncoder library
context = record {
  config = record {
    message_key = bytes "msg";
    level_key = bytes "level";
    time_key = [];
    req_id_key = bytes "id";
    line_ending = [];
    encode_level = λ l. [];
    encode_time = λ t. [];
    encode_duration = λ d. [];
  };
  buf = bytes "\"a\":1";
  spaced = false;
  open_namespaces = 0;
}

abbrev started : Entry
started = record { level = pos 0; time = pos 5; message = bytes "up"; req_id = 7 }

abbrev extra : Members library
extra = member (bytes "b") (primitive (bool_value true)) end

abbrev digits : ℤ → List ℕ
digits l = 63 ∷ []

framed_line :
    (before after : List ℕ) × (encode_entry library digits context started extra
      ≡ ((((b'{' ∷ before) ++ bytes "\"a\":1") ++ after) ++ b'}' ∷ []) ++ 10 ∷ [])
framed_line = encode_entry-framed library digits context started extra

started_line :
    encode_entry library digits context started extra
    ≡ bytes "{\"level\":\"info\",\"msg\":\"up\",\"id\":7,\"a\":1,\"b\":true}" ++ 10 ∷ []
unfolding encode_entry add_entry_members add_members append_value append_with append_primitives
    append_primitive primitive_bytes add_key add_element_separator close_namespaces string decimal
    Buffer.digits safe_add_string safe_add_loop add_rune self_text
started_line = refl

-- A namespace that an object opens is closed behind the object's own brace.
abbrev nested : Members library
nested =
    member (bytes "o")
      (object_value (namespace (bytes "n") (member (bytes "x") (primitive (bool_value true)) end)))
      (reflected_member (bytes "r") tt end)

nested_text :
    print_members library context.config false false nested
    ≡ bytes ",\"o\":{\"n\":{\"x\":true},\"r\":null"
unfolding print_members safe_add_string safe_add_loop add_rune self_text primitive_bytes
    trim_newline
nested_text = refl
