-- ===== src/Zapcore/Json/RoundTrip/Tests.antt =====
-- The line of an entry with an open namespace, nested values and broken UTF-8.
use mathlib.Core.Path.{subst⁻¹}
use nanozap.Zapcore.Utf8.{decode_rune}
use nanozap.Zapcore.Json.Quoted.Scrub.{scrub_loop}
use nanozap.Base.{
  ◌++◌, ℕ, Bool, true, false, Option, none, some, List, [], ◌∷◌, ◌≡◌, refl, ap, sym, arith,
  if◌then◌else◌,
}
use nanozap.Base.Bytes.{bytes}
use nanozap.Base.Int.{pos, negsuc}
use nanozap.Buffer.{trim_newline, signed_decimal, decimal, digits}
use nanozap.Zapcore.Entry.{Entry}
use nanozap.Zapcore.Encoder.{
  Externals, EncoderConfig, Members, end, member, reflected_member, namespace, append_members,
  primitive, bool_value, float_value, string_value, int_value, native, time_value, array_value,
  object_value, nil, cons, cons_reflected,
}
use nanozap.Zapcore.Json.{add_members, new_json_encoder, encode_entry}
use nanozap.Zapcore.Json.Printed.{PrintsSolid}
use nanozap.Zapcore.Json.Parser.{
  string, literal, array, object, element, no_elements, entry, no_entries, reads_number,
  next_numeral, is_literal,
}
use nanozap.Zapcore.Json.Meaning.{PrintsJson, json_members, json_primitive, entry_members}
use nanozap.Zapcore.Json.Parsed.Pieces.{literal-IsText, IsText}
use nanozap.Zapcore.Json.RoundTrip.{line_ending}
use nanozap.Zapcore.Json.OneLine.{PrintsLines, one_line, encode_entry-one_line}

-- `true` stands for a value that is printed as `null`, `false` for one that cannot be printed.
abbrev library : Externals
library = record {
  Float = Unit;
  is_nan = λ f. false;
  is_inf = λ f. false;
  is_neg_inf = λ f. false;
  format = λ f size. bytes "1.5";
  Reflected = Bool;
  to_json = λ r. if r then some (bytes "null\n") else none;
  json_error = λ r. bytes "unsupported";
  base64 = λ v. v;
}

abbrev config : EncoderConfig library
config = record {
  message_key = bytes "msg";
  level_key = bytes "level";
  time_key = bytes "ts";
  req_id_key = [];
  line_ending = [];
  encode_level = λ l. int_value native l ∷ [];
  encode_time = λ t. [];
  encode_duration = λ d. [];
}

abbrev printed : Bool → Option (List ℕ)
printed r = if r then some (bytes "null\n") else none

abbrev trimmed : Option (List ℕ) → List ℕ
trimmed none = []
trimmed (some s) = trim_newline s

null_text : (r : Bool) (s : List ℕ) → printed r ≡ some s → trim_newline s ≡ bytes "null"
unfolding trim_newline
null_text true s e = ap trimmed (sym e)
null_text false s e = cc

null-IsText : IsText (bytes "null") (literal (bytes "null"))
unfolding is_literal
null-IsText = literal-IsText (bytes "null") refl

library-PrintsSolid : PrintsSolid library
library-PrintsSolid = record {
  format_solid = λ x size. record { front = bytes "1."; last = b'5'; eq = refl; closed = refl };
  json_solid =
      λ r s e. record { front = bytes "nul"; last = b'l'; eq = null_text r s e; closed = refl };
}

library-PrintsJson : PrintsJson library
unfolding reads_number next_numeral
library-PrintsJson = record {
  format_number = λ x size not_nan not_inf not_neg_inf. refl;
  format_plain =
      λ x size. (omega arith, refl, refl, (omega arith, refl, refl, (omega arith, refl, refl, tt)));
  reflected = λ r. literal (bytes "null");
  json_reads =
      λ r s e. subst⁻¹ (λ t. IsText t (literal (bytes "null"))) (null_text r s e) null-IsText;
}

abbrev warned : Entry
warned = record { level = pos 1; time = pos 5; message = bytes "a \"b\"" ++ 255 ∷ []; req_id = 7 }

abbrev context : Members library
context = member (bytes "app") (primitive (string_value (bytes "x"))) (namespace (bytes "n") end)

abbrev fields : Members library
fields =
    member (bytes "xs")
      (array_value (
        cons (primitive (float_value tt 64))
          (cons_reflected false (cons_reflected true (cons (time_value (negsuc 1)) nil)))))
      (reflected_member (bytes "no") false (
        member (bytes "o") (object_value (member (bytes "b") (primitive (bool_value true)) end))
          end))

abbrev calls : Members library
calls = entry_members library config (λ l. []) warned (append_members library context fields)

-- The members that were read.
calls_read :
    json_members library library-PrintsJson config true calls
    ≡ entry (bytes "level") (literal (bytes "1")) (
        entry (bytes "ts") (literal (bytes "5")) (
          entry (bytes "msg") (string (bytes "a \"b\"" ++ 239 ∷ 191 ∷ 189 ∷ [])) (
            entry (bytes "app") (string (bytes "x")) (
              entry
                (bytes "n")
                (object (
                  entry
                    (bytes "xs")
                    (array (
                      element (literal (bytes "1.5")) (
                        element
                          (literal (bytes "null"))
                          (element (literal (bytes "-2")) no_elements))))
                    (entry
                      (bytes "o")
                      (object (entry (bytes "b") (literal (bytes "true")) no_entries))
                      no_entries)))
                no_entries))))
unfolding json_members append_members json_primitive scrub_loop decode_rune signed_decimal decimal
    digits library-PrintsJson
calls_read = refl

library-PrintsLines : PrintsLines library
library-PrintsLines = record {
  format_line = λ x size. refl;
  json_line = λ r s e. ap one_line (null_text r s e);
}

-- A message of two lines.
abbrev broken : Entry
broken = record warned { message = bytes "a" ++ 10 ∷ bytes "b" }

encode_entry-one_line_example :
    (text : List ℕ) × (encode_entry library
        (λ l. [])
        (add_members library context (new_json_encoder library config true))
        broken
        fields
      ≡ text ++ line_ending config)
    × (one_line text ≡ true)
encode_entry-one_line_example =
    encode_entry-one_line library config true (λ l. []) broken context fields library-PrintsSolid
      library-PrintsLines (omega arith)
