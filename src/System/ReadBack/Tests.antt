-- ===== src/System/ReadBack/Tests.antt =====
-- Three messages, of which one is below the level of the core.
use nanozap.Base.{ℕ, true, List, [], ◌∷◌, ◌≡◌, refl, arith}
use nanozap.Base.Bytes.{bytes}
use nanozap.Base.Int.{ℤ, pos, leb_ℤ}
use nanozap.Zapcore.Core.{IoCore}
use nanozap.Zapcore.Encoder.{
  EncoderConfig, Members, end, member, primitive, bool_value, append_members,
}
use nanozap.Zapcore.Encoder.Sample.{library}
use nanozap.Zapcore.Level.{debug_level, info_level, warn_level, error_level}
use nanozap.Zapcore.Json.{JsonEncoder, add_members, new_json_encoder}
use nanozap.Zapcore.Json.Parser.{
  string, literal, object, entry, no_entries, reads_number, next_numeral,
}
use nanozap.Zapcore.Json.Meaning.{PrintsJson, json_members, json_primitive}
use nanozap.Zapcore.Json.Quoted.Scrub.{scrub_loop}
use nanozap.Zapcore.Utf8.{decode_rune}
use nanozap.Buffer
use nanozap.Buffer.{decimal, signed_decimal}
use nanozap.RandRing.{fresh, reload}
use nanozap.Logger.{LogBody, Logger}
use nanozap.System.ReadBack.{objects}

abbrev config : EncoderConfig library
config = record {
  message_key = bytes "msg";
  level_key = [];
  time_key = bytes "ts";
  req_id_key = bytes "id";
  line_ending = [];
  encode_level = λ l. [];
  encode_time = λ t. [];
  encode_duration = λ d. [];
}

abbrev service : Members library
service = member (bytes "on") (primitive (bool_value true)) end

abbrev core : IoCore (JsonEncoder library)
core = record {
  enabler = λ l. leb_ℤ info_level l;
  enc = add_members library service (new_json_encoder library config true);
}

abbrev messages : List LogBody
messages =
    record { lvl = warn_level; msg = bytes "up"; reqid = 1 }
    ∷ record { lvl = debug_level; msg = bytes "x"; reqid = 2 }
    ∷ record { lvl = error_level; msg = 10 ∷ []; reqid = 3 }
    ∷ []

abbrev clock : List ℤ
clock = pos 7 ∷ pos 8 ∷ pos 9 ∷ []

library-PrintsJson : PrintsJson library
unfolding reads_number next_numeral
library-PrintsJson = record {
  format_number = λ x size not_nan not_inf not_neg_inf. refl;
  format_plain =
      λ x size. (omega arith, refl, refl, (omega arith, refl, refl, (omega arith, refl, refl, tt)));
  reflected = λ r. literal [];
  json_reads = λ r s e. cc;
}

abbrev digits : ℤ → List ℕ
digits l = bytes "9"

abbrev log : Logger (JsonEncoder library)
log = record { core = core; ring = reload (fresh 2) }

objects_read :
    objects library library-PrintsJson config true digits service core clock messages
    ≡ object (
        entry (bytes "ts") (literal (bytes "7")) (
          entry (bytes "msg") (string (bytes "up")) (
            entry
              (bytes "id")
              (literal (bytes "1"))
              (entry (bytes "on") (literal (bytes "true")) no_entries))))
      ∷ object (
          entry (bytes "ts") (literal (bytes "9")) (
            entry (bytes "msg") (string (10 ∷ [])) (
              entry
                (bytes "id")
                (literal (bytes "3"))
                (entry (bytes "on") (literal (bytes "true")) no_entries))))
      ∷ []
unfolding objects json_members append_members json_primitive scrub_loop decode_rune signed_decimal
    decimal Buffer.digits
objects_read = refl
