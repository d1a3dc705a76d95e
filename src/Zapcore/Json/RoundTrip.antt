-- ===== src/Zapcore/Json/RoundTrip.antt =====
-- zapcore/json_encoder.go: the line of an entry, and a parser that reads it.
mod Calls
mod Context
mod Tests
use mathlib.Core.Path.{subst⁻¹}
use nanozap.Base.{
  ℕ, zero, suc, ◌+◌, ◌*◌, ◌<◌, ◌≤◌, ◌≡◌, refl, ap, ◌∙◌, Bool, true, some, List, [], ◌∷◌, ◌++◌,
  append_assoc, length, length-append, arith,
}
use nanozap.Base.Int.{ℤ}
use nanozap.Zapcore.Entry.{Entry}
use nanozap.Zapcore.Encoder.{Externals, EncoderConfig, Members, append_members}
use nanozap.Zapcore.Json.{
  JsonEncoder, add_members, new_json_encoder, close_namespaces, encode_entry,
}
use nanozap.Zapcore.Json.Printer.{print_members, opened_members}
use nanozap.Zapcore.Json.Printed.{PrintsSolid, members-at}
use nanozap.Zapcore.Json.Meaning.{PrintsJson, json_members, MembersClosed, entry_members}
use nanozap.Zapcore.Json.Parser.{object, Entries, parse_value, parse_entries, after}
use nanozap.Zapcore.Json.Parser.Stream.{IsLine}
use nanozap.Zapcore.Json.Parsed.Pieces.{spend}
use nanozap.Zapcore.Json.Parsed.Steps.{parse_value-object}
use nanozap.Zapcore.Json.Parsed.{members-read}
use nanozap.Zapcore.Json.Parsed.Lists.{closers}
pub use Calls.{line_ending}
use Calls.{close_namespaces-closers, encoded}

module _ (ex : Externals) (solid : PrintsSolid ex) (cfg : EncoderConfig ex) (spaced : Bool) where
  -- The line of an entry is the printed object of all its members.
  pub encode_entry-printed :
      (dl : ℤ → List ℕ) (ent : Entry) (ctx fields : Members ex)
      → length (cfg.encode_level ent.level) ≤ 1
      → encode_entry ex dl (add_members ex ctx (new_json_encoder ex cfg spaced)) ent fields ≡ (
          let all = entry_members ex cfg dl ent (append_members ex ctx fields) in
          b'{'
          ∷ (print_members ex cfg spaced true all
              ++ closers (opened_members ex cfg spaced all) (b'}' ∷ line_ending cfg)))
  unfolding encode_entry
  encode_entry-printed dl ent ctx fields one =
      let all = entry_members ex cfg dl ent (append_members ex ctx fields) in
      let n = 0 + opened_members ex cfg spaced ctx in
      let closed : JsonEncoder ex → List ℕ =
        λ e. close_namespaces ex e.open_namespaces e.buf ++ b'}' ∷ [] ++ line_ending cfg in
      ap (λ enc. encode_entry ex dl enc ent fields)
        (members-at ex solid cfg spaced ctx true [] 0 refl)
      ∙ ap closed (encoded ex solid cfg spaced dl ent ctx fields n one (omega arith))
      ∙ append_assoc
          (close_namespaces ex (opened_members ex cfg spaced all)
            (b'{' ∷ print_members ex cfg spaced true all))
          (b'}' ∷ []) (line_ending cfg)
      ∙ close_namespaces-closers ex (opened_members ex cfg spaced all)
          (b'{' ∷ print_members ex cfg spaced true all) (b'}' ∷ line_ending cfg)

pub closers-append : (n : ℕ) (t more : List ℕ) → closers n t ++ more ≡ closers n (t ++ more)
unfolding closers
closers-append zero t more = refl
closers-append (suc n) t more = closers-append n (b'}' ∷ t) more

-- Members that the parser reads up to the braces, as an object on a line.
object-IsLine :
    (text : List ℕ) (n : ℕ) (ending : List ℕ) (ms : Entries)
    → ((rest : List ℕ) (f : ℕ)
        → 2 * length text + 1 < f
        → parse_entries f true (text ++ closers n (b'}' ∷ rest)) ≡ some (ms, rest))
    → IsLine (b'{' ∷ (text ++ closers n (b'}' ∷ ending))) (object ms) ending
object-IsLine text n ending ms reads = record {
  behind = text ++ closers n (b'}' ∷ ending);
  eq = refl;
  reads = λ more.
      let tail = closers n (b'}' ∷ ending) in
      let all = text ++ closers n (b'}' ∷ (ending ++ more)) in
      let same : text ++ tail ++ more ≡ all =
        append_assoc text tail more ∙ ap (λ t. text ++ t) (closers-append n (b'}' ∷ ending) more) in
      spend (λ f. parse_value f (b'{' ∷ (text ++ tail ++ more)) ≡ some (object ms, ending ++ more))
        λ f enough.
          ap (λ t. parse_value (suc f) (b'{' ∷ t)) same
          ∙ parse_value-object f all
          ∙ ap (λ o. after o λ ms rest. some (object ms, rest))
              (reads (ending ++ more) f
                (omega (arith, length-append (text ++ tail) more, length-append text tail)));
}

-- The line of an entry, with anything behind it.
pub encode_entry-IsLine :
    (ex : Externals) (cfg : EncoderConfig ex) (spaced : Bool) (decimal_level : ℤ → List ℕ)
    (ent : Entry) (ctx fields : Members ex) (prints : PrintsJson ex)
    → PrintsSolid ex
    → length (cfg.encode_level ent.level) ≤ 1
    → MembersClosed ex prints cfg spaced
        (entry_members ex cfg decimal_level ent (append_members ex ctx fields))
    → IsLine
        (encode_entry ex decimal_level
          (add_members ex ctx (new_json_encoder ex cfg spaced))
          ent
          fields)
        (object (
          json_members ex prints cfg spaced
            (entry_members ex cfg decimal_level ent (append_members ex ctx fields))))
        (line_ending cfg)
encode_entry-IsLine ex cfg spaced decimal_level ent ctx fields prints solid one closed =
    let all = entry_members ex cfg decimal_level ent (append_members ex ctx fields) in
    let j = json_members ex prints cfg spaced all in
    subst⁻¹ (λ line. IsLine line (object j) (line_ending cfg))
      (encode_entry-printed ex solid cfg spaced decimal_level ent ctx fields one)
      (object-IsLine (print_members ex cfg spaced true all) (opened_members ex cfg spaced all)
        (line_ending cfg) j (members-read ex prints cfg spaced all closed true))
