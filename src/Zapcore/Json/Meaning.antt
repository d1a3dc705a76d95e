-- ===== src/Zapcore/Json/Meaning.antt =====
-- The JSON value that the calls of a marshaler stand for.
use nanozap.Base.{
  ℕ, ◌*◌, ◌^◌, ◌≤◌, ◌<◌, ◌≡◌, Bool, true, false, Option, none, some, List, [], ◌∷◌, ◌++◌, ◌==◌,
  length, if◌then◌else◌,
}
use nanozap.Base.Int.{ℤ, pos_part, neg_part}
use nanozap.Base.Bytes.{bytes}
use nanozap.Buffer.{decimal, signed_decimal, trim_newline}
use nanozap.Zapcore.Level
use nanozap.Zapcore.Entry.{Entry}
use nanozap.Zapcore.Encoder.{
  bits64, Externals, Primitive, bool_value, byte_string_value, complex_value, float_value,
  int_value, string_value, uint_value, EncoderConfig, Value, primitive, time_value, duration_value,
  array_value, object_value, Values, nil, cons, cons_reflected, Members, end, member, binary_member,
  reflected_member, namespace,
}
use nanozap.Zapcore.Json.Quoted.Scrub.{scrub}
use nanozap.Zapcore.Json.Printer.{or_number, opened_members}
use nanozap.Zapcore.Json.Parser.{
  Json, string, literal, array, object, Elements, no_elements, element, Entries, no_entries, entry,
  is_space, is_number, parse_value,
}
use nanozap.Zapcore.Json.Parser.Literals.{ends_literal}

-- With enough fuel, the parser reads the value off the front of any text that a literal may end
-- before.
abbrev pub Reads : List ℕ → Json → Type 0
Reads t j =
    (rest : List ℕ) (f : ℕ)
    → ends_literal rest ≡ true
    → 2 * length t < f
    → parse_value f (t ++ rest) ≡ some (j, rest)

-- The text of a value, as opposed to spaces or the end of an array.
pub record Begins (t : List ℕ) : Type 0 where
  pub first : ℕ
  pub behind : List ℕ
  pub eq : t ≡ first ∷ behind
  pub no_space : is_space first ≡ false
  pub no_end : first == b']' ≡ false

-- Bytes that stand for themselves within quotes.
abbrev pub IsPlain : List ℕ → Type 0
IsPlain [] = Unit
IsPlain (c ∷ t) = (32 ≤ c) × (c == b'"' ≡ false) × (c == 92 ≡ false) × IsPlain t

-- What is used of Go's library: a finite float is printed as a number, and no float is printed with
-- a quote, a backslash or a control character; and `json.Encoder` prints a JSON text.
pub record PrintsJson (ex : Externals) : Type 0 where
  pub format_number :
      (x : ex.Float) (size : ℕ)
      → ex.is_nan x ≡ false
      → ex.is_inf x ≡ false
      → ex.is_neg_inf x ≡ false
      → is_number (ex.format x size) ≡ true
  pub format_plain : (x : ex.Float) (size : ℕ) → IsPlain (ex.format x size)
  pub reflected : ex.Reflected → Json
  pub json_reads :
      (r : ex.Reflected) (s : List ℕ)
      → ex.to_json r ≡ some s
      → Reads (trim_newline s) (reflected r) × Begins (trim_newline s)

module _ (ex : Externals) (prints : PrintsJson ex) (cfg : EncoderConfig ex) (spaced : Bool) where
  unfoldable pub json_primitive : Primitive ex → Json
  json_primitive (bool_value b) = literal (if b then bytes "true" else bytes "false")
  json_primitive (byte_string_value s) = string (scrub s)
  json_primitive (complex_value r i size) =
      string (ex.format r 64 ++ b'+' ∷ ex.format i 64 ++ b'i' ∷ [])
  json_primitive (float_value x size) =
      if ex.is_nan x
      then string (bytes "NaN")
      else if ex.is_inf x
      then string (bytes "+Inf")
      else if ex.is_neg_inf x
      then string (bytes "-Inf")
      else literal (ex.format x size)
  json_primitive (int_value w k) = literal (signed_decimal k)
  json_primitive (string_value s) = string (scrub s)
  json_primitive (uint_value w n) = literal (decimal n)

  -- The one value that a user's encoder appends.
  abbrev pub json_calls : List (Primitive ex) → Json
  json_calls [] = literal (bytes "null")
  json_calls (p ∷ ps) = json_primitive p

  abbrev pub add_element : Option (List ℕ) → Json → Elements → Elements
  add_element none j es = es
  add_element (some s) j es = element j es

  abbrev pub add_entry : Option (List ℕ) → List ℕ → Json → Entries → Entries
  add_entry none k j ms = ms
  add_entry (some s) k j ms = entry k j ms

  -- What follows a namespace is in it.
  unfoldable mutual
    pub json_value : Value ex → Json
    json_value (primitive p) = json_primitive p
    json_value (time_value t) = json_calls (or_number ex cfg spaced t (cfg.encode_time t))
    json_value (duration_value d) = json_calls (or_number ex cfg spaced d (cfg.encode_duration d))
    json_value (array_value vs) = array (json_values vs)
    json_value (object_value ms) = object (json_members ms)

    pub json_values : Values ex → Elements
    json_values nil = no_elements
    json_values (cons v vs) = element (json_value v) (json_values vs)
    json_values (cons_reflected r vs) =
        add_element (ex.to_json r) (prints.reflected r) (json_values vs)

    pub json_members : Members ex → Entries
    json_members end = no_entries
    json_members (member k v ms) = entry (scrub k) (json_value v) (json_members ms)
    json_members (binary_member k s ms) =
        entry (scrub k) (string (scrub (ex.base64 s))) (json_members ms)
    json_members (reflected_member k r ms) =
        add_entry (ex.to_json r) (scrub k) (prints.reflected r) (json_members ms)
    json_members (namespace k ms) = entry (scrub k) (object (json_members ms)) no_entries

  -- Integers of 64 bits, and user's encoders that append one value, or none.
  abbrev pub InRange : Primitive ex → Type 0
  InRange (int_value w k) = (pos_part k < 2 ^ 63) × (neg_part k ≤ 2 ^ 63)
  InRange (uint_value w n) = n < 2 ^ 64
  InRange p = Unit

  abbrev pub IsSingle : List (Primitive ex) → Type 0
  IsSingle [] = ⊥
  IsSingle (p ∷ []) = InRange p
  IsSingle (p ∷ q ∷ ps) = ⊥

  -- The calls whose text is JSON: no object leaves a namespace open, as `AppendObject` does not
  -- close it.
  unfoldable mutual
    pub IsClosed : Value ex → Type 0
    IsClosed (primitive p) = InRange p
    IsClosed (time_value t) = IsSingle (or_number ex cfg spaced t (cfg.encode_time t))
    IsClosed (duration_value d) = IsSingle (or_number ex cfg spaced d (cfg.encode_duration d))
    IsClosed (array_value vs) = AllClosed vs
    IsClosed (object_value ms) = (opened_members ex cfg spaced ms ≡ 0) × MembersClosed ms

    pub AllClosed : Values ex → Type 0
    AllClosed nil = Unit
    AllClosed (cons v vs) = IsClosed v × AllClosed vs
    AllClosed (cons_reflected r vs) = AllClosed vs

    pub MembersClosed : Members ex → Type 0
    MembersClosed end = Unit
    MembersClosed (member k v ms) = IsClosed v × MembersClosed ms
    MembersClosed (binary_member k s ms) = MembersClosed ms
    MembersClosed (reflected_member k r ms) = MembersClosed ms
    MembersClosed (namespace k ms) = MembersClosed ms

module _ (ex : Externals) (cfg : EncoderConfig ex) where
  -- The one call of a user's level encoder, or the string of the level where it makes none.
  abbrev pub or_string : List ℕ → List (Primitive ex) → Primitive ex
  or_string s [] = string_value s
  or_string s (p ∷ ps) = p

  -- A member where its key is set.
  abbrev pub when_key : List ℕ → Value ex → Members ex → Members ex
  when_key key v ms = if length key == 0 then ms else member key v ms

  -- What is in the line of an entry before the encoder's context and the fields.
  abbrev pub entry_members : (ℤ → List ℕ) → Entry → Members ex → Members ex
  entry_members decimal_level ent ms =
      when_key cfg.level_key
        (primitive (or_string (Level.string decimal_level ent.level) (cfg.encode_level ent.level)))
        (when_key cfg.time_key (time_value ent.time) (
          when_key cfg.message_key (primitive (string_value ent.message))
            (when_key cfg.req_id_key (primitive (uint_value bits64 ent.req_id)) ms)))
