-- ===== src/Zapcore/Json.antt =====
-- zapcore/json_encoder.go: the JSON encoder, as what it does to its buffer. The calls it takes are
-- those of `Encoder`; what Go's library prints of floats and by reflection is a parameter.
pub mod Escape
pub mod Reader
pub mod Quoted
pub mod Grows
pub mod Framed
pub mod Printer
pub mod Parser
pub mod Meaning
pub mod Parsed
pub mod RoundTrip
pub mod OneLine
pub mod Printed
mod Tests
use nanozap.Base.{
  ℕ, zero, suc, ◌+◌, ◌-◌, ◌/◌, ◌%◌, Bool, true, false, not, ◌&&◌, ◌||◌, Option, none, some, List,
  [], ◌∷◌, ◌++◌, ltb, leb, ◌==◌, if◌then◌else◌, length, take, drop, get_or,
}
use nanozap.Base.Int.{ℤ}
use nanozap.Base.Bytes.{bytes}
use nanozap.Buffer.{
  Buffer, append_byte, append_string, append_bool, append_int, append_uint, len, trim_newline,
}
use nanozap.Zapcore.Level
use nanozap.Zapcore.Level.{Level}
use nanozap.Zapcore.Entry.{Entry}
use nanozap.Zapcore.Encoder.{
  Externals, Primitive, bool_value, byte_string_value, complex_value, float_value, int_value,
  string_value, uint_value, EncoderConfig, bits64, Value, primitive, time_value, duration_value,
  array_value, object_value, Values, nil, cons, cons_reflected, Members, end, member, binary_member,
  reflected_member, namespace,
}
use Escape.{safe_add_string}

module _ (ex : Externals) where
  open ex use {Float, Reflected}

  pub record JsonEncoder : Type 0 where
    pub config : EncoderConfig ex
    pub buf : Buffer
    pub spaced : Bool
    pub open_namespaces : ℕ

  abbrev pub on_buf : (Buffer → Buffer) → JsonEncoder → JsonEncoder
  on_buf f enc = record enc { buf = f enc.buf }

  -- `switch enc.buf.Bytes()[last]`: the bytes after which no comma is due.
  abbrev pub opens : ℕ → Bool
  opens c = c == b'{' || c == b'[' || c == b':' || c == b',' || c == b' '

  unfoldable pub add_element_separator : JsonEncoder → JsonEncoder
  add_element_separator enc =
      if len enc.buf == 0 || opens (get_or enc.buf (len enc.buf - 1) 0)
      then enc
      else on_buf
          (λ b. if enc.spaced then append_byte b' ' (append_byte b',' b) else append_byte b',' b)
          enc

  abbrev pub quoted : List ℕ → Buffer → Buffer
  quoted s b = append_byte b'"' (safe_add_string s (append_byte b'"' b))

  unfoldable pub add_key : List ℕ → JsonEncoder → JsonEncoder
  add_key key enc =
      let enc₁ = add_element_separator enc in
      on_buf
        (λ b.
          let b₁ = append_byte b':' (quoted key b) in
          if enc.spaced then append_byte b' ' b₁ else b₁)
        enc₁

  -- `appendFloat` after the separator.
  unfoldable pub append_float : Float → ℕ → Buffer → Buffer
  append_float val size b =
      if ex.is_nan val
      then append_string (bytes "\"NaN\"") b
      else if ex.is_inf val
      then append_string (bytes "\"+Inf\"") b
      else if ex.is_neg_inf val
      then append_string (bytes "\"-Inf\"") b
      else append_string (ex.format val size) b

  -- `AppendBool`, `AppendByteString`, ... after the separator.
  unfoldable pub primitive_bytes : Primitive ex → Buffer → Buffer
  primitive_bytes (bool_value v) b = append_bool v b
  primitive_bytes (byte_string_value v) b = quoted v b
  primitive_bytes (complex_value r i size) b = append_byte b'"' (
      append_byte b'i' (
        append_string (ex.format i 64)
          (append_byte b'+' (append_string (ex.format r 64) (append_byte b'"' b)))))
  primitive_bytes (float_value v size) b = append_float v size b
  primitive_bytes (int_value w v) b = append_int v b
  primitive_bytes (string_value v) b = quoted v b
  primitive_bytes (uint_value w v) b = append_uint v b

  unfoldable pub append_primitive : Primitive ex → JsonEncoder → JsonEncoder
  append_primitive p enc = on_buf (primitive_bytes p) (add_element_separator enc)

  unfoldable pub append_primitives : List (Primitive ex) → JsonEncoder → JsonEncoder
  append_primitives [] enc = enc
  append_primitives (p ∷ ps) enc = append_primitives ps (append_primitive p enc)

  -- A call of a user's encoder, with the value that is appended if it appended nothing.
  unfoldable pub append_with : List (Primitive ex) → Primitive ex → JsonEncoder → JsonEncoder
  append_with calls fallback enc =
      let enc₁ = append_primitives calls enc in
      if len enc.buf == len enc₁.buf then append_primitive fallback enc₁ else enc₁

  unfoldable pub append_duration : ℤ → JsonEncoder → JsonEncoder
  append_duration val enc = append_with (enc.config.encode_duration val) (int_value bits64 val) enc

  unfoldable pub append_time : ℤ → JsonEncoder → JsonEncoder
  append_time nsec enc = append_with (enc.config.encode_time nsec) (int_value bits64 nsec) enc

  -- What `json.Encoder` printed of a value, with its line feed, or `none` for its error.
  unfoldable pub append_reflected : Option (List ℕ) → JsonEncoder → JsonEncoder
  append_reflected none enc = enc
  append_reflected (some s) enc =
      on_buf (append_string (trim_newline s)) (add_element_separator enc)

  unfoldable pub add_reflected : List ℕ → Option (List ℕ) → JsonEncoder → JsonEncoder
  add_reflected key none enc = enc
  add_reflected key (some s) enc = on_buf (append_string (trim_newline s)) (add_key key enc)

  unfoldable pub open_namespace : List ℕ → JsonEncoder → JsonEncoder
  open_namespace key enc =
      let enc₁ = on_buf (append_byte b'{') (add_key key enc) in
      record enc₁ { open_namespaces = suc enc₁.open_namespaces }

  unfoldable mutual
    pub append_value : Value ex → JsonEncoder → JsonEncoder
    append_value (primitive p) enc = append_primitive p enc
    append_value (time_value t) enc = append_time t enc
    append_value (duration_value d) enc = append_duration d enc
    append_value (array_value vs) enc =
        on_buf (append_byte b']')
          (append_values vs (on_buf (append_byte b'[') (add_element_separator enc)))
    append_value (object_value ms) enc =
        on_buf (append_byte b'}')
          (add_members ms (on_buf (append_byte b'{') (add_element_separator enc)))

    pub append_values : Values ex → JsonEncoder → JsonEncoder
    append_values nil enc = enc
    append_values (cons v vs) enc = append_values vs (append_value v enc)
    append_values (cons_reflected r vs) enc = append_values vs (append_reflected (ex.to_json r) enc)

    pub add_members : Members ex → JsonEncoder → JsonEncoder
    add_members end enc = enc
    add_members (member k v ms) enc = add_members ms (append_value v (add_key k enc))
    add_members (binary_member k v ms) enc =
        add_members ms (append_primitive (string_value (ex.base64 v)) (add_key k enc))
    add_members (reflected_member k s ms) enc = add_members ms (add_reflected k (ex.to_json s) enc)
    add_members (namespace k ms) enc = add_members ms (open_namespace k enc)

  abbrev pub new_json_encoder : EncoderConfig ex → Bool → JsonEncoder
  new_json_encoder cfg spaced = record {
    config = cfg;
    buf = [];
    spaced = spaced;
    open_namespaces = 0;
  }

  abbrev pub clone_empty : JsonEncoder → JsonEncoder
  clone_empty enc = record enc { buf = [] }

  -- `Clone`
  abbrev pub clone : JsonEncoder → JsonEncoder
  clone enc = record enc { buf = [] ++ enc.buf }

  unfoldable pub close_namespaces : ℕ → Buffer → Buffer
  close_namespaces zero b = b
  close_namespaces (suc n) b = close_namespaces n (append_byte b'}' b)

  abbrev pub close_open_namespaces : JsonEncoder → JsonEncoder
  close_open_namespaces enc = on_buf (close_namespaces enc.open_namespaces) enc

  abbrev when_set : List ℕ → (JsonEncoder → JsonEncoder) → JsonEncoder → JsonEncoder
  when_set key f enc = if length key == 0 then enc else f enc

  abbrev pub default_line_ending : List ℕ
  default_line_ending = 10 ∷ []

  -- The members that `EncodeEntry` writes of the entry itself.
  module _ (decimal_level : ℤ → List ℕ) where
    unfoldable pub add_entry_members : Entry → JsonEncoder → JsonEncoder
    add_entry_members ent enc =
        let cfg = enc.config in
        let level = when_set cfg.level_key (λ e.
          append_with (cfg.encode_level ent.level)
            (string_value (Level.string decimal_level ent.level)) (add_key cfg.level_key e)) in
        let time = when_set cfg.time_key (λ e. append_time ent.time (add_key cfg.time_key e)) in
        let message =
          when_set cfg.message_key
            (λ e. append_primitive (string_value ent.message) (add_key cfg.message_key e)) in
        let req_id =
          when_set cfg.req_id_key
            (λ e. append_primitive (uint_value bits64 ent.req_id) (add_key cfg.req_id_key e)) in
        req_id (message (time (level enc)))

    -- `EncodeEntry`
    unfoldable pub encode_entry : JsonEncoder → Entry → Members ex → Buffer
    encode_entry enc ent fields =
        let final = add_entry_members ent (on_buf (append_byte b'{') (clone_empty enc)) in
        let context =
          if ltb 0 (len enc.buf)
          then on_buf (append_string enc.buf) (add_element_separator final)
          else final in
        let closed = close_open_namespaces (add_members fields context) in
        let ending = enc.config.line_ending in
        append_string (if length ending == 0 then default_line_ending else ending)
          (append_byte b'}' closed.buf)
