-- ===== src/Zapcore/Encoder.antt =====
-- zapcore/encoder.go: the calls of the encoders' interfaces, and the encoders of levels, times and
-- durations. A marshaler is the tree of the calls it makes: the interfaces offer it nothing to read
-- but errors, and those are its own or come from a value that reflection cannot encode. A user's
-- level, time or duration encoder is the list of its calls.
pub mod Standard
pub mod Sample
use nanozap.Base.{ℕ, Bool, Option, List}
use nanozap.Base.Int.{ℤ}
use nanozap.Zapcore.Level.{Level}

-- What Go's library does: floats as `math` tells them apart and `strconv.AppendFloat` prints them,
-- for 64 or 32 bits; the values that are encoded by reflection, with what `json.Encoder` prints of
-- them, its line feed included, or the text of its error; and `base64.StdEncoding`.
pub record Externals : Type 1 where
  pub Float : Type 0
  pub is_nan : Float → Bool
  pub is_inf : Float → Bool
  pub is_neg_inf : Float → Bool
  pub format : Float → ℕ → List ℕ
  pub Reflected : Type 0
  pub to_json : Reflected → Option (List ℕ)
  pub json_error : Reflected → List ℕ
  pub base64 : List ℕ → List ℕ

-- The size of an integer's type: `int` and `uint`, the sized types, and `uintptr`.
pub data Width : Type 0 where
  native : Width
  bits64 : Width
  bits32 : Width
  bits16 : Width
  bits8 : Width
  pointer : Width

module _ (ex : Externals) where
  open ex use {Float, Reflected}

  -- The calls of `PrimitiveArrayEncoder`. The last number of a float or a complex is its size.
  pub data Primitive : Type 0 where
    bool_value : Bool → Primitive
    byte_string_value : List ℕ → Primitive
    complex_value : Float → Float → ℕ → Primitive
    float_value : Float → ℕ → Primitive
    int_value : Width → ℤ → Primitive
    string_value : List ℕ → Primitive
    uint_value : Width → ℕ → Primitive

  pub record EncoderConfig : Type 0 where
    pub message_key : List ℕ
    pub level_key : List ℕ
    pub time_key : List ℕ
    pub req_id_key : List ℕ
    pub line_ending : List ℕ
    pub encode_level : Level → List Primitive
    pub encode_time : ℤ → List Primitive
    pub encode_duration : ℤ → List Primitive

  -- The values that `ArrayEncoder` and `ObjectEncoder` take alike, and the calls of an
  -- `ArrayMarshaler` and of an `ObjectMarshaler`.
  mutual
    pub data Value : Type 0 where
      primitive : Primitive → Value
      time_value : ℤ → Value
      duration_value : ℤ → Value
      array_value : Values → Value
      object_value : Members → Value

    pub data Values : Type 0 where
      nil : Values
      cons : Value → Values → Values
      cons_reflected : Reflected → Values → Values

    pub data Members : Type 0 where
      end : Members
      member : List ℕ → Value → Members → Members
      binary_member : List ℕ → List ℕ → Members → Members
      reflected_member : List ℕ → Reflected → Members → Members
      namespace : List ℕ → Members → Members

  -- The calls of one after those of the other.
  unfoldable pub append_members : Members → Members → Members
  append_members end ns = ns
  append_members (member k v ms) ns = member k v (append_members ms ns)
  append_members (binary_member k v ms) ns = binary_member k v (append_members ms ns)
  append_members (reflected_member k v ms) ns = reflected_member k v (append_members ms ns)
  append_members (namespace k ms) ns = namespace k (append_members ms ns)
