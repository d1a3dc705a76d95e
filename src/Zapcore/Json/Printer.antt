-- ===== src/Zapcore/Json/Printer.antt =====
-- The text of a value as a function of the value alone: elements and members are separated by a
-- comma, or a comma and a space, and nothing looks at what was printed before.
use nanozap.Base.{
  ℕ, ◌+◌, suc, Bool, true, false, Option, none, some, List, [], ◌∷◌, ◌++◌, if◌then◌else◌,
}
use nanozap.Base.Int.{ℤ}
use nanozap.Base.Bytes.{bytes}
use nanozap.Buffer.{trim_newline}
use nanozap.Zapcore.Encoder.{
  Externals, Primitive, int_value, string_value, bits64, EncoderConfig, Value, primitive,
  time_value, duration_value, array_value, object_value, Values, nil, cons, cons_reflected, Members,
  end, member, binary_member, reflected_member, namespace,
}
use nanozap.Zapcore.Json.Escape.{safe_add_string}
use nanozap.Zapcore.Json.{primitive_bytes}

-- A text for what `json.Encoder` printed, or another one where it failed.
abbrev pub if_encoded : Option (List ℕ) → List ℕ → (List ℕ → List ℕ) → List ℕ
if_encoded none failed text = failed
if_encoded (some s) failed text = text s

module _ (ex : Externals) (cfg : EncoderConfig ex) (spaced : Bool) where
  -- What goes before a text: nothing before the first one.
  abbrev pub sep : Bool → List ℕ
  sep first = if first then [] else if spaced then bytes ", " else bytes ","

  abbrev pub print_primitive : Primitive ex → List ℕ
  print_primitive p = primitive_bytes ex p []

  unfoldable pub print_primitives : Bool → List (Primitive ex) → List ℕ
  print_primitives first [] = []
  print_primitives first (p ∷ ps) = sep first ++ print_primitive p ++ print_primitives false ps

  abbrev pub or_number : ℤ → List (Primitive ex) → List (Primitive ex)
  or_number n [] = int_value bits64 n ∷ []
  or_number n (p ∷ ps) = p ∷ ps

  abbrev pub print_key : List ℕ → List ℕ
  print_key k = b'"' ∷ safe_add_string k [] ++ (if spaced then bytes "\": " else bytes "\":")

  unfoldable mutual
    pub print_value : Value ex → List ℕ
    print_value (primitive p) = print_primitive p
    print_value (time_value t) = print_primitives true (or_number t (cfg.encode_time t))
    print_value (duration_value d) = print_primitives true (or_number d (cfg.encode_duration d))
    print_value (array_value vs) = b'[' ∷ print_values true vs ++ b']' ∷ []
    print_value (object_value ms) = b'{' ∷ print_members true ms ++ b'}' ∷ []

    pub print_values : Bool → Values ex → List ℕ
    print_values first nil = []
    print_values first (cons v vs) = sep first ++ print_value v ++ print_values false vs
    print_values first (cons_reflected r vs) =
        if_encoded (ex.to_json r) (print_values first vs)
          (λ s. sep first ++ trim_newline s ++ print_values false vs)

    pub print_members : Bool → Members ex → List ℕ
    print_members first end = []
    print_members first (member k v ms) =
        sep first ++ print_key k ++ print_value v ++ print_members false ms
    print_members first (binary_member k v ms) =
        sep first
        ++ print_key k
        ++ print_primitive (string_value (ex.base64 v))
        ++ print_members false ms
    print_members first (reflected_member k r ms) =
        if_encoded (ex.to_json r) (print_members first ms)
          (λ s. sep first ++ print_key k ++ trim_newline s ++ print_members false ms)
    print_members first (namespace k ms) = sep first ++ print_key k ++ b'{' ∷ print_members true ms

  -- The namespaces that the calls open, within objects too.
  unfoldable mutual
    pub opened_value : Value ex → ℕ
    opened_value (primitive p) = 0
    opened_value (time_value t) = 0
    opened_value (duration_value d) = 0
    opened_value (array_value vs) = opened_values vs
    opened_value (object_value ms) = opened_members ms

    pub opened_values : Values ex → ℕ
    opened_values nil = 0
    opened_values (cons v vs) = opened_value v + opened_values vs
    opened_values (cons_reflected r vs) = opened_values vs

    pub opened_members : Members ex → ℕ
    opened_members end = 0
    opened_members (member k v ms) = opened_value v + opened_members ms
    opened_members (binary_member k v ms) = opened_members ms
    opened_members (reflected_member k r ms) = opened_members ms
    opened_members (namespace k ms) = suc (opened_members ms)
