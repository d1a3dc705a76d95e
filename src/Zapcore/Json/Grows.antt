-- ===== src/Zapcore/Json/Grows.antt =====
-- zapcore/json_encoder.go: what the encoder appends to its buffer.
use nanozap.Base.{
  ℕ, zero, suc, ◌≡◌, refl, ap, sym, ◌∙◌, Bool, true, false, ◌||◌, Option, none, some, List, [], ◌∷◌,
  ◌++◌, append_assoc, append-nil, ◌==◌, if◌then◌else◌, Bool-cases, inl, inr, get_or, ◌-◌,
}
use nanozap.Buffer.{Buffer, append_byte, append_string, len}
use nanozap.Zapcore.Json.Quoted.{safe_add_string-read}
use nanozap.Zapcore.Encoder.{
  Externals, Primitive, bool_value, byte_string_value, complex_value, float_value, int_value,
  string_value, uint_value, Value, primitive, time_value, duration_value, array_value, object_value,
  Values, nil, cons, cons_reflected, Members, end, member, binary_member, reflected_member,
  namespace,
}
use nanozap.Zapcore.Json.{
  JsonEncoder, opens, add_element_separator, quoted, add_key, append_float, primitive_bytes,
  append_primitive, append_primitives, append_with, append_duration, append_time, append_reflected,
  add_reflected, open_namespace, append_value, append_values, add_members, close_namespaces,
}

-- A buffer that begins with another.
pub record Extends (b c : Buffer) : Type 0 where
  pub more : List ℕ
  pub eq : c ≡ b ++ more

pub same : (b : Buffer) → Extends b b
same b = record { more = []; eq = sym (append-nil b) }

pub by : (b : Buffer) (t : List ℕ) → Extends b (b ++ t)
by b t = record { more = t; eq = refl }

pub then_more : {b c d : Buffer} → Extends b c → Extends c d → Extends b d
then_more {b} x y = record {
  more = x.more ++ y.more;
  eq = y.eq ∙ ap (λ l. l ++ y.more) x.eq ∙ append_assoc b x.more y.more;
}

pub string_more : {b c : Buffer} (s : List ℕ) → Extends b c → Extends b (append_string s c)
string_more {c = c} s e = then_more e (by c s)

pub byte_more : {b c : Buffer} (v : ℕ) → Extends b c → Extends b (append_byte v c)
byte_more v e = string_more (v ∷ []) e

pub if_more :
    (test : Bool) {b c d : Buffer} → Extends b c → Extends b d → Extends b (if test then c else d)
if_more true x y = x
if_more false x y = y

module _ (ex : Externals) where
  pub quoted_more : (s : List ℕ) (b : Buffer) → Extends b (quoted ex s b)
  quoted_more s b =
      let (text, out, scrubs, adds, reads) = safe_add_string-read s (append_byte b'"' b) in
      byte_more b'"' (then_more (by b (b'"' ∷ [])) (record { more = out; eq = adds }))

  pub primitive_more : (p : Primitive ex) (b : Buffer) → Extends b (primitive_bytes ex p b)
  unfolding primitive_bytes append_float
  primitive_more (bool_value v) b = by b _
  primitive_more (byte_string_value v) b = quoted_more v b
  primitive_more (complex_value r i size) b = byte_more b'"' (
      byte_more b'i' (
        string_more (ex.format i 64)
          (byte_more b'+' (string_more (ex.format r 64) (byte_more b'"' (same b))))))
  primitive_more (float_value v size) b = elim (Bool-cases (ex.is_nan v)) [
    | inl e ↦ rw e (by b _)
    | inr e ↦ rw e (elim (Bool-cases (ex.is_inf v)) [
      | inl e ↦ rw e (by b _)
      | inr e ↦
          rw e
            (elim (Bool-cases (ex.is_neg_inf v)) [ inl e ↦ rw e (by b _) | inr e ↦ rw e (by b _) ])
    ])
  ]
  primitive_more (int_value w v) b = by b _
  primitive_more (string_value v) b = quoted_more v b
  primitive_more (uint_value w v) b = by b _

  abbrev pub Grows : JsonEncoder ex → JsonEncoder ex → Type 0
  Grows e e' = Extends e.buf e'.buf

  pub separator_more : (e : JsonEncoder ex) → Grows e (add_element_separator ex e)
  unfolding add_element_separator
  separator_more e =
      elim (Bool-cases (len e.buf == 0 || opens ex (get_or e.buf (len e.buf - 1) 0))) [
        | inl q ↦ rw q (same e.buf)
        | inr q ↦ rw q (elim (Bool-cases e.spaced) [
          | inl s ↦ rw s (byte_more b' ' (by e.buf (b',' ∷ [])))
          | inr s ↦ rw s (by e.buf (b',' ∷ []))
        ])
      ]

  pub key_more : (k : List ℕ) (e : JsonEncoder ex) → Grows e (add_key ex k e)
  unfolding add_key
  key_more k e =
      let sep =
        then_more (separator_more e)
          (byte_more b':' (quoted_more k (add_element_separator ex e).buf)) in
      if_more e.spaced (byte_more b' ' sep) sep

  pub append_more : (p : Primitive ex) (e : JsonEncoder ex) → Grows e (append_primitive ex p e)
  unfolding append_primitive
  append_more p e = then_more (separator_more e) (primitive_more p (add_element_separator ex e).buf)

  pub primitives_more :
      (ps : List (Primitive ex)) (e : JsonEncoder ex) → Grows e (append_primitives ex ps e)
  unfolding append_primitives
  primitives_more [] e = same e.buf
  primitives_more (p ∷ ps) e =
      then_more (append_more p e) (primitives_more ps (append_primitive ex p e))

  pub with_more :
      (calls : List (Primitive ex)) (p : Primitive ex) (e : JsonEncoder ex)
      → Grows e (append_with ex calls p e)
  unfolding append_with
  with_more calls p e =
      let e₁ = append_primitives ex calls e in
      elim (Bool-cases (len e.buf == len e₁.buf)) [
        | inl q ↦ rw q (then_more (primitives_more calls e) (append_more p e₁))
        | inr q ↦ rw q (primitives_more calls e)
      ]

  pub reflected_more :
      (s : Option (List ℕ)) (e : JsonEncoder ex) → Grows e (append_reflected ex s e)
  unfolding append_reflected
  reflected_more none e = same e.buf
  reflected_more (some s) e = string_more _ (separator_more e)

  pub add_reflected_more :
      (k : List ℕ) (s : Option (List ℕ)) (e : JsonEncoder ex) → Grows e (add_reflected ex k s e)
  unfolding add_reflected
  add_reflected_more k none e = same e.buf
  add_reflected_more k (some s) e = string_more _ (key_more k e)

  mutual
    unfolding append_value append_values add_members append_time append_duration open_namespace

    pub value_more : (v : Value ex) (e : JsonEncoder ex) → Grows e (append_value ex v e)
    value_more (primitive p) e = append_more p e
    value_more (time_value t) e = with_more _ _ e
    value_more (duration_value d) e = with_more _ _ e
    value_more (array_value vs) e =
        byte_more b']' (then_more (byte_more b'[' (separator_more e)) (values_more vs _))
    value_more (object_value ms) e =
        byte_more b'}' (then_more (byte_more b'{' (separator_more e)) (members_more ms _))

    pub values_more : (vs : Values ex) (e : JsonEncoder ex) → Grows e (append_values ex vs e)
    values_more nil e = same e.buf
    values_more (cons v vs) e = then_more (value_more v e) (values_more vs _)
    values_more (cons_reflected r vs) e =
        then_more (reflected_more (ex.to_json r) e) (values_more vs _)

    pub members_more : (ms : Members ex) (e : JsonEncoder ex) → Grows e (add_members ex ms e)
    members_more end e = same e.buf
    members_more (member k v ms) e =
        then_more (then_more (key_more k e) (value_more v _)) (members_more ms _)
    members_more (binary_member k v ms) e =
        then_more (then_more (key_more k e) (append_more _ _)) (members_more ms _)
    members_more (reflected_member k s ms) e =
        then_more (add_reflected_more k (ex.to_json s) e) (members_more ms _)
    members_more (namespace k ms) e = then_more (byte_more b'{' (key_more k e)) (members_more ms _)

  pub close_more : (n : ℕ) (b : Buffer) → Extends b (close_namespaces ex n b)
  unfolding close_namespaces
  close_more zero b = same b
  close_more (suc n) b = then_more (by b (b'}' ∷ [])) (close_more n _)
  -- The part of `EncodeEntry` for one key, which may be empty.
