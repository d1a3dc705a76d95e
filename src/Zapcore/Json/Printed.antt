-- ===== src/Zapcore/Json/Printed.antt =====
-- zapcore/json_encoder.go: the encoder, which looks at the last byte of its buffer to know whether
-- a separator is due, beside the recursive printer.
pub mod Solid
pub mod Steps
pub use Solid.{PrintsSolid, IsSolid, is_first}
use Solid.{
  is_first-solid, is_first-last, is_first-after, IsSolid-after, ends_with, primitive-IsSolid,
}
use Steps.{at, separator-at, primitive-at, key-at, with-at, primitives-IsSolid}
use nanozap.Base.{
  ℕ, suc, ◌+◌, ◌≡◌, refl, ap, ap₂, sym, ◌∙◌, Bool, true, false, List, [], ◌∷◌, ◌++◌, append_assoc,
  append-nil, arith, by_option,
}
use nanozap.Base.Int.{ℤ}
use nanozap.Base.Bytes.{bytes}
use nanozap.Buffer.{Buffer, trim_newline, append_byte, append_string}
use nanozap.Zapcore.Json.Escape.{safe_add_string}
use nanozap.Zapcore.Encoder.{
  Externals, Primitive, int_value, string_value, bits64, EncoderConfig, Value, primitive,
  time_value, duration_value, array_value, object_value, Values, nil, cons, cons_reflected, Members,
  end, member, binary_member, reflected_member, namespace,
}
use nanozap.Zapcore.Json.{
  JsonEncoder, on_buf, append_primitive, append_value, append_values, add_members, append_time,
  append_duration, append_reflected, add_reflected, open_namespace,
}
use nanozap.Zapcore.Json.Printer.{
  sep, print_primitive, print_primitives, print_key, or_number, print_value, print_values,
  print_members, opened_value, opened_values, opened_members, if_encoded,
}

module _ (ex : Externals) (solid : PrintsSolid ex) (cfg : EncoderConfig ex) (spaced : Bool) where
  abbrev state : Buffer → ℕ → JsonEncoder ex
  state = at ex cfg spaced

  abbrev text : Value ex → List ℕ
  text = print_value ex cfg spaced

  abbrev lead : Bool → List ℕ
  lead = sep ex cfg spaced

  or_number-IsSolid :
      (k : ℤ) (calls : List (Primitive ex))
      → IsSolid ex (print_primitives ex cfg spaced true (or_number ex cfg spaced k calls))
  or_number-IsSolid k [] = primitives-IsSolid ex cfg spaced solid (int_value bits64 k) [] true
  or_number-IsSolid k (p ∷ ps) = primitives-IsSolid ex cfg spaced solid p ps true

  value-IsSolid : (v : Value ex) → IsSolid ex (text v)
  unfolding print_value
  value-IsSolid (primitive p) = primitive-IsSolid ex solid p []
  value-IsSolid (time_value t) = or_number-IsSolid t (cfg.encode_time t)
  value-IsSolid (duration_value d) = or_number-IsSolid d (cfg.encode_duration d)
  value-IsSolid (array_value vs) =
      ends_with ex (b'[' ∷ print_values ex cfg spaced true vs) b']' refl
  value-IsSolid (object_value ms) =
      ends_with ex (b'{' ∷ print_members ex cfg spaced true ms) b'}' refl

  not_first :
      (v : Value ex) (pre : List ℕ) (b : Buffer) → is_first ex (b ++ (pre ++ text v)) ≡ false
  not_first v pre b = is_first-solid ex b (IsSolid-after ex pre (value-IsSolid v))

  key_first :
      (k : List ℕ) (pre : List ℕ) (b : Buffer)
      → is_first ex (b ++ (pre ++ print_key ex cfg spaced k)) ≡ true
  key_first k pre b = ends spaced
    where
      ends : (spaced : Bool) → is_first ex (b ++ (pre ++ print_key ex cfg spaced k)) ≡ true
      ends true =
          is_first-after ex b (pre ++ (b'"' ∷ safe_add_string k [] ++ bytes "\":")) b' '
            (simp append_assoc)
      ends false =
          is_first-after ex b (pre ++ (b'"' ∷ safe_add_string k [] ++ bytes "\"")) b':'
            (simp append_assoc)

  -- `OpenNamespace` after its key.
  abbrev opened_by : JsonEncoder ex → JsonEncoder ex
  opened_by e = record e { buf = e.buf ++ b'{' ∷ []; open_namespaces = suc e.open_namespaces }

  bracketed :
      (b l : List ℕ) (o : ℕ) (t : List ℕ) (c : ℕ)
      → ((b ++ l ++ o ∷ []) ++ t) ++ c ∷ [] ≡ b ++ (l ++ (o ∷ t ++ c ∷ []))
  bracketed b l o t c = simp append_assoc

  nothing_opened : (b : Buffer) (n : ℕ) → state b n ≡ state b (n + 0)
  nothing_opened b n = ap (state b) (omega arith)

  mutual
    unfolding append_value append_values add_members print_value print_values print_members
        opened_value append_time append_duration add_reflected append_reflected open_namespace

    pub value-at :
        (v : Value ex) (first : Bool) (b : Buffer) (n : ℕ)
        → is_first ex b ≡ first
        → append_value ex v (state b n)
          ≡ state (b ++ (lead first ++ text v)) (n + opened_value ex cfg spaced v)
    value-at (primitive p) first b n h =
        primitive-at ex cfg spaced p first b n h
        ∙ nothing_opened (b ++ (lead first ++ print_primitive ex cfg spaced p)) n
    value-at (time_value t) first b n h =
        with-at ex cfg spaced solid (cfg.encode_time t) t first b n h
        ∙ nothing_opened (b ++ (lead first ++ text (time_value t))) n
    value-at (duration_value d) first b n h =
        with-at ex cfg spaced solid (cfg.encode_duration d) d first b n h
        ∙ nothing_opened (b ++ (lead first ++ text (duration_value d))) n
    value-at (array_value vs) first b n h =
        ap
          (λ e. on_buf ex (append_byte b']') (append_values ex vs (on_buf ex (append_byte b'[') e)))
          (separator-at ex cfg spaced first b n h)
        ∙ ap (on_buf ex (append_byte b']')) (
            values-at vs true (b ++ lead first ++ b'[' ∷ []) n
              (is_first-last ex (b ++ lead first) b'['))
        ∙ ap (λ b. state b (n + opened_values ex cfg spaced vs))
            (bracketed b (lead first) b'[' (print_values ex cfg spaced true vs) b']')
    value-at (object_value ms) first b n h =
        ap (λ e. on_buf ex (append_byte b'}') (add_members ex ms (on_buf ex (append_byte b'{') e)))
          (separator-at ex cfg spaced first b n h)
        ∙ ap (on_buf ex (append_byte b'}')) (
            members-at ms true (b ++ lead first ++ b'{' ∷ []) n
              (is_first-last ex (b ++ lead first) b'{'))
        ∙ ap (λ b. state b (n + opened_members ex cfg spaced ms))
            (bracketed b (lead first) b'{' (print_members ex cfg spaced true ms) b'}')

    pub values-at :
        (vs : Values ex) (first : Bool) (b : Buffer) (n : ℕ)
        → is_first ex b ≡ first
        → append_values ex vs (state b n)
          ≡ state (b ++ print_values ex cfg spaced first vs) (n + opened_values ex cfg spaced vs)
    values-at nil first b n h = ap₂ state (sym (append-nil b)) (omega arith)
    values-at (cons v vs) first b n h =
        let t = lead first ++ text v in
        ap (append_values ex vs) (value-at v first b n h)
        ∙ values-at vs false (b ++ t) (n + opened_value ex cfg spaced v)
            (not_first v (lead first) b)
        ∙ ap₂ state (append_assoc b t (print_values ex cfg spaced false vs)) (omega arith)
    values-at (cons_reflected r vs) first b n h =
        by_option
          (λ o.
            append_values ex vs (append_reflected ex o (state b n))
            ≡ state
                (b
                  ++ if_encoded o (print_values ex cfg spaced first vs)
                      (λ s. lead first ++ trim_newline s ++ print_values ex cfg spaced false vs))
                (n + opened_values ex cfg spaced vs))
          (ex.to_json r) (λ e. values-at vs first b n h)
          (λ s e.
            let t = trim_newline s in
            ap (λ e. append_values ex vs (on_buf ex (append_string t) e))
              (separator-at ex cfg spaced first b n h)
            ∙ values-at vs false (b ++ lead first ++ t) n
                (is_first-solid ex (b ++ lead first) (solid.json_solid r s e))
            ∙ ap (λ b. state b (n + opened_values ex cfg spaced vs)) (simp append_assoc))

    pub members-at :
        (ms : Members ex) (first : Bool) (b : Buffer) (n : ℕ)
        → is_first ex b ≡ first
        → add_members ex ms (state b n)
          ≡ state (b ++ print_members ex cfg spaced first ms) (n + opened_members ex cfg spaced ms)
    members-at end first b n h = ap₂ state (sym (append-nil b)) (omega arith)
    members-at (member k v ms) first b n h =
        let c = b ++ (lead first ++ print_key ex cfg spaced k) in
        ap (λ e. add_members ex ms (append_value ex v e)) (key-at ex cfg spaced k first b n h)
        ∙ ap (add_members ex ms) (value-at v true c n (key_first k (lead first) b))
        ∙ members-at ms false (c ++ text v) (n + opened_value ex cfg spaced v) (not_first v [] c)
        ∙ ap₂ state (simp append_assoc) (omega arith)
    members-at (binary_member k v ms) first b n h =
        let c = b ++ (lead first ++ print_key ex cfg spaced k) in
        let p : Primitive ex = string_value (ex.base64 v) in
        ap (λ e. add_members ex ms (append_primitive ex p e)) (key-at ex cfg spaced k first b n h)
        ∙ ap (add_members ex ms)
            (primitive-at ex cfg spaced p true c n (key_first k (lead first) b))
        ∙ members-at ms false (c ++ print_primitive ex cfg spaced p) n
            (not_first (primitive p) [] c)
        ∙ ap (λ b. state b (n + opened_members ex cfg spaced ms)) (simp append_assoc)
    members-at (reflected_member k r ms) first b n h =
        by_option
          (λ o.
            add_members ex ms (add_reflected ex k o (state b n))
            ≡ state
                (b
                  ++ if_encoded o (print_members ex cfg spaced first ms) (λ s.
                    lead first
                    ++ print_key ex cfg spaced k
                    ++ trim_newline s
                    ++ print_members ex cfg spaced false ms))
                (n + opened_members ex cfg spaced ms))
          (ex.to_json r) (λ e. members-at ms first b n h)
          (λ s e.
            let t = trim_newline s in
            let c = b ++ (lead first ++ print_key ex cfg spaced k) in
            ap (λ e. add_members ex ms (on_buf ex (append_string t) e))
              (key-at ex cfg spaced k first b n h)
            ∙ members-at ms false (c ++ t) n (is_first-solid ex c (solid.json_solid r s e))
            ∙ ap (λ b. state b (n + opened_members ex cfg spaced ms)) (simp append_assoc))
    members-at (namespace k ms) first b n h =
        let c = b ++ (lead first ++ print_key ex cfg spaced k) in
        ap (λ e. add_members ex ms (opened_by e)) (key-at ex cfg spaced k first b n h)
        ∙ members-at ms true (c ++ b'{' ∷ []) (suc n) (is_first-last ex c b'{')
        ∙ ap₂ state (simp append_assoc) (omega arith)
