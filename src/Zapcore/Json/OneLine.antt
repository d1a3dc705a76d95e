-- ===== src/Zapcore/Json/OneLine.antt =====
-- zapcore/json_encoder.go: line feeds in the text of an entry.
mod Strings
use nanozap.Base.{
  ℕ, zero, suc, ◌≤◌, ◌≡◌, refl, ap, sym, ◌∙◌, Bool, true, false, some, List, [], ◌∷◌, ◌++◌, inl,
  inr, Bool-cases, by_option, if◌then◌else◌, length, append_assoc,
}
use nanozap.Base.Int.{ℤ}
use nanozap.Base.Bytes.{bytes}
use nanozap.Buffer.{decimal, trim_newline}
use nanozap.Zapcore.Entry.{Entry}
use nanozap.Zapcore.Encoder.{
  Externals, EncoderConfig, Primitive, bool_value, byte_string_value, complex_value, float_value,
  int_value, string_value, uint_value, Value, primitive, time_value, duration_value, array_value,
  object_value, Values, nil, cons, cons_reflected, Members, end, member, binary_member,
  reflected_member, namespace, append_members,
}
use nanozap.Zapcore.Json.{
  primitive_bytes, append_float, quoted, add_members, new_json_encoder, encode_entry,
}
use nanozap.Zapcore.Json.Escape.{safe_add_string}
use nanozap.Zapcore.Json.Printer.{
  sep, print_key, print_primitive, print_primitives, or_number, print_value, print_values,
  print_members, opened_members, if_encoded,
}
use nanozap.Zapcore.Json.Printed.{PrintsSolid}
use nanozap.Zapcore.Json.Parsed.Lists.{closers}
use nanozap.Zapcore.Json.Meaning.{entry_members}
use nanozap.Zapcore.Json.RoundTrip.{line_ending, encode_entry-printed, closers-append}
pub use Strings.{one_line}
use Strings.{
  one_line-append, one_line-snoc, one_line-safe_add_string, one_line-digits,
  one_line-signed_decimal,
}

-- What Go's library prints of a float has no line feed, and what `json.Encoder` prints of a value
-- has none but the last byte.
pub record PrintsLines (ex : Externals) : Type 0 where
  pub format_line : (x : ex.Float) (size : ℕ) → one_line (ex.format x size) ≡ true
  pub json_line :
      (r : ex.Reflected) (s : List ℕ) → ex.to_json r ≡ some s → one_line (trim_newline s) ≡ true

module _ (ex : Externals) (lines : PrintsLines ex) where
  one_line-quoted : (s : List ℕ) → one_line (quoted ex s []) ≡ true
  one_line-quoted s =
      one_line-snoc (safe_add_string s (b'"' ∷ [])) b'"'
        (one_line-safe_add_string s (b'"' ∷ []) refl) refl

  one_line-append_float : (x : ex.Float) (size : ℕ) → one_line (append_float ex x size []) ≡ true
  unfolding append_float
  one_line-append_float x size = elim (Bool-cases (ex.is_nan x)) [
    | inl e ↦ rw e refl
    | inr e ↦ rw e (elim (Bool-cases (ex.is_inf x)) [
      | inl e ↦ rw e refl
      | inr e ↦ rw e (elim (Bool-cases (ex.is_neg_inf x)) [
        | inl e ↦ rw e refl
        | inr e ↦ rw e (lines.format_line x size)
      ])
    ])
  ]

  one_line-primitive : (p : Primitive ex) → one_line (primitive_bytes ex p []) ≡ true
  unfolding primitive_bytes decimal
  one_line-primitive (bool_value true) = refl
  one_line-primitive (bool_value false) = refl
  one_line-primitive (byte_string_value v) = one_line-quoted v
  one_line-primitive (complex_value r i size) =
      let re = one_line-append (b'"' ∷ []) (ex.format r 64) refl (lines.format_line r 64) in
      let plus = one_line-snoc (b'"' ∷ ex.format r 64) b'+' re refl in
      let im =
        one_line-append ((b'"' ∷ ex.format r 64) ++ b'+' ∷ []) (ex.format i 64) plus
          (lines.format_line i 64) in
      let all = ((b'"' ∷ ex.format r 64) ++ b'+' ∷ []) ++ ex.format i 64 in
      one_line-snoc (all ++ b'i' ∷ []) b'"' (one_line-snoc all b'i' im refl) refl
  one_line-primitive (float_value v size) = one_line-append_float v size
  one_line-primitive (int_value w v) = one_line-signed_decimal v
  one_line-primitive (string_value v) = one_line-quoted v
  one_line-primitive (uint_value w v) = one_line-digits 20 v

  module _ (cfg : EncoderConfig ex) (spaced : Bool) where
    abbrev Fits : List ℕ → Type 0
    Fits t = one_line t ≡ true

    one_line-sep : (first : Bool) → Fits (sep ex cfg spaced first)
    one_line-sep true = refl
    one_line-sep false = elim (Bool-cases spaced) [ inl e ↦ rw e refl | inr e ↦ rw e refl ]

    -- A text behind a separator.
    after_sep : (first : Bool) (t : List ℕ) → Fits t → Fits (sep ex cfg spaced first ++ t)
    after_sep first t h = one_line-append (sep ex cfg spaced first) t (one_line-sep first) h

    -- A text behind a separator and a key.
    after_key :
        (first : Bool) (k t : List ℕ)
        → Fits t
        → Fits (sep ex cfg spaced first ++ print_key ex cfg spaced k ++ t)
    after_key first k t h =
        let colon : Fits (if spaced then bytes "\": " else bytes "\":") = elim (Bool-cases spaced) [
          | inl e ↦ rw e refl
          | inr e ↦ rw e refl
        ] in
        one_line-append (sep ex cfg spaced first ++ print_key ex cfg spaced k) t
          (after_sep first (print_key ex cfg spaced k) (
            one_line-append (safe_add_string k []) (if spaced then bytes "\": " else bytes "\":")
              (one_line-safe_add_string k [] refl) colon))
          h

    -- A member with its key, and the members behind it.
    keyed :
        (first : Bool) (k t : List ℕ) (ms : Members ex)
        → Fits t
        → Fits (print_members ex cfg spaced false ms)
        → Fits (
            sep ex cfg spaced first
            ++ print_key ex cfg spaced k
            ++ t
            ++ print_members ex cfg spaced false ms)
    keyed first k t ms h h' =
        one_line-append (sep ex cfg spaced first ++ print_key ex cfg spaced k ++ t)
          (print_members ex cfg spaced false ms) (after_key first k t h) h'

    one_line-primitives :
        (first : Bool) (ps : List (Primitive ex)) → Fits (print_primitives ex cfg spaced first ps)
    unfolding print_primitives
    one_line-primitives first [] = refl
    one_line-primitives first (p ∷ ps) =
        one_line-append (sep ex cfg spaced first ++ print_primitive ex cfg spaced p)
          (print_primitives ex cfg spaced false ps)
          (after_sep first (print_primitive ex cfg spaced p) (one_line-primitive p))
          (one_line-primitives false ps)

    mutual
      unfolding print_value

      one_line-print_value : (v : Value ex) → Fits (print_value ex cfg spaced v)
      one_line-print_value (primitive p) = one_line-primitive p
      one_line-print_value (time_value t) =
          one_line-primitives true (or_number ex cfg spaced t (cfg.encode_time t))
      one_line-print_value (duration_value d) =
          one_line-primitives true (or_number ex cfg spaced d (cfg.encode_duration d))
      one_line-print_value (array_value vs) =
          one_line-snoc (print_values ex cfg spaced true vs) b']' (one_line-print_values true vs)
            refl
      one_line-print_value (object_value ms) =
          one_line-snoc (print_members ex cfg spaced true ms) b'}' (one_line-print_members true ms)
            refl

      one_line-print_values :
          (first : Bool) (vs : Values ex) → Fits (print_values ex cfg spaced first vs)
      one_line-print_values first nil = refl
      one_line-print_values first (cons v vs) =
          one_line-append (sep ex cfg spaced first ++ print_value ex cfg spaced v)
            (print_values ex cfg spaced false vs)
            (after_sep first (print_value ex cfg spaced v) (one_line-print_value v))
            (one_line-print_values false vs)
      one_line-print_values first (cons_reflected r vs) =
          by_option
            (λ o. Fits (
              if_encoded o (print_values ex cfg spaced first vs) (λ s.
                sep ex cfg spaced first ++ trim_newline s ++ print_values ex cfg spaced false vs)))
            (ex.to_json r) (λ e. one_line-print_values first vs)
            (λ s e.
              one_line-append (sep ex cfg spaced first ++ trim_newline s)
                (print_values ex cfg spaced false vs)
                (after_sep first (trim_newline s) (lines.json_line r s e))
                (one_line-print_values false vs))

      one_line-print_members :
          (first : Bool) (ms : Members ex) → Fits (print_members ex cfg spaced first ms)
      one_line-print_members first end = refl
      one_line-print_members first (member k v ms) =
          keyed first k (print_value ex cfg spaced v) ms (one_line-print_value v)
            (one_line-print_members false ms)
      one_line-print_members first (binary_member k v ms) =
          keyed first k (print_primitive ex cfg spaced (string_value (ex.base64 v))) ms
            (one_line-primitive (string_value (ex.base64 v))) (one_line-print_members false ms)
      one_line-print_members first (reflected_member k r ms) =
          by_option
            (λ o. Fits (
              if_encoded o (print_members ex cfg spaced first ms) (λ s.
                sep ex cfg spaced first
                ++ print_key ex cfg spaced k
                ++ trim_newline s
                ++ print_members ex cfg spaced false ms)))
            (ex.to_json r) (λ e. one_line-print_members first ms)
            (λ s e.
              keyed first k (trim_newline s) ms (lines.json_line r s e)
                (one_line-print_members false ms))
      one_line-print_members first (namespace k ms) =
          after_key first k (b'{' ∷ print_members ex cfg spaced true ms)
            (one_line-print_members true ms)

one_line-closers : (n : ℕ) (t : List ℕ) → one_line t ≡ true → one_line (closers n t) ≡ true
unfolding closers
one_line-closers zero t h = h
one_line-closers (suc n) t h = one_line-closers n (b'}' ∷ t) h

-- The line of an entry is a text without a line feed, and then the line ending, a line feed where
-- none is set: whatever bytes the message, the keys and the strings of the context and the fields
-- have, and however they nest. It is assumed that the level encoder makes at most one call, that
-- what Go's library prints of a float and of a value by reflection is not empty and ends in no
-- character that opens something, and that it has no line feed but the one that `json.Encoder` ends
-- with.
pub encode_entry-one_line :
    (ex : Externals) (cfg : EncoderConfig ex) (spaced : Bool) (decimal_level : ℤ → List ℕ)
    (ent : Entry) (ctx fields : Members ex)
    → PrintsSolid ex
    → PrintsLines ex
    → length (cfg.encode_level ent.level) ≤ 1
    → (text : List ℕ) × (encode_entry ex decimal_level
          (add_members ex ctx (new_json_encoder ex cfg spaced))
          ent
          fields
        ≡ text ++ line_ending cfg)
      × (one_line text ≡ true)
encode_entry-one_line ex cfg spaced decimal_level ent ctx fields solid lines one =
    let all = entry_members ex cfg decimal_level ent (append_members ex ctx fields) in
    let body = print_members ex cfg spaced true all in
    let n = opened_members ex cfg spaced all in
    let end = closers n (b'}' ∷ []) in
    (
      b'{' ∷ (body ++ end),
      encode_entry-printed ex solid cfg spaced decimal_level ent ctx fields one
          ∙ ap (λ t. b'{' ∷ (body ++ t)) (sym (closers-append n (b'}' ∷ []) (line_ending cfg)))
          ∙ ap (λ t. b'{' ∷ t) (sym (append_assoc body end (line_ending cfg))),
      one_line-append body end (one_line-print_members ex lines cfg spaced true all)
          (one_line-closers n (b'}' ∷ []) refl),
    )
