-- ===== src/Zapcore/Json/Printed/Steps.antt =====
-- The separator, a primitive, a key, and a list of primitives, as the printer prints them.
use mathlib.Core.Path.{subst}
use nanozap.Base.{
  ℕ, ◌+◌, ◌≡◌, refl, ap, sym, ◌∙◌, Bool, true, false, List, [], ◌∷◌, ◌++◌, append_assoc, append-nil,
  arith, ◌==◌, if◌then◌else◌, length, length-append,
}
use nanozap.Base.Int.{ℤ}
use nanozap.Base.Bytes.{bytes}
use nanozap.Buffer.{Buffer, append_byte, len}
use nanozap.Zapcore.Encoder.{
  Externals, Primitive, bool_value, byte_string_value, complex_value, float_value, int_value,
  string_value, uint_value, bits64, EncoderConfig,
}
use nanozap.Zapcore.Json.Escape.{safe_add_string}
use nanozap.Zapcore.Json.Quoted.{safe_add_string-append}
use nanozap.Zapcore.Json.{
  JsonEncoder, add_element_separator, quoted, add_key, append_float, primitive_bytes,
  append_primitive, append_primitives, append_with,
}
use nanozap.Zapcore.Json.Printer.{sep, print_primitive, print_primitives, print_key, or_number}
use nanozap.Zapcore.Json.Printed.Solid.{
  is_first, is_first-solid, PrintsSolid, IsSolid, primitive-IsSolid, IsSolid-after,
}

module _ (ex : Externals) where
  quoted-append : (s : List ℕ) (b : Buffer) → quoted ex s b ≡ b ++ quoted ex s []
  quoted-append s b =
      ap (λ t. t ++ b'"' ∷ [])
        (safe_add_string-append s (b ++ b'"' ∷ [])
          ∙ append_assoc b (b'"' ∷ []) (safe_add_string s [])
          ∙ ap (λ t. b ++ t) (sym (safe_add_string-append s (b'"' ∷ []))))
      ∙ append_assoc b (safe_add_string s (b'"' ∷ [])) (b'"' ∷ [])

  primitive_bytes-append :
      (p : Primitive ex) (b : Buffer) → primitive_bytes ex p b ≡ b ++ primitive_bytes ex p []
  unfolding primitive_bytes append_float
  primitive_bytes-append (bool_value v) b = refl
  primitive_bytes-append (byte_string_value v) b = quoted-append v b
  primitive_bytes-append (complex_value r i size) b = simp append_assoc
  primitive_bytes-append (float_value v size) b = ground arith
  primitive_bytes-append (int_value w v) b = refl
  primitive_bytes-append (string_value v) b = quoted-append v b
  primitive_bytes-append (uint_value w v) b = refl

  comma :
      (spaced : Bool) (b : Buffer)
      → (if spaced then append_byte b' ' (append_byte b',' b) else append_byte b',' b)
        ≡ b ++ (if spaced then bytes ", " else bytes ",")
  comma true b = append_assoc b (b',' ∷ []) (b' ' ∷ [])
  comma false b = refl

  quoted_text :
      (k t : List ℕ) (b : Buffer)
      → quoted ex k b ++ t ≡ b ++ (b'"' ∷ safe_add_string k [] ++ (b'"' ∷ t))
  quoted_text k t b =
      ap (λ c. (c ++ b'"' ∷ []) ++ t) (safe_add_string-append k (b ++ b'"' ∷ []))
      ∙ simp append_assoc

  key_text :
      (cfg : EncoderConfig ex) (spaced : Bool) (k : List ℕ) (b : Buffer)
      → (let c = append_byte b':' (quoted ex k b) in if spaced then append_byte b' ' c else c)
        ≡ b ++ print_key ex cfg spaced k
  key_text cfg true k b =
      append_assoc (quoted ex k b) (b':' ∷ []) (b' ' ∷ []) ∙ quoted_text k (bytes ": ") b
  key_text cfg false k b = quoted_text k (bytes ":") b

  pub with_calls :
      (calls : List (Primitive ex)) (fallback : Primitive ex) (e e₁ : JsonEncoder ex)
      → append_primitives ex calls e ≡ e₁
      → append_with ex calls fallback e
        ≡ (if len e.buf == len e₁.buf then append_primitive ex fallback e₁ else e₁)
  unfolding append_with
  with_calls calls fallback e e₁ q =
      ap
        (λ (e₁ : JsonEncoder ex).
          if len e.buf == len e₁.buf then append_primitive ex fallback e₁ else e₁)
        q

  pub longer : (b : Buffer) {t : List ℕ} → IsSolid ex t → len b == len (b ++ t) ≡ false
  longer b {t} s =
      let grows : length t ≡ length s.front + 1 =
        ap length s.eq ∙ omega (arith, length-append s.front (s.last ∷ [])) in
      ground (arith, length-append b t)

  module _ (cfg : EncoderConfig ex) (spaced : Bool) where
    -- The encoder in between, by what changes: its buffer and its open namespaces.
    abbrev pub at : Buffer → ℕ → JsonEncoder ex
    at b n = record { config = cfg; buf = b; spaced = spaced; open_namespaces = n }

    pub separator-at :
        (first : Bool) (b : Buffer) (n : ℕ)
        → is_first ex b ≡ first
        → add_element_separator ex (at b n) ≡ at (b ++ sep ex cfg spaced first) n
    unfolding add_element_separator
    separator-at true b n h = rw (h, append-nil b) refl
    separator-at false b n h = rw h (ap (λ b. at b n) (comma spaced b))

    pub primitive-at :
        (p : Primitive ex) (first : Bool) (b : Buffer) (n : ℕ)
        → is_first ex b ≡ first
        → append_primitive ex p (at b n)
          ≡ at (b ++ (sep ex cfg spaced first ++ print_primitive ex cfg spaced p)) n
    unfolding append_primitive
    primitive-at p first b n h = rw (separator-at first b n h) (
        ap (λ b. at b n)
          (primitive_bytes-append p (b ++ sep ex cfg spaced first)
            ∙ append_assoc b (sep ex cfg spaced first) (print_primitive ex cfg spaced p)))

    pub key-at :
        (k : List ℕ) (first : Bool) (b : Buffer) (n : ℕ)
        → is_first ex b ≡ first
        → add_key ex k (at b n) ≡ at (b ++ (sep ex cfg spaced first ++ print_key ex cfg spaced k)) n
    unfolding add_key
    key-at k first b n h = rw (separator-at first b n h) (
        ap (λ b. at b n)
          (key_text cfg spaced k (b ++ sep ex cfg spaced first)
            ∙ append_assoc b (sep ex cfg spaced first) (print_key ex cfg spaced k)))

    module _ (solid : PrintsSolid ex) where
      primitive_not_first :
          (p : Primitive ex) (pre : List ℕ) (b : Buffer)
          → is_first ex (b ++ (pre ++ print_primitive ex cfg spaced p)) ≡ false
      primitive_not_first p pre b =
          is_first-solid ex b (IsSolid-after ex pre (primitive-IsSolid ex solid p []))

      pub primitives-at :
          (ps : List (Primitive ex)) (first : Bool) (b : Buffer) (n : ℕ)
          → is_first ex b ≡ first
          → append_primitives ex ps (at b n) ≡ at (b ++ print_primitives ex cfg spaced first ps) n
      unfolding append_primitives print_primitives
      primitives-at [] first b n h = ap (λ b. at b n) (sym (append-nil b))
      primitives-at (p ∷ ps) first b n h =
          let text = sep ex cfg spaced first ++ print_primitive ex cfg spaced p in
          ap (append_primitives ex ps) (primitive-at p first b n h)
          ∙ primitives-at ps false (b ++ text) n (primitive_not_first p (sep ex cfg spaced first) b)
          ∙ ap (λ b. at b n) (append_assoc b text (print_primitives ex cfg spaced false ps))

      pub primitives-IsSolid :
          (p : Primitive ex) (ps : List (Primitive ex)) (first : Bool)
          → IsSolid ex (print_primitives ex cfg spaced first (p ∷ ps))
      unfolding print_primitives
      primitives-IsSolid p [] first =
          subst (IsSolid ex)
            (sym (append-nil (sep ex cfg spaced first ++ print_primitive ex cfg spaced p)))
            (IsSolid-after ex (sep ex cfg spaced first) (primitive-IsSolid ex solid p []))
      primitives-IsSolid p (q ∷ ps) first =
          IsSolid-after ex (sep ex cfg spaced first ++ print_primitive ex cfg spaced p)
            (primitives-IsSolid q ps false)

      first_apart :
          (p : Primitive ex) (ps : List (Primitive ex)) (first : Bool)
          → print_primitives ex cfg spaced first (p ∷ ps)
            ≡ sep ex cfg spaced first ++ print_primitives ex cfg spaced true (p ∷ ps)
      unfolding print_primitives
      first_apart p ps first =
          append_assoc (sep ex cfg spaced first) (print_primitive ex cfg spaced p)
            (print_primitives ex cfg spaced false ps)

      pub with-at :
          (calls : List (Primitive ex)) (k : ℤ) (first : Bool) (b : Buffer) (n : ℕ)
          → is_first ex b ≡ first
          → append_with ex calls (int_value bits64 k) (at b n)
            ≡ at
                (b
                  ++ (sep ex cfg spaced first
                      ++ print_primitives ex cfg spaced true (or_number ex cfg spaced k calls)))
                n
      unfolding append_primitives print_primitives
      with-at [] k first b n h =
          let q : Primitive ex = int_value bits64 k in
          let same : (len b == len b) ≡ true = ground arith in
          with_calls [] q (at b n) (at b n) refl
          ∙ rw same (primitive-at q first b n h)
          ∙ ap (λ t. at (b ++ (sep ex cfg spaced first ++ t)) n)
              (sym (append-nil (print_primitive ex cfg spaced q)))
      with-at (p ∷ ps) k first b n h =
          let t = print_primitives ex cfg spaced first (p ∷ ps) in
          with_calls (p ∷ ps) (int_value bits64 k) (at b n) (at (b ++ t) n)
            (primitives-at (p ∷ ps) first b n h)
          ∙ rw (longer b (primitives-IsSolid p ps first))
              (ap (λ t. at (b ++ t) n) (first_apart p ps first))
