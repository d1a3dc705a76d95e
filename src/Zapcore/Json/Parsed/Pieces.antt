-- ===== src/Zapcore/Json/Parsed/Pieces.antt =====
-- How the parser reads what the printer prints of one primitive and of a key.
use mathlib.Core.Path.{subst, subst⁻¹}
use nanozap.Base.{
  ℕ, zero, suc, ◌<◌, ◌≡◌, refl, ap, ◌∙◌, Bool, true, false, Option, none, some, List, [], ◌∷◌, ◌++◌,
  append_assoc, append-nil, ltb, arith, Bool-cases, inl, inr,
}
use nanozap.Base.Bytes.{bytes}
use nanozap.Buffer.{decimal, signed_decimal}
use nanozap.Zapcore.Encoder.{
  Externals, Primitive, bool_value, byte_string_value, complex_value, float_value, int_value,
  string_value, uint_value, EncoderConfig,
}
use nanozap.Zapcore.Json.{primitive_bytes, append_float}
use nanozap.Zapcore.Json.Escape.{safe_add_string, quote}
use nanozap.Zapcore.Json.Quoted.{safe_add_string-append}
use nanozap.Zapcore.Json.Reader.{plain, read_string, read_byte, prepend}
use nanozap.Zapcore.Json.Quoted.Scrub.{scrub, read_string-scrub}
use nanozap.Zapcore.Json.Printer.{print_primitive}
use nanozap.Zapcore.Json.Parser.{Json, string, literal, is_literal, parse_value}
use nanozap.Zapcore.Json.Parser.Tokens.{
  is_literal-IsToken, is_number-is_literal, decimal-is_number, signed_decimal-is_number,
}
use nanozap.Zapcore.Json.Parser.Literals.{empty-is_literal, parse_value-literal, parse_value-string}
use nanozap.Zapcore.Json.Meaning.{Reads, Begins, IsPlain, PrintsJson, json_primitive, InRange}

-- A call that has more fuel than some bound is one that can spend a unit of it.
module _ {ℓ} {bound : ℕ} (Goal : ℕ → Type ℓ)
    (step : (left : ℕ) → bound < suc left → Goal (suc left)) where
  pub spend : (fuel : ℕ) → bound < fuel → Goal fuel
  spend zero short = absurd (omega arith)
  spend (suc left) enough = step left enough

-- A literal reads as itself.
abbrev pub IsText : List ℕ → Json → Type 0
IsText t j = Reads t j × Begins t

literal-Begins : (t : List ℕ) → is_literal t ≡ true → Begins t
literal-Begins [] h = cc (empty-is_literal)
literal-Begins (c ∷ t) h =
    let (plain_c, plain_t) = is_literal-IsToken (c ∷ t) h in
    record { first = c; behind = t; eq = refl; no_space = ground arith; no_end = ground arith }

pub literal-IsText : (t : List ℕ) → is_literal t ≡ true → IsText t (literal t)
literal-IsText t h = (
  λ rest f e enough.
      spend (λ f. parse_value f (t ++ rest) ≡ some (literal t, rest))
        (λ f h'. parse_value-literal f t rest h e) f enough,
  literal-Begins t h,
)

prepend-nil : (o : Option (List ℕ × List ℕ)) → o ≡ prepend [] o
prepend-nil none = refl
prepend-nil (some x) = refl

prepend-cons :
    (c : ℕ) (s : List ℕ) (o : Option (List ℕ × List ℕ))
    → prepend (c ∷ []) (prepend s o) ≡ prepend (c ∷ s) o
prepend-cons c s none = refl
prepend-cons c s (some x) = refl

read_string-plain :
    (s t : List ℕ) → IsPlain s → read_string plain (s ++ t) ≡ prepend s (read_string plain t)
unfolding read_string read_byte
read_string-plain [] t h = prepend-nil (read_string plain t)
read_string-plain (c ∷ s) t (low, no_quote, no_slash, hs) =
    let high : ltb c 32 ≡ false = ground arith in
    rw (no_quote, no_slash, high, read_string, read_byte)
      (ap (prepend (c ∷ [])) (read_string-plain s t hs) ∙ prepend-cons c s (read_string plain t))

-- So does a quoted text that the reader reads up to its closing quote.
quoted-IsText :
    (s str : List ℕ)
    → ((t : List ℕ) → read_string plain (s ++ quote ∷ t) ≡ some (str, t))
    → IsText (b'"' ∷ s ++ quote ∷ []) (string str)
quoted-IsText s str reads = (
  λ rest f e enough.
      spend (λ f. parse_value f ((b'"' ∷ s ++ quote ∷ []) ++ rest) ≡ some (string str, rest))
        (λ f h'.
          ap (λ t. parse_value (suc f) (b'"' ∷ t)) (append_assoc s (quote ∷ []) rest)
          ∙ parse_value-string f (s ++ quote ∷ rest) str rest (reads rest))
        f enough,
  record { first = b'"'; behind = s ++ quote ∷ []; eq = refl; no_space = refl; no_end = refl },
)

-- The closing quote.
closing : (t : List ℕ) → read_string plain (quote ∷ t) ≡ some ([], t)
unfolding read_string read_byte
closing t = refl

plain-IsText : (s : List ℕ) → IsPlain s → IsText (b'"' ∷ s ++ quote ∷ []) (string s)
plain-IsText s h = quoted-IsText s s (λ t.
    read_string-plain s (quote ∷ t) h
    ∙ ap (prepend s) (closing t)
    ∙ ap (λ x. some (x, t)) (append-nil s))

IsPlain-append : (s t : List ℕ) → IsPlain s → IsPlain t → IsPlain (s ++ t)
IsPlain-append [] t h h' = h'
IsPlain-append (c ∷ s) t (a, b, d, hs) h' = (a, b, d, IsPlain-append s t hs h')

scrub-IsText : (s : List ℕ) → IsText (b'"' ∷ safe_add_string s [] ++ quote ∷ []) (string (scrub s))
scrub-IsText s = quoted-IsText (safe_add_string s []) (scrub s) (read_string-scrub s)

-- As `AddString` prints it: behind the opening quote.
string-IsText :
    (s : List ℕ) → IsText (safe_add_string s (quote ∷ []) ++ quote ∷ []) (string (scrub s))
string-IsText s =
    subst⁻¹ (λ t. IsText (t ++ quote ∷ []) (string (scrub s)))
      (safe_add_string-append s (quote ∷ [])) (scrub-IsText s)

module _ (ex : Externals) (prints : PrintsJson ex) (cfg : EncoderConfig ex) (spaced : Bool) where
  pub primitive-IsText :
      (p : Primitive ex)
      → InRange ex prints cfg spaced p
      → IsText (print_primitive ex cfg spaced p) (json_primitive ex prints cfg spaced p)
  unfolding primitive_bytes append_float json_primitive is_literal
  primitive-IsText (bool_value true) h = literal-IsText (bytes "true") refl
  primitive-IsText (bool_value false) h = literal-IsText (bytes "false") refl
  primitive-IsText (byte_string_value s) h = string-IsText s
  primitive-IsText (string_value s) h = string-IsText s
  primitive-IsText (complex_value r i size) h =
      let real = ex.format r 64 in
      let imaginary = ex.format i 64 in
      let unit : List ℕ = b'i' ∷ [] in
      let text = real ++ b'+' ∷ imaginary ++ unit in
      let real-IsPlain =
        IsPlain-append real (b'+' ∷ imaginary) (prints.format_plain r 64)
          (omega arith, refl, refl, prints.format_plain i 64) in
      let text-IsPlain : IsPlain text =
        IsPlain-append (real ++ b'+' ∷ imaginary) unit real-IsPlain (omega arith, refl, refl, tt) in
      let eq : b'"' ∷ text ++ quote ∷ [] ≡ print_primitive ex cfg spaced (complex_value r i size) =
        simp append_assoc refl in
      subst (λ t. IsText t (string text)) eq (plain-IsText text text-IsPlain)
  primitive-IsText (float_value x size) h = elim (Bool-cases (ex.is_nan x)) [
    | inl e ↦ rw e (
        plain-IsText (bytes "NaN")
          (omega arith, refl, refl, (omega arith, refl, refl, (omega arith, refl, refl, tt))))
    | inr e ↦ elim (Bool-cases (ex.is_inf x)) [
      | inl e' ↦
          rw (e, e')
            (plain-IsText (bytes "+Inf") (
              omega arith,
              refl,
              refl,
              (omega arith, refl, refl, (omega arith, refl, refl, (omega arith, refl, refl, tt))),
            ))
      | inr e' ↦ elim (Bool-cases (ex.is_neg_inf x)) [
        | inl e'' ↦
            rw (e, e', e'')
              (plain-IsText (bytes "-Inf") (
                omega arith,
                refl,
                refl,
                (omega arith, refl, refl, (omega arith, refl, refl, (omega arith, refl, refl, tt))),
              ))
        | inr e'' ↦
            rw (e, e', e'')
              (literal-IsText (ex.format x size)
                (is_number-is_literal (ex.format x size) (prints.format_number x size e e' e'')))
      ]
    ]
  ]
  primitive-IsText (int_value w k) (h, h') =
      literal-IsText (signed_decimal k)
        (is_number-is_literal (signed_decimal k) (signed_decimal-is_number k h h'))
  primitive-IsText (uint_value w n) h =
      literal-IsText (decimal n) (is_number-is_literal (decimal n) (decimal-is_number n h))
