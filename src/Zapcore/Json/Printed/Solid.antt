-- ===== src/Zapcore/Json/Printed/Solid.antt =====
-- Texts after which a separator is due: none is empty, and none ends in a byte that opens
-- something.
use nanozap.Base.{
  ℕ, suc, ◌+◌, ◌-◌, ◌/◌, ◌%◌, ◌≡◌, refl, ap, sym, ◌∙◌, Bool, true, false, ◌||◌, some, List, [], ◌∷◌,
  ◌++◌, append_assoc, arith, ltb, ◌==◌, length, length-append, get_or, Bool-cases, inl, inr,
}
use nanozap.Base.Int.{ℤ, pos, negsuc}
use nanozap.Base.Bytes.{bytes}
use nanozap.Buffer.{Buffer, digits, decimal, signed_decimal, trim_newline, len}
use nanozap.Zapcore.Encoder.{
  Externals, Primitive, bool_value, byte_string_value, complex_value, float_value, int_value,
  string_value, uint_value,
}
use nanozap.Zapcore.Json.{opens, primitive_bytes, append_float, quoted}

pub record IsSolid (ex : Externals) (t : List ℕ) : Type 0 where
  pub front : List ℕ
  pub last : ℕ
  pub eq : t ≡ front ++ last ∷ []
  pub closed : opens ex last ≡ false

-- What Go's library prints is never empty and ends in a digit, a letter or a closing character.
pub record PrintsSolid (ex : Externals) : Type 0 where
  pub format_solid : (x : ex.Float) (size : ℕ) → IsSolid ex (ex.format x size)
  pub json_solid :
      (r : ex.Reflected) (s : List ℕ) → ex.to_json r ≡ some s → IsSolid ex (trim_newline s)

-- Whether no separator is due behind a buffer.
abbrev pub is_first : Externals → Buffer → Bool
is_first ex b = len b == 0 || opens ex (get_or b (len b - 1) 0)

get_or-last : (xs : List ℕ) (c : ℕ) → get_or (xs ++ c ∷ []) (length xs) 0 ≡ c
get_or-last [] c = refl
get_or-last (x ∷ xs) c = get_or-last xs c

module _ (ex : Externals) where
  pub is_first-last : (xs : List ℕ) (c : ℕ) → is_first ex (xs ++ c ∷ []) ≡ opens ex c
  is_first-last xs c =
      let longer : len (xs ++ c ∷ []) ≡ suc (length xs) =
        omega (arith, length-append xs (c ∷ [])) in
      let before : suc (length xs) - 1 ≡ length xs = omega arith in
      rw (longer, before, get_or-last xs c) (ground arith)

  pub is_first-after :
      (b : Buffer) {t : List ℕ} (front : List ℕ) (c : ℕ)
      → t ≡ front ++ c ∷ []
      → is_first ex (b ++ t) ≡ opens ex c
  is_first-after b front c e =
      ap (λ t. is_first ex (b ++ t)) e
      ∙ ap (is_first ex) (sym (append_assoc b front (c ∷ [])))
      ∙ is_first-last (b ++ front) c

  pub is_first-solid : (b : Buffer) {t : List ℕ} → IsSolid ex t → is_first ex (b ++ t) ≡ false
  is_first-solid b s = is_first-after b s.front s.last s.eq ∙ s.closed

  pub IsSolid-after : (p : List ℕ) {t : List ℕ} → IsSolid ex t → IsSolid ex (p ++ t)
  IsSolid-after p s = record {
    front = p ++ s.front;
    last = s.last;
    eq = ap (λ t. p ++ t) s.eq ∙ sym (append_assoc p s.front (s.last ∷ []));
    closed = s.closed;
  }

  pub ends_with : (p : List ℕ) (c : ℕ) → opens ex c ≡ false → IsSolid ex (p ++ c ∷ [])
  ends_with p c h = record { front = p; last = c; eq = refl; closed = h }

  digits-IsSolid : (f n : ℕ) → IsSolid ex (digits (suc f) n)
  unfolding digits
  digits-IsSolid f n = elim (Bool-cases (ltb n 10)) [
    | inl e ↦ rw e (ends_with [] (b'0' + n) (ground arith))
    | inr e ↦ rw e (ends_with (digits f (n / 10)) (b'0' + n % 10) (ground arith))
  ]

  signed_decimal-IsSolid : (i : ℤ) → IsSolid ex (signed_decimal i)
  unfolding signed_decimal decimal
  signed_decimal-IsSolid (pos n) = digits-IsSolid 19 n
  signed_decimal-IsSolid (negsuc n) = IsSolid-after (b'-' ∷ []) (digits-IsSolid 19 (suc n))

  quoted-IsSolid : (s : List ℕ) (b : Buffer) → IsSolid ex (quoted ex s b)
  quoted-IsSolid s b = ends_with _ b'"' refl

  pub primitive-IsSolid :
      PrintsSolid ex → (p : Primitive ex) (b : Buffer) → IsSolid ex (primitive_bytes ex p b)
  unfolding primitive_bytes append_float decimal
  primitive-IsSolid h (bool_value true) b = IsSolid-after b (ends_with (bytes "tru") b'e' refl)
  primitive-IsSolid h (bool_value false) b = IsSolid-after b (ends_with (bytes "fals") b'e' refl)
  primitive-IsSolid h (byte_string_value v) b = quoted-IsSolid v b
  primitive-IsSolid h (complex_value r i size) b = ends_with _ b'"' refl
  primitive-IsSolid h (float_value v size) b = elim (Bool-cases (ex.is_nan v)) [
    | inl e ↦ rw e (IsSolid-after b (ends_with (bytes "\"NaN") b'"' refl))
    | inr e ↦ rw e (elim (Bool-cases (ex.is_inf v)) [
      | inl e ↦ rw e (IsSolid-after b (ends_with (bytes "\"+Inf") b'"' refl))
      | inr e ↦ rw e (elim (Bool-cases (ex.is_neg_inf v)) [
        | inl e ↦ rw e (IsSolid-after b (ends_with (bytes "\"-Inf") b'"' refl))
        | inr e ↦ rw e (IsSolid-after b (h.format_solid v size))
      ])
    ])
  ]
  primitive-IsSolid h (int_value w v) b = IsSolid-after b (signed_decimal-IsSolid v)
  primitive-IsSolid h (string_value v) b = quoted-IsSolid v b
  primitive-IsSolid h (uint_value w v) b = IsSolid-after b (digits-IsSolid 19 v)
