-- ===== src/Zapcore/Json/RoundTrip/Context.antt =====
-- The bytes of an encoder's context, where `EncodeEntry` puts them.
use mathlib.Core.Path.{subst⁻¹}
use nanozap.Base.{
  ℕ, ◌≡◌, refl, ap, sym, ◌∙◌, Bool, true, false, List, [], ◌∷◌, ◌++◌, append_assoc, append-nil,
  by_option, arith, ltb, if◌then◌else◌, Bool-cases, inl, inr,
}
use nanozap.Buffer.{Buffer, len, trim_newline, append_string}
use nanozap.Zapcore.Encoder.{
  Externals, EncoderConfig, string_value, Members, end, member, binary_member, reflected_member,
  namespace,
}
use nanozap.Zapcore.Json.{JsonEncoder, on_buf, add_element_separator}
use nanozap.Zapcore.Json.Printer.{
  print_value, print_members, sep, print_key, if_encoded, print_primitive,
}
use nanozap.Zapcore.Json.Printed.{is_first}
use nanozap.Zapcore.Json.Printed.Steps.{at, separator-at}

module _ (ex : Externals) (cfg : EncoderConfig ex) (spaced : Bool) where
  abbrev state : Buffer → ℕ → JsonEncoder ex
  state = at ex cfg spaced

  -- A text behind another one, with a separator if there is any text.
  abbrev led : Bool → List ℕ → List ℕ
  led first t = if ltb 0 (len t) then sep ex cfg spaced first ++ t else []

  led-entry :
      (first : Bool) (k t c : List ℕ)
      → sep ex cfg spaced first ++ print_key ex cfg spaced k ++ t ++ c
        ≡ led first (print_key ex cfg spaced k ++ t ++ c)
  led-entry first k t c =
      let some_text : ltb 0 (len (print_key ex cfg spaced k ++ t ++ c)) ≡ true = ground arith in
      rw some_text (simp append_assoc refl)

  led-namespace :
      (first : Bool) (k t : List ℕ)
      → sep ex cfg spaced first ++ print_key ex cfg spaced k ++ t
        ≡ led first (print_key ex cfg spaced k ++ t)
  led-namespace first k t =
      let some_text : ltb 0 (len (print_key ex cfg spaced k ++ t)) ≡ true = ground arith in
      rw some_text (simp append_assoc refl)

  -- What is printed first, behind something else.
  print_members-led :
      (first : Bool) (ms : Members ex)
      → print_members ex cfg spaced first ms ≡ led first (print_members ex cfg spaced true ms)
  unfolding print_members
  print_members-led first end = refl
  print_members-led first (member k v ms) =
      led-entry first k (print_value ex cfg spaced v) (print_members ex cfg spaced false ms)
  print_members-led first (binary_member k v ms) =
      led-entry first k (print_primitive ex cfg spaced (string_value (ex.base64 v)))
        (print_members ex cfg spaced false ms)
  print_members-led first (reflected_member k r ms) =
      let later = print_members ex cfg spaced false ms in
      let printed : Bool → List ℕ = λ first. print_members ex cfg spaced first ms in
      by_option
        (λ o.
          if_encoded o (printed first)
            (λ s. sep ex cfg spaced first ++ print_key ex cfg spaced k ++ trim_newline s ++ later)
          ≡ led first (
              if_encoded o (printed true)
                (λ s. print_key ex cfg spaced k ++ trim_newline s ++ later)))
        (ex.to_json r) (λ e. print_members-led first ms)
        λ s e. led-entry first k (trim_newline s) later
  print_members-led first (namespace k ms) =
      led-namespace first k (b'{' ∷ print_members ex cfg spaced true ms)

  -- The text of the context goes where its calls would have put it.
  pub context-at :
      (ctx : Members ex) (b : Buffer) (n : ℕ)
      → (let text = print_members ex cfg spaced true ctx in
          if ltb 0 (len text)
          then on_buf ex (append_string text) (add_element_separator ex (state b n))
          else state b n)
        ≡ state (b ++ print_members ex cfg spaced (is_first ex b) ctx) n
  context-at ctx b n =
      let text = print_members ex cfg spaced true ctx in
      let lead = sep ex cfg spaced (is_first ex b) in
      subst⁻¹
        (λ t.
          (if ltb 0 (len text)
            then on_buf ex (append_string text) (add_element_separator ex (state b n))
            else state b n)
          ≡ state (b ++ t) n)
        (print_members-led (is_first ex b) ctx)
        (elim (Bool-cases (ltb 0 (len text))) [
          | inl e ↦ rw e (
              ap (on_buf ex (append_string text))
                (separator-at ex cfg spaced (is_first ex b) b n refl)
              ∙ ap (λ b. state b n) (append_assoc b lead text))
          | inr e ↦ rw e (ap (λ b. state b n) (sym (append-nil b)))
        ])
