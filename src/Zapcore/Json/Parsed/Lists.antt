-- ===== src/Zapcore/Json/Parsed/Lists.antt =====
-- How the parser reads a list of elements or of members, given how it reads the first one and the
-- rest.
use mathlib.Core.Path.{subst⁻¹}
use nanozap.Base.{
  ℕ, zero, suc, ◌+◌, ◌*◌, ◌<◌, ◌≡◌, refl, ap, ◌∙◌, Bool, true, false, some, List, ◌∷◌, ◌++◌,
  append_assoc, length, length-append, by_option, arith,
}
use nanozap.Buffer.{trim_newline}
use nanozap.Zapcore.Encoder.{
  Externals, EncoderConfig, string_value, Values, nil, cons, cons_reflected, Members, end, member,
  binary_member, reflected_member, namespace,
}
use nanozap.Zapcore.Json.Quoted.Scrub.{scrub}
use nanozap.Zapcore.Json.Printer.{
  sep, if_encoded, print_key, print_primitive, print_value, print_values, print_members,
}
use nanozap.Zapcore.Json.Parser.{
  Json, Elements, element, Entries, entry, object, no_entries, parse_elements, parse_entries, after,
}
use nanozap.Zapcore.Json.Parser.Literals.{ends_literal}
use nanozap.Zapcore.Json.Meaning.{Begins, Reads}
use nanozap.Zapcore.Json.Parsed.Pieces.{spend, IsText}
use nanozap.Zapcore.Json.Parsed.Steps.{entries_end, parse_value-object, element_step, entry_step}

-- The braces of the objects that namespaces opened.
unfoldable pub closers : ℕ → List ℕ → List ℕ
closers zero t = t
closers (suc n) t = closers n (b'}' ∷ t)

closers-ends : (n : ℕ) (t : List ℕ) → ends_literal (closers n (b'}' ∷ t)) ≡ true
unfolding closers
closers-ends zero t = refl
closers-ends (suc n) t = closers-ends n (b'}' ∷ t)

Begins-length : (t : List ℕ) → Begins t → 0 < length t
Begins-length t begins = subst⁻¹ (λ t. 0 < length t) begins.eq (omega arith)

element_bounds :
    (a t c : List ℕ) (f : ℕ)
    → 0 < length t
    → 2 * length (a ++ t ++ c) + 1 < suc f
    → (2 * length t < f) × (2 * length c + 1 < f)
element_bounds a t c f some_t h =
    let total = length-append (a ++ t) c in
    let front = length-append a t in (omega arith, omega arith)

entry_bounds :
    (a k t c : List ℕ) (f : ℕ)
    → 0 < length k
    → 2 * length (a ++ k ++ t ++ c) + 1 < suc f
    → (2 * length t < f) × (2 * length c + 1 < f)
entry_bounds a k t c f some_k h =
    let total = length-append (a ++ k ++ t) c in
    let value = length-append (a ++ k) t in
    let front = length-append a k in (omega arith, omega arith)

namespace_bounds :
    (a k c : List ℕ) (f : ℕ)
    → 0 < length k
    → 2 * length (a ++ k ++ b'{' ∷ c) + 1 < suc f
    → 2 * length c + 2 < f
namespace_bounds a k c f some_k h =
    let total = length-append (a ++ k) (b'{' ∷ c) in let front = length-append a k in omega arith

module _ (ex : Externals) (cfg : EncoderConfig ex) (spaced : Bool) where
  element-ends :
      (spaced : Bool) (t c d : List ℕ)
      → ends_literal (sep ex cfg spaced false ++ t ++ c ++ d) ≡ true
  element-ends true t c d = refl
  element-ends false t c d = refl

  entry-ends :
      (spaced : Bool) (k t c d : List ℕ)
      → ends_literal (sep ex cfg spaced false ++ k ++ t ++ c ++ d) ≡ true
  entry-ends true k t c d = refl
  entry-ends false k t c d = refl

  pub cons-read :
      (first : Bool) (t c : List ℕ) (j : Json) (es : Elements) (rest : List ℕ)
      → IsText t j
      → ends_literal (c ++ b']' ∷ rest) ≡ true
      → ((f : ℕ)
          → 2 * length c + 1 < f
          → parse_elements f false (c ++ b']' ∷ rest) ≡ some (es, rest))
      → (f : ℕ) → 2 * length (sep ex cfg spaced first ++ t ++ c) + 1 < f
      → parse_elements f first (sep ex cfg spaced first ++ t ++ c ++ b']' ∷ rest)
        ≡ some (element j es, rest)
  cons-read first t c j es rest (reads, begins) ends more =
      spend
        (λ f.
          parse_elements f first (sep ex cfg spaced first ++ t ++ c ++ b']' ∷ rest)
          ≡ some (element j es, rest))
        λ f enough.
          let tail = c ++ b']' ∷ rest in
          let (enough_t, enough_c) =
            element_bounds (sep ex cfg spaced first) t c f (Begins-length t begins) enough in
          ap (parse_elements (suc f) first) (simp append_assoc refl)
          ∙ element_step ex cfg spaced f first t tail tail j begins (reads tail f ends enough_t)
          ∙ ap (λ o. after o λ es t. some (element j es, t)) (more f enough_c)

  pub member-read :
      (first : Bool) (k t c tail : List ℕ) (j : Json) (ms : Entries) (rest : List ℕ)
      → Reads t j
      → ends_literal (c ++ tail) ≡ true
      → ((f : ℕ) → 2 * length c + 1 < f → parse_entries f false (c ++ tail) ≡ some (ms, rest))
      → (f : ℕ)
      → 2 * length (sep ex cfg spaced first ++ print_key ex cfg spaced k ++ t ++ c) + 1 < f
      → parse_entries f first
          (sep ex cfg spaced first ++ print_key ex cfg spaced k ++ t ++ c ++ tail)
        ≡ some (entry (scrub k) j ms, rest)
  member-read first k t c tail j ms rest reads ends more =
      let before = sep ex cfg spaced first in
      let key = print_key ex cfg spaced k in
      spend
        (λ f.
          parse_entries f first (before ++ key ++ t ++ c ++ tail)
          ≡ some (entry (scrub k) j ms, rest))
        λ f enough.
          let (enough_t, enough_c) = entry_bounds before key t c f (omega arith) enough in
          ap (parse_entries (suc f) first) (simp append_assoc refl)
          ∙ entry_step ex cfg spaced f first k (t ++ (c ++ tail)) (c ++ tail) j
              (reads (c ++ tail) f ends enough_t)
          ∙ ap (λ o. after o λ ms t. some (entry (scrub k) j ms, t)) (more f enough_c)

  -- Nothing follows a namespace.
  pub namespace-read :
      (first : Bool) (k c tail : List ℕ) (ms : Entries) (rest : List ℕ)
      → ((f : ℕ) → 2 * length c + 1 < f → parse_entries f true (c ++ tail) ≡ some (ms, b'}' ∷ rest))
      → (f : ℕ)
      → 2 * length (sep ex cfg spaced first ++ print_key ex cfg spaced k ++ b'{' ∷ c) + 1 < f
      → parse_entries f first
          (sep ex cfg spaced first ++ print_key ex cfg spaced k ++ b'{' ∷ c ++ tail)
        ≡ some (entry (scrub k) (object ms) no_entries, rest)
  namespace-read first k c tail ms rest more =
      let before = sep ex cfg spaced first in
      let key = print_key ex cfg spaced k in
      spend
        (λ f.
          parse_entries f first (before ++ key ++ b'{' ∷ c ++ tail)
          ≡ some (entry (scrub k) (object ms) no_entries, rest))
        λ f enough.
          spend
            (λ f.
              parse_entries (suc f) first (before ++ key ++ b'{' ∷ c ++ tail)
              ≡ some (entry (scrub k) (object ms) no_entries, rest))
            (λ f enough'.
              ap (parse_entries (suc (suc f)) first) (simp append_assoc refl)
              ∙ entry_step ex cfg spaced (suc f) first k (b'{' ∷ (c ++ tail)) (b'}' ∷ rest)
                  (object ms)
                  (parse_value-object f (c ++ tail)
                    ∙ ap (λ o. after o λ ms t. some (object ms, t)) (more f (omega arith)))
              ∙ ap (λ o. after o λ more t. some (entry (scrub k) (object ms) more, t))
                  (entries_end f false rest))
            f (namespace_bounds before key c f (omega arith) enough)

  -- A list that goes on does so with a comma; otherwise its bracket follows.
  pub print_values-ends :
      (vs : Values ex) (rest : List ℕ)
      → ends_literal (print_values ex cfg spaced false vs ++ b']' ∷ rest) ≡ true
  unfolding print_values
  print_values-ends nil rest = refl
  print_values-ends (cons v vs) rest =
      element-ends spaced (print_value ex cfg spaced v) (print_values ex cfg spaced false vs)
        (b']' ∷ rest)
  print_values-ends (cons_reflected r vs) rest =
      by_option
        (λ o.
          ends_literal (
            if_encoded o (print_values ex cfg spaced false vs) (λ s.
              sep ex cfg spaced false ++ trim_newline s ++ print_values ex cfg spaced false vs)
            ++ b']' ∷ rest)
          ≡ true)
        (ex.to_json r) (λ e. print_values-ends vs rest)
        λ s e.
          element-ends spaced (trim_newline s) (print_values ex cfg spaced false vs) (b']' ∷ rest)

  pub print_members-ends :
      (ms : Members ex) (n : ℕ) (rest : List ℕ)
      → ends_literal (print_members ex cfg spaced false ms ++ closers n (b'}' ∷ rest)) ≡ true
  unfolding print_members
  print_members-ends end n rest = closers-ends n rest
  print_members-ends (member k v ms) n rest =
      entry-ends spaced (print_key ex cfg spaced k) (print_value ex cfg spaced v)
        (print_members ex cfg spaced false ms) (closers n (b'}' ∷ rest))
  print_members-ends (binary_member k s ms) n rest =
      entry-ends spaced (print_key ex cfg spaced k)
        (print_primitive ex cfg spaced (string_value (ex.base64 s)))
        (print_members ex cfg spaced false ms) (closers n (b'}' ∷ rest))
  print_members-ends (namespace k ms) n rest =
      element-ends spaced (print_key ex cfg spaced k) (b'{' ∷ print_members ex cfg spaced true ms)
        (closers n (b'}' ∷ rest))
  print_members-ends (reflected_member k r ms) n rest =
      by_option
        (λ o.
          ends_literal (
            if_encoded o (print_members ex cfg spaced false ms) (λ s.
              sep ex cfg spaced false
              ++ print_key ex cfg spaced k
              ++ trim_newline s
              ++ print_members ex cfg spaced false ms)
            ++ closers n (b'}' ∷ rest))
          ≡ true)
        (ex.to_json r) (λ e. print_members-ends ms n rest)
        λ s e.
          entry-ends spaced (print_key ex cfg spaced k) (trim_newline s)
            (print_members ex cfg spaced false ms) (closers n (b'}' ∷ rest))
