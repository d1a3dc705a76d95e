-- ===== src/Zapcore/Json/Parsed.antt =====
-- How the parser reads the text of any value.
pub mod Lists
pub mod Pieces
pub mod Steps
use mathlib.Core.Path.{subst, subst⁻¹}
use nanozap.Base.{
  ℕ, suc, ◌+◌, ◌*◌, ◌<◌, ◌≡◌, refl, ap, ap₂, ◌∙◌, Bool, true, false, some, List, [], ◌∷◌, ◌++◌,
  append_assoc, append-nil, length, length-append, by_option, arith,
}
use nanozap.Buffer.{trim_newline}
use nanozap.Zapcore.Encoder.{
  Externals, EncoderConfig, Primitive, string_value, Value, primitive, time_value, duration_value,
  array_value, object_value, Values, nil, cons, cons_reflected, Members, end, member, binary_member,
  reflected_member, namespace,
}
use nanozap.Zapcore.Json.Quoted.Scrub.{scrub}
use nanozap.Zapcore.Json.Printer.{
  sep, if_encoded, or_number, print_primitive, print_key, print_primitives, print_value,
  print_values, print_members, opened_value, opened_values, opened_members,
}
use nanozap.Zapcore.Json.Parser.{
  string, array, object, Elements, no_elements, Entries, no_entries, parse_value, parse_elements,
  parse_entries, after,
}
use nanozap.Zapcore.Json.Meaning.{
  PrintsJson, json_primitive, json_calls, add_element, add_entry, json_value, json_values,
  json_members, IsSingle, IsClosed, AllClosed, MembersClosed,
}
use nanozap.Zapcore.Json.Parsed.Pieces.{spend, IsText, primitive-IsText}
use nanozap.Zapcore.Json.Parsed.Steps.{
  parse_value-array, parse_value-object, elements_end, entries_end,
}
use nanozap.Zapcore.Json.Parsed.Lists.{
  closers, cons-read, member-read, namespace-read, print_values-ends, print_members-ends,
}

module _ (ex : Externals) (prints : PrintsJson ex) (cfg : EncoderConfig ex) (spaced : Bool) where
  -- What `AppendObject` does not close, a closed value does not open.
  mutual
    unfolding IsClosed opened_value

    opened_value-zero :
        (v : Value ex) → IsClosed ex prints cfg spaced v → opened_value ex cfg spaced v ≡ 0
    opened_value-zero (primitive p) h = refl
    opened_value-zero (time_value t) h = refl
    opened_value-zero (duration_value d) h = refl
    opened_value-zero (array_value vs) h = opened_values-zero vs h
    opened_value-zero (object_value ms) (h, hs) = h

    opened_values-zero :
        (vs : Values ex) → AllClosed ex prints cfg spaced vs → opened_values ex cfg spaced vs ≡ 0
    opened_values-zero nil h = refl
    opened_values-zero (cons v vs) (h, hs) =
        ap₂ (λ m n. m + n) (opened_value-zero v h) (opened_values-zero vs hs)
    opened_values-zero (cons_reflected r vs) h = opened_values-zero vs h

  single-IsText :
      (ps : List (Primitive ex))
      → IsSingle ex prints cfg spaced ps
      → IsText (print_primitives ex cfg spaced true ps) (json_calls ex prints cfg spaced ps)
  unfolding print_primitives
  single-IsText [] h = elim h [ ]
  single-IsText (p ∷ []) h =
      subst⁻¹ (λ t. IsText t (json_primitive ex prints cfg spaced p))
        (append-nil (print_primitive ex cfg spaced p)) (primitive-IsText ex prints cfg spaced p h)
  single-IsText (p ∷ q ∷ ps) h = elim h [ ]

  -- How the parser reads the elements up to their bracket.
  abbrev ReadsElements : Bool → List ℕ → Elements → Type 0
  ReadsElements first t es =
      (rest : List ℕ) (f : ℕ)
      → 2 * length t + 1 < f
      → parse_elements f first (t ++ b']' ∷ rest) ≡ some (es, rest)

  -- How it reads the members up to their brace, behind those of the namespaces they open.
  abbrev ReadsEntries : Bool → ℕ → List ℕ → Entries → Type 0
  ReadsEntries first n t ms =
      (rest : List ℕ) (f : ℕ)
      → 2 * length t + 1 < f
      → parse_entries f first (t ++ closers n (b'}' ∷ rest)) ≡ some (ms, rest)

  array-IsText :
      (t : List ℕ) (es : Elements)
      → ReadsElements true t es
      → IsText (b'[' ∷ t ++ b']' ∷ []) (array es)
  array-IsText t es reads = (
    λ rest f e enough.
        spend (λ f. parse_value f ((b'[' ∷ t ++ b']' ∷ []) ++ rest) ≡ some (array es, rest))
          (λ f enough.
            let total = length-append t (b']' ∷ []) in
            ap (parse_value (suc f)) (simp append_assoc refl)
            ∙ parse_value-array f (t ++ b']' ∷ rest)
            ∙ ap (λ o. after o λ es rest. some (array es, rest)) (reads rest f (omega arith)))
          f enough,
    record { first = b'['; behind = t ++ b']' ∷ []; eq = refl; no_space = refl; no_end = refl },
  )

  object-IsText :
      (t : List ℕ) (ms : Entries)
      → ReadsEntries true 0 t ms
      → IsText (b'{' ∷ t ++ b'}' ∷ []) (object ms)
  unfolding closers
  object-IsText t ms reads = (
    λ rest f e enough.
        spend (λ f. parse_value f ((b'{' ∷ t ++ b'}' ∷ []) ++ rest) ≡ some (object ms, rest))
          (λ f enough.
            let total = length-append t (b'}' ∷ []) in
            ap (parse_value (suc f)) (simp append_assoc refl)
            ∙ parse_value-object f (t ++ b'}' ∷ rest)
            ∙ ap (λ o. after o λ ms rest. some (object ms, rest)) (reads rest f (omega arith)))
          f enough,
    record { first = b'{'; behind = t ++ b'}' ∷ []; eq = refl; no_space = refl; no_end = refl },
  )

  mutual
    unfolding print_value json_value json_primitive IsClosed opened_value closers

    value-IsText :
        (v : Value ex)
        → IsClosed ex prints cfg spaced v
        → IsText (print_value ex cfg spaced v) (json_value ex prints cfg spaced v)
    value-IsText (primitive p) h = primitive-IsText ex prints cfg spaced p h
    value-IsText (time_value t) h = single-IsText (or_number ex cfg spaced t (cfg.encode_time t)) h
    value-IsText (duration_value d) h =
        single-IsText (or_number ex cfg spaced d (cfg.encode_duration d)) h
    value-IsText (array_value vs) h =
        array-IsText (print_values ex cfg spaced true vs) (json_values ex prints cfg spaced vs)
          (values-read vs h true)
    value-IsText (object_value ms) (none_open, h) =
        object-IsText (print_members ex cfg spaced true ms) (json_members ex prints cfg spaced ms) (
          subst
            (λ n.
              ReadsEntries true n (print_members ex cfg spaced true ms)
                (json_members ex prints cfg spaced ms))
            none_open (members-read ms h true))

    values-read :
        (vs : Values ex)
        → AllClosed ex prints cfg spaced vs
        → (first : Bool)
        → ReadsElements first
            (print_values ex cfg spaced first vs)
            (json_values ex prints cfg spaced vs)
    values-read nil h first = λ rest.
        spend (λ f. parse_elements f first (b']' ∷ rest) ≡ some (no_elements, rest))
          λ f enough. elements_end f first rest
    values-read (cons v vs) (h, hs) first = λ rest.
        cons-read ex cfg spaced first (print_value ex cfg spaced v)
          (print_values ex cfg spaced false vs) (json_value ex prints cfg spaced v)
          (json_values ex prints cfg spaced vs) rest (value-IsText v h)
          (print_values-ends ex cfg spaced vs rest) (values-read vs hs false rest)
    values-read (cons_reflected r vs) h first =
        let later = print_values ex cfg spaced false vs in
        let es = json_values ex prints cfg spaced vs in
        by_option
          (λ o.
            ReadsElements first
              (if_encoded o (print_values ex cfg spaced first vs)
                (λ s. sep ex cfg spaced first ++ trim_newline s ++ later))
              (add_element ex prints cfg spaced o (prints.reflected r) es))
          (ex.to_json r) (λ e. values-read vs h first)
          λ s e rest.
            cons-read ex cfg spaced first (trim_newline s) later (prints.reflected r) es rest
              (prints.json_reads r s e) (print_values-ends ex cfg spaced vs rest)
              (values-read vs h false rest)

    pub members-read :
        (ms : Members ex)
        → MembersClosed ex prints cfg spaced ms
        → (first : Bool)
        → ReadsEntries first
            (opened_members ex cfg spaced ms)
            (print_members ex cfg spaced first ms)
            (json_members ex prints cfg spaced ms)
    members-read end h first = λ rest.
        spend (λ f. parse_entries f first (b'}' ∷ rest) ≡ some (no_entries, rest))
          λ f enough. entries_end f first rest
    members-read (member k v ms) (h, hs) first =
        let n = opened_members ex cfg spaced ms in
        let later = print_members ex cfg spaced false ms in
        let closed : opened_value ex cfg spaced v + n ≡ n = omega (arith, opened_value-zero v h) in
        subst⁻¹
          (λ m.
            ReadsEntries first m (print_members ex cfg spaced first (member k v ms))
              (json_members ex prints cfg spaced (member k v ms)))
          closed
          λ rest.
            member-read ex cfg spaced first k (print_value ex cfg spaced v) later
              (closers n (b'}' ∷ rest)) (json_value ex prints cfg spaced v)
              (json_members ex prints cfg spaced ms) rest (value-IsText v h).0
              (print_members-ends ex cfg spaced ms n rest) (members-read ms hs false rest)
    members-read (binary_member k s ms) h first =
        let n = opened_members ex cfg spaced ms in
        λ rest.
          member-read ex cfg spaced first k
            (print_primitive ex cfg spaced (string_value (ex.base64 s)))
            (print_members ex cfg spaced false ms) (closers n (b'}' ∷ rest))
            (string (scrub (ex.base64 s))) (json_members ex prints cfg spaced ms) rest
            (primitive-IsText ex prints cfg spaced (string_value (ex.base64 s)) tt).0
            (print_members-ends ex cfg spaced ms n rest) (members-read ms h false rest)
    members-read (reflected_member k r ms) h first =
        let n = opened_members ex cfg spaced ms in
        let later = print_members ex cfg spaced false ms in
        let entries = json_members ex prints cfg spaced ms in
        by_option
          (λ o.
            ReadsEntries first n
              (if_encoded o (print_members ex cfg spaced first ms) (λ s.
                sep ex cfg spaced first ++ print_key ex cfg spaced k ++ trim_newline s ++ later))
              (add_entry ex prints cfg spaced o (scrub k) (prints.reflected r) entries))
          (ex.to_json r) (λ e. members-read ms h first)
          λ s e rest.
            member-read ex cfg spaced first k (trim_newline s) later (closers n (b'}' ∷ rest))
              (prints.reflected r) entries rest (prints.json_reads r s e).0
              (print_members-ends ex cfg spaced ms n rest) (members-read ms h false rest)
    members-read (namespace k ms) h first = λ rest.
        namespace-read ex cfg spaced first k (print_members ex cfg spaced true ms)
          (closers (opened_members ex cfg spaced ms) (b'}' ∷ b'}' ∷ rest))
          (json_members ex prints cfg spaced ms) rest (members-read ms h true (b'}' ∷ rest))
