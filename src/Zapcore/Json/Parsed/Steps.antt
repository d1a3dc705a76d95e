-- ===== src/Zapcore/Json/Parsed/Steps.antt =====
-- How the parser reads one element of an array and one member of an object.
use nanozap.Base.{
  ℕ, zero, suc, ◌≡◌, refl, ap, sym, ◌∙◌, Bool, true, false, Option, some, List, [], ◌∷◌, ◌++◌,
  append_assoc, ◌==◌,
}
use nanozap.Zapcore.Encoder.{Externals, EncoderConfig}
use nanozap.Zapcore.Json.Escape.{safe_add_string, quote}
use nanozap.Zapcore.Json.Quoted.Scrub.{scrub, read_string-scrub}
use nanozap.Zapcore.Json.Printer.{print_key, sep}
use nanozap.Zapcore.Json.Parser.{
  Json, array, object, Elements, no_elements, element, Entries, no_entries, entry, is_space,
  skip_space, parse_value, parse_elements, parse_entries, parse_key, after,
}
use nanozap.Zapcore.Json.Parser.Literals.{skip_space-kept}
use nanozap.Zapcore.Json.Meaning.{Begins}

value_space : (f : ℕ) (t : List ℕ) → parse_value f (b' ' ∷ t) ≡ parse_value f t
unfolding parse_value skip_space
value_space zero t = refl
value_space (suc f) t = refl

key_space : (t : List ℕ) → parse_key (b' ' ∷ t) ≡ parse_key t
unfolding parse_key skip_space
key_space t = refl

pub parse_value-array :
    (f : ℕ) (t : List ℕ)
    → parse_value (suc f) (b'[' ∷ t)
      ≡ after (parse_elements f true t) λ es rest. some (array es, rest)
unfolding parse_value skip_space
parse_value-array f t = refl

pub parse_value-object :
    (f : ℕ) (t : List ℕ)
    → parse_value (suc f) (b'{' ∷ t)
      ≡ after (parse_entries f true t) λ ms rest. some (object ms, rest)
unfolding parse_value skip_space
parse_value-object f t = refl

pub elements_end :
    (f : ℕ) (first : Bool) (rest : List ℕ)
    → parse_elements (suc f) first (b']' ∷ rest) ≡ some (no_elements, rest)
unfolding parse_value skip_space
elements_end f first rest = refl

pub entries_end :
    (f : ℕ) (first : Bool) (rest : List ℕ)
    → parse_entries (suc f) first (b'}' ∷ rest) ≡ some (no_entries, rest)
unfolding parse_value skip_space
entries_end f first rest = refl

-- What an element does to the elements behind it.
abbrev pub behind_element : ℕ → Json → List ℕ → Option (Elements × List ℕ)
behind_element f j rest = after (parse_elements f false rest) λ es end. some (element j es, end)

abbrev pub behind_entry : ℕ → List ℕ → Json → List ℕ → Option (Entries × List ℕ)
behind_entry f k j rest = after (parse_entries f false rest) λ ms end. some (entry k j ms, end)

-- The first element, whose text begins with `c`.
first_element :
    (f c : ℕ) (t rest : List ℕ) (j : Json)
    → is_space c ≡ false
    → c == b']' ≡ false
    → parse_value f (c ∷ t) ≡ some (j, rest)
    → parse_elements (suc f) true (c ∷ t) ≡ behind_element f j rest
unfolding parse_value
first_element f c t rest j no_space no_end e =
    rw (skip_space-kept c t no_space, parse_value) (rw (no_end, e) refl)

later_element :
    (f : ℕ) (t rest : List ℕ) (j : Json)
    → parse_value f t ≡ some (j, rest)
    → parse_elements (suc f) false (b',' ∷ t) ≡ behind_element f j rest
unfolding parse_value skip_space
later_element f t rest j e = rw (e, parse_elements) refl

first_entry :
    (f : ℕ) (t k colon rest : List ℕ) (j : Json)
    → parse_key (quote ∷ t) ≡ some (k, colon)
    → parse_value f colon ≡ some (j, rest)
    → parse_entries (suc f) true (quote ∷ t) ≡ behind_entry f k j rest
unfolding parse_value skip_space
first_entry f t k colon rest j ek e = rw (ek, parse_entries) (rw e refl)

later_entry :
    (f : ℕ) (t k colon rest : List ℕ) (j : Json)
    → parse_key t ≡ some (k, colon)
    → parse_value f colon ≡ some (j, rest)
    → parse_entries (suc f) false (b',' ∷ t) ≡ behind_entry f k j rest
unfolding parse_value skip_space
later_entry f t k colon rest j ek e = rw (ek, parse_entries) (rw e refl)

key_colon :
    (k t : List ℕ)
    → parse_key (quote ∷ safe_add_string k [] ++ quote ∷ b':' ∷ t) ≡ some (scrub k, t)
unfolding parse_key skip_space
key_colon k t = rw (read_string-scrub k (b':' ∷ t), parse_key) refl

module _ (ex : Externals) (cfg : EncoderConfig ex) where
  -- An element and what is read before it.
  pub element_step :
      (spaced : Bool) (f : ℕ) (first : Bool) (t text rest : List ℕ) (j : Json)
      → Begins t
      → parse_value f (t ++ text) ≡ some (j, rest)
      → parse_elements (suc f) first (sep ex cfg spaced first ++ (t ++ text))
        ≡ behind_element f j rest
  element_step spaced f true t text rest j begins e =
      ap (λ t. parse_elements (suc f) true (t ++ text)) begins.eq
      ∙ first_element f begins.first (begins.behind ++ text) rest j begins.no_space begins.no_end
          (ap (λ t. parse_value f (t ++ text)) (sym begins.eq) ∙ e)
  element_step true f false t text rest j begins e =
      later_element f (b' ' ∷ (t ++ text)) rest j (value_space f (t ++ text) ∙ e)
  element_step false f false t text rest j begins e = later_element f (t ++ text) rest j e

  key-read :
      (spaced : Bool) (f : ℕ) (k text rest : List ℕ) (j : Json)
      → parse_value f text ≡ some (j, rest)
      → (colon : List ℕ) × (parse_key (print_key ex cfg spaced k ++ text) ≡ some (scrub k, colon))
        × (parse_value f colon ≡ some (j, rest))
  key-read true f k text rest j e = (
    b' ' ∷ text,
    ap (λ t. parse_key (quote ∷ t)) (append_assoc (safe_add_string k []) _ text)
        ∙ key_colon k (b' ' ∷ text),
    value_space f text ∙ e,
  )
  key-read false f k text rest j e = (
    text,
    ap (λ t. parse_key (quote ∷ t)) (append_assoc (safe_add_string k []) _ text) ∙ key_colon k text,
    e,
  )

  -- A member and what is read before it.
  pub entry_step :
      (spaced : Bool) (f : ℕ) (first : Bool) (k text rest : List ℕ) (j : Json)
      → parse_value f text ≡ some (j, rest)
      → parse_entries (suc f) first (sep ex cfg spaced first ++ (print_key ex cfg spaced k ++ text))
        ≡ behind_entry f (scrub k) j rest
  entry_step spaced f true k text rest j e =
      let (colon, ek, ev) = key-read spaced f k text rest j e in
      first_entry f _ (scrub k) colon rest j ek ev
  entry_step true f false k text rest j e =
      let (colon, ek, ev) = key-read true f k text rest j e in
      later_entry f (b' ' ∷ (print_key ex cfg true k ++ text)) (scrub k) colon rest j
        (key_space (print_key ex cfg true k ++ text) ∙ ek) ev
  entry_step false f false k text rest j e =
      let (colon, ek, ev) = key-read false f k text rest j e in
      later_entry f (print_key ex cfg false k ++ text) (scrub k) colon rest j ek ev
