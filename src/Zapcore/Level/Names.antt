-- ===== src/Zapcore/Level/Names.antt =====
-- zapcore/level.go: the names of levels, and the parser of a name.
use mathlib.Core.Path.{subst}
use nanozap.Base.{
  ◌≢◌, ℕ, ◌+◌, ◌≡◌, refl, ap, sym, ◌∙◌, Bool, true, ◌&&◌, Option, none, some, List, [], ◌∷◌, map,
  if◌then◌else◌, arith, leb, ltb, Bool-cases, Option-cases, inl, inr, ◌⊎◌,
}
use nanozap.Base.Int.{ℤ}
use nanozap.Base.Bytes.{bytes, bytes_eq, eq_of_bytes_eq}
use nanozap.Zapcore.Level.{
  one_of, Level, debug_level, info_level, warn_level, error_level, dpanic_level, panic_level,
  fatal_level, string, capital_string, unmarshal_name, unmarshal_text,
}

-- The levels with a name.
pub data IsNamed : Level → Type 0 where
  is_debug : IsNamed debug_level
  is_info : IsNamed info_level
  is_warn : IsNamed warn_level
  is_error : IsNamed error_level
  is_dpanic : IsNamed dpanic_level
  is_panic : IsNamed panic_level
  is_fatal : IsNamed fatal_level

-- The name of a level, and its name in capitals, is parsed to that level without an error, whatever
-- the level was before.
pub unmarshal-string :
    (decimal : ℤ → List ℕ) (to_lower : List ℕ → List ℕ) (l old : Level)
    → IsNamed l
    → (unmarshal_text to_lower (string decimal l) (some old) ≡ (none, some l))
      × (unmarshal_text to_lower (capital_string decimal l) (some old) ≡ (none, some l))
unfolding unmarshal_text unmarshal_name string capital_string
unmarshal-string decimal to_lower _ old is_debug = (refl, refl)
unmarshal-string decimal to_lower _ old is_info = (refl, refl)
unmarshal-string decimal to_lower _ old is_warn = (refl, refl)
unmarshal-string decimal to_lower _ old is_error = (refl, refl)
unmarshal-string decimal to_lower _ old is_dpanic = (refl, refl)
unmarshal-string decimal to_lower _ old is_panic = (refl, refl)
unmarshal-string decimal to_lower _ old is_fatal = (refl, refl)

-- The lower case of an ASCII byte.
abbrev pub lower_byte : ℕ → ℕ
lower_byte c = if leb 65 c && leb c 90 then c + 32 else c

abbrev pub is_ascii : List ℕ → Bool
is_ascii [] = true
is_ascii (c ∷ s) = ltb c 128 && is_ascii s

-- What `bytes.ToLower` documents of ASCII texts.
abbrev pub LowersAscii : (List ℕ → List ℕ) → Type 0
LowersAscii to_lower = (s : List ℕ) → is_ascii s ≡ true → to_lower s ≡ map lower_byte s

module _ (decimal : ℤ → List ℕ) where
  abbrev Names : List ℕ → Level → Type 0
  Names s l = (s ≡ []) ⊎ (IsNamed l × (map lower_byte s ≡ string decimal l))

  abbrev AllNames : List (List ℕ) → Level → Type 0
  AllNames [] l = Unit
  AllNames (n ∷ names) l = Names n l × AllNames names l

  one_of-Names :
      (s : List ℕ) (names : List (List ℕ)) (l : Level)
      → AllNames names l
      → one_of s names ≡ true
      → Names s l
  one_of-Names s [] l all h = cc
  one_of-Names s (n ∷ names) l (good, all) h = elim (Bool-cases (bytes_eq s n)) [
    | inl e ↦ subst (λ t. Names t l) (sym (eq_of_bytes_eq s n e)) good
    | inr e ↦ one_of-Names s names l all (ground arith)
  ]

  accept :
      (s : List ℕ) (names : List (List ℕ)) (v l : Level) (rest : Option Level)
      → AllNames names v
      → (rest ≡ some l → Names s l)
      → (if one_of s names then some v else rest) ≡ some l
      → Names s l
  accept s names v l rest all go h = elim (Bool-cases (one_of s names)) [
    | inl e ↦ let same : v ≡ l = ground arith in subst (Names s) same (one_of-Names s names v all e)
    | inr e ↦ go (ground arith)
  ]

  unmarshal_name-Names : (s : List ℕ) (l : Level) → unmarshal_name s ≡ some l → Names s l
  unfolding unmarshal_name string
  unmarshal_name-Names s l =
      accept s (bytes "debug" ∷ bytes "DEBUG" ∷ []) debug_level l _
        (inr (is_debug, refl), (inr (is_debug, refl), tt))
        (accept s (bytes "info" ∷ bytes "INFO" ∷ [] ∷ []) info_level l _
          (inr (is_info, refl), (inr (is_info, refl), (inl refl, tt)))
          (accept s (bytes "warn" ∷ bytes "WARN" ∷ []) warn_level l _
            (inr (is_warn, refl), (inr (is_warn, refl), tt))
            (accept s (bytes "error" ∷ bytes "ERROR" ∷ []) error_level l _
              (inr (is_error, refl), (inr (is_error, refl), tt))
              (accept s (bytes "dpanic" ∷ bytes "DPANIC" ∷ []) dpanic_level l _
                (inr (is_dpanic, refl), (inr (is_dpanic, refl), tt))
                (accept s (bytes "panic" ∷ bytes "PANIC" ∷ []) panic_level l _
                  (inr (is_panic, refl), (inr (is_panic, refl), tt))
                  (accept s (bytes "fatal" ∷ bytes "FATAL" ∷ []) fatal_level l _
                    (inr (is_fatal, refl), (inr (is_fatal, refl), tt))
                    (λ (e : none ≡ some l). cc)))))))

  unmarshal_name-string : (l : Level) → IsNamed l → unmarshal_name (string decimal l) ≡ some l
  unfolding unmarshal_name string
  unmarshal_name-string _ is_debug = refl
  unmarshal_name-string _ is_info = refl
  unmarshal_name-string _ is_warn = refl
  unmarshal_name-string _ is_error = refl
  unmarshal_name-string _ is_dpanic = refl
  unmarshal_name-string _ is_panic = refl
  unmarshal_name-string _ is_fatal = refl

  string-nonempty : (l : Level) → IsNamed l → [] ≢ string decimal l
  unfolding string
  string-nonempty _ is_debug e = cc
  string-nonempty _ is_info e = cc
  string-nonempty _ is_warn e = cc
  string-nonempty _ is_error e = cc
  string-nonempty _ is_dpanic e = cc
  string-nonempty _ is_panic e = cc
  string-nonempty _ is_fatal e = cc

  -- If `bytes.ToLower` lowers ASCII texts as documented, any ASCII text that is a level's name but
  -- for the case of its letters is parsed to that level.
  pub unmarshal-any_case :
      (to_lower : List ℕ → List ℕ)
      → LowersAscii to_lower
      → (s : List ℕ) (l old : Level) → IsNamed l
      → is_ascii s ≡ true
      → map lower_byte s ≡ string decimal l
      → unmarshal_text to_lower s (some old) ≡ (none, some l)
  unfolding unmarshal_text
  unmarshal-any_case to_lower lowers s l old named ascii e =
      elim (Option-cases (unmarshal_name s)) [
        | inl fails ↦
            let again : unmarshal_name (to_lower s) ≡ some l =
              ap unmarshal_name (lowers s ascii ∙ e) ∙ unmarshal_name-string l named in
            rw (fails, again, unmarshal_text) refl
        | inr (l', done) ↦ elim (unmarshal_name-Names s l' done) [
          | inl nothing ↦ absurd (string-nonempty l named (ap (map lower_byte) (sym nothing) ∙ e))
          | inr (named', e') ↦
              let same : some l' ≡ some l =
                sym (unmarshal_name-string l' named')
                ∙ ap unmarshal_name (sym e' ∙ e)
                ∙ unmarshal_name-string l named in
              rw (done, same, unmarshal_text) refl
        ]
      ]
