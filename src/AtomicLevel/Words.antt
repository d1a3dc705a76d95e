-- ===== src/AtomicLevel/Words.antt =====
-- level.go: a level on its way through the `int32`, and the text of an atomic level.
use nanozap.Base.{ℕ, ◌^◌, ◌≤◌, ◌<◌, ◌≡◌, refl, ap, arith, ◌∙◌, Option, none, List}
use nanozap.Base.Int.{ℤ, pos, pos_part, neg_part}
use nanozap.Base.Ints.{int8, int8-fits, int32-fits}
use nanozap.Zapcore.Level
use nanozap.Zapcore.Level.{Level}
use nanozap.Zapcore.Level.Names
use nanozap.Zapcore.Level.Names.{
  IsNamed, is_debug, is_info, is_warn, is_error, is_dpanic, is_panic, is_fatal,
}
use nanozap.AtomicLevel.{
  AtomicLevel, allocated, store_parsed, level, set_level, enabled, string, marshal_text, unmarshal,
}

-- The range of `int8`.
abbrev pub IsInt8 : ℤ → Type 0
IsInt8 x = (pos_part x < 2 ^ 7) × (neg_part x ≤ 2 ^ 7)

-- What is set is what is read: the level, what it enables, and its name, for any `int8`.
pub level-set_level :
    (decimal : ℤ → List ℕ) (l lvl : Level) (a : AtomicLevel)
    → IsInt8 l
    → (level (set_level l a) ≡ l)
      × (enabled (set_level l a) lvl ≡ Level.enabled l lvl)
      × (string decimal (set_level l a) ≡ Level.string decimal l)
unfolding enabled string
level-set_level decimal l lvl a h =
    let same : level (set_level l a) ≡ l =
      ap int8 (int32-fits l (omega arith) (omega arith))
      ∙ int8-fits l (omega arith) (omega arith) in
    (same, ap (λ m. Level.enabled m lvl) same, ap (Level.string decimal) same)

IsNamed-IsInt8 : (l : Level) → IsNamed l → IsInt8 l
IsNamed-IsInt8 _ is_debug = omega arith
IsNamed-IsInt8 _ is_info = omega arith
IsNamed-IsInt8 _ is_warn = omega arith
IsNamed-IsInt8 _ is_error = omega arith
IsNamed-IsInt8 _ is_dpanic = omega arith
IsNamed-IsInt8 _ is_panic = omega arith
IsNamed-IsInt8 _ is_fatal = omega arith

-- The name of a level is parsed without an error into an atomic level, allocated or not, that
-- prints as that name.
pub unmarshal-string_atomic :
    (decimal : ℤ → List ℕ) (to_lower : List ℕ → List ℕ) (l : Level) (a : Option AtomicLevel)
    → IsNamed l
    → let (e, a') = unmarshal to_lower (Level.string decimal l) a in
      (e ≡ none) × (string decimal a' ≡ Level.string decimal l)
unfolding unmarshal store_parsed
unmarshal-string_atomic decimal to_lower l a n =
    rw ((Names.unmarshal-string decimal to_lower l (pos 0) n).0, store_parsed)
      (refl, (level-set_level decimal l l (allocated a) (IsNamed-IsInt8 l n)).2)

-- An atomic level that was set to a level with a name is copied by its text: what MarshalText gives
-- is parsed without an error into an atomic level, allocated or not, that has the same level and
-- enables the same levels.
pub unmarshal-marshal_text :
    (decimal : ℤ → List ℕ) (to_lower : List ℕ → List ℕ) (l lvl : Level) (from : AtomicLevel)
    (a : Option AtomicLevel)
    → IsNamed l
    → let (e, a') = unmarshal to_lower (marshal_text decimal (set_level l from)) a in
      (e ≡ none) × (level a' ≡ l) × (enabled a' lvl ≡ enabled (set_level l from) lvl)
unfolding unmarshal store_parsed enabled
unmarshal-marshal_text decimal to_lower l lvl from a n =
    let same = (level-set_level decimal l lvl from (IsNamed-IsInt8 l n)).0 in
    let copied = (level-set_level decimal l lvl (allocated a) (IsNamed-IsInt8 l n)).0 in
    rw (same, (Names.unmarshal-string decimal to_lower l (pos 0) n).0, store_parsed)
      (refl, copied, ap (λ m. Level.enabled m lvl) copied)
