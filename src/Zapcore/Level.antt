-- ===== src/Zapcore/Level.antt =====
-- zapcore/level.go: the levels, their names and the parser of a name. A `Level` is the `int8` of
-- the source as a signed integer. `fmt.Sprintf` of `%d` and `bytes.ToLower` are parameters. A
-- `*Level` is an option: `none` is the nil pointer.
pub mod Names
mod Tests
use nanozap.Base.{
  ℕ, zero, suc, Bool, false, ◌||◌, Option, none, some, List, [], ◌∷◌, ◌++◌, if◌then◌else◌,
}
use nanozap.Base.Int.{ℤ, pos, negsuc, leb_ℤ}
use nanozap.Base.Bytes.{bytes, bytes_eq}

abbrev pub Level : Type 0
Level = ℤ

abbrev pub debug_level : Level
debug_level = negsuc 0

abbrev pub info_level : Level
info_level = pos 0

abbrev pub warn_level : Level
warn_level = pos 1

abbrev pub error_level : Level
error_level = pos 2

abbrev pub dpanic_level : Level
dpanic_level = pos 3

abbrev pub panic_level : Level
panic_level = pos 4

abbrev pub fatal_level : Level
fatal_level = pos 5

module _ (decimal : ℤ → List ℕ) where
  unfoldable pub string : Level → List ℕ
  string (negsuc zero) = bytes "debug"
  string (pos zero) = bytes "info"
  string (pos (suc zero)) = bytes "warn"
  string (pos (suc (suc zero))) = bytes "error"
  string (pos (suc (suc (suc zero)))) = bytes "dpanic"
  string (pos (suc (suc (suc (suc zero))))) = bytes "panic"
  string (pos (suc (suc (suc (suc (suc zero)))))) = bytes "fatal"
  string l = bytes "Level(" ++ decimal l ++ bytes ")"

  unfoldable pub capital_string : Level → List ℕ
  capital_string (negsuc zero) = bytes "DEBUG"
  capital_string (pos zero) = bytes "INFO"
  capital_string (pos (suc zero)) = bytes "WARN"
  capital_string (pos (suc (suc zero))) = bytes "ERROR"
  capital_string (pos (suc (suc (suc zero)))) = bytes "DPANIC"
  capital_string (pos (suc (suc (suc (suc zero))))) = bytes "PANIC"
  capital_string (pos (suc (suc (suc (suc (suc zero)))))) = bytes "FATAL"
  capital_string l = bytes "LEVEL(" ++ decimal l ++ bytes ")"

  abbrev pub marshal_text : Level → List ℕ
  marshal_text l = string l

-- Whether a case of `switch` that lists `names` takes the text.
abbrev pub one_of : List ℕ → List (List ℕ) → Bool
one_of text [] = false
one_of text (n ∷ names) = bytes_eq text n || one_of text names

-- `unmarshalText`: `none` is false, and the level is left as it is.
unfoldable pub unmarshal_name : List ℕ → Option Level
unmarshal_name text =
    if one_of text (bytes "debug" ∷ bytes "DEBUG" ∷ [])
    then some debug_level
    else if one_of text (bytes "info" ∷ bytes "INFO" ∷ [] ∷ [])
    then some info_level
    else if one_of text (bytes "warn" ∷ bytes "WARN" ∷ [])
    then some warn_level
    else if one_of text (bytes "error" ∷ bytes "ERROR" ∷ [])
    then some error_level
    else if one_of text (bytes "dpanic" ∷ bytes "DPANIC" ∷ [])
    then some dpanic_level
    else if one_of text (bytes "panic" ∷ bytes "PANIC" ∷ [])
    then some panic_level
    else if one_of text (bytes "fatal" ∷ bytes "FATAL" ∷ [])
    then some fatal_level
    else none

pub data TextError : Type 0 where
  nil_level : TextError
  unrecognized : List ℕ → TextError

-- `bytes.ToLower`
module _ (to_lower : List ℕ → List ℕ) where
  -- `UnmarshalText`, also as `Set`: the error, if any, and what the pointer points to afterwards.
  unfoldable pub unmarshal_text : List ℕ → Option Level → Option TextError × Option Level
  unmarshal_text text none = (some nil_level, none)
  unmarshal_text text (some l) = elim (unmarshal_name text) [
    | some l' ↦ (none, some l')
    | none ↦ elim (unmarshal_name (to_lower text)) [
      | some l' ↦ (none, some l')
      | none ↦ (some (unrecognized text), some l)
    ]
  ]

abbrev pub enabled : Level → Level → Bool
enabled l lvl = leb_ℤ l lvl
