-- ===== src/AtomicLevel.antt =====
-- level.go: the level that can be changed while loggers use it. The shared `atomic.Int32` is a
-- number that the calls read and write; each of them makes one access, so an interleaving of calls
-- is a sequence of them. `none` is a nil pointer.
pub mod Words
mod Tests
use nanozap.Base.{ℕ, ◌-◌, ◌%◌, ◌^◌, Bool, Option, none, some, List, ltb, if◌then◌else◌}
use nanozap.Base.Int.{ℤ, pos, negsuc}
use nanozap.Base.Ints.{int8, int32}
use nanozap.Zapcore.Level
use nanozap.Zapcore.Level.{Level, info_level, TextError, unmarshal_text}

abbrev pub AtomicLevel : Type 0
AtomicLevel = ℤ

abbrev pub level : AtomicLevel → Level
level a = int8 a

abbrev pub set_level : Level → AtomicLevel → AtomicLevel
set_level l a = int32 l

abbrev pub new_atomic_level : AtomicLevel
new_atomic_level = int32 info_level

abbrev pub new_atomic_level_at : Level → AtomicLevel
new_atomic_level_at l = set_level l new_atomic_level

unfoldable pub enabled : AtomicLevel → Level → Bool
enabled a l = Level.enabled (level a) l

unfoldable pub string : (ℤ → List ℕ) → AtomicLevel → List ℕ
string decimal a = Level.string decimal (level a)

-- `MarshalText`
abbrev pub marshal_text : (ℤ → List ℕ) → AtomicLevel → List ℕ
marshal_text decimal a = Level.marshal_text decimal (level a)

-- `new_int32` where the pointer is nil.
abbrev pub allocated : Option AtomicLevel → AtomicLevel
allocated none = pos 0
allocated (some a) = a

-- The end of `UnmarshalText`, after the text was parsed into a level that was 0.
unfoldable pub store_parsed :
    Option TextError × Option Level → AtomicLevel → Option TextError × AtomicLevel
store_parsed (some e, l) a = (some e, a)
store_parsed (none, some l) a = (none, set_level l a)
store_parsed (none, none) a = (none, a)

-- `UnmarshalText`: the error, and the level, which is allocated where there is none.
unfoldable pub unmarshal :
    (List ℕ → List ℕ) → List ℕ → Option AtomicLevel → Option TextError × AtomicLevel
unmarshal to_lower text a = store_parsed (unmarshal_text to_lower text (some (pos 0))) (allocated a)
