-- ===== src/Zapcore/Entry.antt =====
-- zapcore/entry.go: the entry, and the entry with the cores that agreed to write it. A nil
-- `*CheckedEntry` is `none`. `Write` tells whether it gives the entry back to the pool; what the
-- pool does with it is in Entry/Pool. The cores are a parameter with what each does to the state of
-- the outputs.
pub mod Pool
pub mod Once
mod Tests
use nanozap.Base.{ℕ, Bool, true, false, Option, none, some, List, [], ◌∷◌, ◌++◌, if◌then◌else◌}
use nanozap.Base.Int.{ℤ}
use nanozap.Zapcore.Level.{Level}

pub record Entry : Type 0 where
  pub level : Level
  pub time : ℤ
  pub message : List ℕ
  pub req_id : ℕ

pub data CheckWriteAction : Type 0 where
  write_then_noop : CheckWriteAction
  write_then_panic : CheckWriteAction
  write_then_fatal : CheckWriteAction

-- What a call does besides returning: nothing, a panic with a message, or `os.Exit(1)`.
pub data Ending : Type 0 where
  returns : Ending
  panics : List ℕ → Ending
  exits : Ending

-- The `switch` at the end of `Write`.
abbrev pub ending : CheckWriteAction → List ℕ → Ending
ending write_then_noop msg = returns
ending write_then_panic msg = panics msg
ending write_then_fatal msg = exits

pub record CheckedEntry (C : Type 0) : Type 0 where
  pub entry : Entry
  pub dirty : Bool
  pub should : CheckWriteAction
  pub cores : List C

module _ {C : Type 0} where
  -- `getCheckedEntry` and the assignment of the entry; what the pool hands out is reset.
  abbrev pub get_checked_entry : Entry → CheckedEntry C
  get_checked_entry ent = record {
    entry = ent;
    dirty = false;
    should = write_then_noop;
    cores = [];
  }

  unfoldable pub add_core : Entry → C → Option (CheckedEntry C) → CheckedEntry C
  add_core ent core none = record (get_checked_entry ent) { cores = core ∷ [] }
  add_core ent core (some ce) = record ce { cores = ce.cores ++ core ∷ [] }

  unfoldable pub should : Entry → CheckWriteAction → Option (CheckedEntry C) → CheckedEntry C
  should ent action none = record (get_checked_entry ent) { should = action }
  should ent action (some ce) = record ce { should = action }

  module _ {S : Type 0} (core_write : C → Entry → S → S) where
    -- The loop over the cores. The errors are collected and then dropped.
    unfoldable pub write_cores : List C → Entry → S → S
    write_cores [] ent s = s
    write_cores (c ∷ cs) ent s = write_cores cs ent (core_write c ent s)

    -- `Write` past its test of nil; the Boolean is whether `putCheckedEntry` is called.
    unfoldable pub write_entry : CheckedEntry C → S → Ending × CheckedEntry C × Bool × S
    write_entry ce s = if ce.dirty then (returns, ce, false, s) else (
      ending ce.should ce.entry.message,
      record ce { dirty = true },
      true,
      write_cores ce.cores ce.entry s,
    )

    unfoldable pub write : Option (CheckedEntry C) → S → Ending × Option (CheckedEntry C) × Bool × S
    write none s = (returns, none, false, s)
    write (some ce) s = let (e, ce', put, s') = write_entry ce s in (e, some ce', put, s')
