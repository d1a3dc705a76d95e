-- ===== src/Zapcore/Entry/Pool.antt =====
-- zapcore/entry.go: checked entries by reference, and the pool that `Write` gives them back to. A
-- reference is a number; the pool holds references, and what a caller kept and what the pool holds
-- may be the same.
use nanozap.Base.{ℕ, none, List, ◌∷◌, ◌==◌, if◌then◌else◌}
use nanozap.Zapcore.Entry.{Entry, CheckedEntry, Ending, add_core, write_entry}

pub record Entries (C : Type 0) : Type 0 where
  pub heap : ℕ → CheckedEntry C
  pub pool : List ℕ

abbrev pub put_checked_entry : ℕ → List ℕ → List ℕ
put_checked_entry i pool = i ∷ pool

module _ {C : Type 0} where
  abbrev pub update : ℕ → CheckedEntry C → (ℕ → CheckedEntry C) → ℕ → CheckedEntry C
  update i ce heap j = if j == i then ce else heap j

  -- `AddCore` on a nil reference, where the pool hands out `i` and keeps `rest`.
  unfoldable pub add_core_new : Entry → C → ℕ → List ℕ → Entries C → Entries C
  add_core_new ent core i rest es = record es {
    heap = update i (add_core ent core none) es.heap;
    pool = rest;
  }

  module _ {S : Type 0} (core_write : C → Entry → S → S) where
    -- `Write` through a reference
    unfoldable pub write_at : ℕ → Entries C → S → Ending × Entries C × S
    write_at i es s =
        let (e, ce, put, s') = write_entry core_write (es.heap i) s in
        (
          e,
          record es {
            heap = update i ce es.heap;
            pool = if put then put_checked_entry i es.pool else es.pool;
          },
          s',
        )
