-- ===== src/Zapcore/Core.antt =====
-- zapcore/core.go: the core that encodes an entry and writes it to a `WriteSyncer`. The encoder and
-- the `WriteSyncer` are interfaces, so they are parameters here: the encoder's state with its
-- fields, and what writing and syncing do to the state of the output.
use nanozap.Base.{ℕ, Bool, true, false, Option, none, some, List, if◌then◌else◌}
use nanozap.Base.Int.{ltb_ℤ}
use nanozap.Zapcore.Level.{Level, error_level}
use nanozap.Zapcore.Entry.{Entry, CheckedEntry, add_core}

pub record Encoding (E F : Type 0) : Type 0 where
  pub add_fields : F → E → E
  pub encode_entry : E → Entry → Option (List ℕ)

-- Whether the write failed, and the output afterwards; the error of `Sync` comes with its state
-- too.
pub record WriteSyncer (S : Type 0) : Type 0 where
  pub write : List ℕ → S → Bool × S
  pub sync : S → Bool × S

pub record IoCore (E : Type 0) : Type 0 where
  pub enabler : Level → Bool
  pub enc : E

module _ {E : Type 0} where
  abbrev pub enabled : IoCore E → Level → Bool
  enabled c lvl = c.enabler lvl

  unfoldable pub check :
      Entry → Option (CheckedEntry (IoCore E)) → IoCore E → Option (CheckedEntry (IoCore E))
  check ent ce c = if c.enabler ent.level then some (add_core ent c ce) else ce

  module _ {F S : Type 0} (encoding : Encoding E F) (out : WriteSyncer S) where
    abbrev pub with_fields : F → IoCore E → IoCore E
    with_fields fields c = record c { enc = encoding.add_fields fields c.enc }

    abbrev pub sync : IoCore E → S → Bool × S
    sync c s = out.sync s

    -- Whether there was an error, and the output.
    unfoldable pub write : IoCore E → Entry → S → Bool × S
    write c ent s = elim (encoding.encode_entry c.enc ent) [
      | none ↦ (true, s)
      | some buf ↦
          let (failed, s₁) = out.write buf s in
          if failed
          then (true, s₁)
          else if ltb_ℤ error_level ent.level
          then (false, (sync c s₁).1)
          else (false, s₁)
    ]
