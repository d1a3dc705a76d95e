-- ===== src/Logger/Loop.antt =====
-- nanozap.go: one message in the hands of the background loop.
use nanozap.Base.{ℕ, zero, suc, Bool, true, false, none, some, List, ◌≡◌, refl, if◌then◌else◌}
use nanozap.Base.Int.{ℤ, pos, negsuc}
use nanozap.Zapcore.Level.{Level}
use nanozap.Zapcore.Entry
use nanozap.Zapcore.Entry.{Entry, Ending, returns, panics, exits, should, add_core}
use nanozap.Zapcore.Core
use nanozap.Zapcore.Core.{IoCore, Encoding, WriteSyncer}
use nanozap.Logger.{LogBody, Logger, set_terminal, check, core_write, process}

-- How a message at a level ends: only `PanicLevel` and `FatalLevel` do more than return.
unfoldable pub ends : Level → List ℕ → Ending
ends (pos (suc (suc (suc (suc zero))))) msg = panics msg
ends (pos (suc (suc (suc (suc (suc zero)))))) msg = exits
ends l msg = returns

abbrev pub entry_of : ℤ → LogBody → Entry
entry_of now lb = record { level = lb.lvl; time = now; message = lb.msg; req_id = lb.reqid }

module _ {E F S : Type 0} (encoding : Encoding E F) (out : WriteSyncer S) where
  -- The checked entry of a core that agrees, or not, to write an entry.
  write-set_terminal :
      (ent : Entry) (l : Level) (agrees : Bool) (c : IoCore E) (s : S)
      → let (e, ce, put, s') =
          Entry.write
            (core_write encoding out)
            (set_terminal ent l (if agrees then some (add_core ent c none) else none))
            s in
        ◌≡◌ {A = Ending × S}
          (e, s')
          (ends l ent.message, if agrees then core_write encoding out c ent s else s)
  unfolding set_terminal ends Entry.write Entry.write_entry Entry.write_cores should add_core
  write-set_terminal ent (negsuc n) true c s = refl
  write-set_terminal ent (negsuc n) false c s = refl
  write-set_terminal ent (pos zero) true c s = refl
  write-set_terminal ent (pos zero) false c s = refl
  write-set_terminal ent (pos (suc zero)) true c s = refl
  write-set_terminal ent (pos (suc zero)) false c s = refl
  write-set_terminal ent (pos (suc (suc zero))) true c s = refl
  write-set_terminal ent (pos (suc (suc zero))) false c s = refl
  write-set_terminal ent (pos (suc (suc (suc zero)))) true c s = refl
  write-set_terminal ent (pos (suc (suc (suc zero)))) false c s = refl
  write-set_terminal ent (pos (suc (suc (suc (suc zero))))) true c s = refl
  write-set_terminal ent (pos (suc (suc (suc (suc zero))))) false c s = refl
  write-set_terminal ent (pos (suc (suc (suc (suc (suc zero)))))) true c s = refl
  write-set_terminal ent (pos (suc (suc (suc (suc (suc zero)))))) false c s = refl
  write-set_terminal ent (pos (suc (suc (suc (suc (suc (suc n))))))) true c s = refl
  write-set_terminal ent (pos (suc (suc (suc (suc (suc (suc n))))))) false c s = refl

  -- A message is written if and only if the core is enabled at its level; whether it then panics or
  -- exits depends on its level alone, so a message at a disabled level ends the program as well.
  pub process_lem :
      (now : ℤ) (lb : LogBody) (log : Logger E) (s : S)
      → process encoding out now lb log s ≡ (
        ends lb.lvl lb.msg,
        if Core.enabled log.core lb.lvl
            then core_write encoding out log.core (entry_of now lb) s
            else s,
      )
  unfolding process check Core.check
  process_lem now lb log s =
      write-set_terminal (entry_of now lb) lb.lvl (Core.enabled log.core lb.lvl) log.core s
