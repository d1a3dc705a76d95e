-- ===== src/Logger/Life.antt =====
-- nanozap.go: the start and the stop of the background loop. `Close` cancels the context that the
-- loop looks at before each turn, and waits for the loop to be over; callers go on logging all the
-- while.
pub mod Stops
mod Tests
use nanozap.Base.{ℕ, suc, ◌≡◌, Bool, true, false, Option, some, List, [], ◌∷◌, if◌then◌else◌}
use nanozap.Base.Int.{ℤ}
use nanozap.Zapcore.Level.{Level}
use nanozap.Zapcore.Core.{Encoding, WriteSyncer}
use nanozap.Zapcore.Entry.{returns}
use nanozap.Logger.{LogBody, Logger, push_body, write_loop}

-- Where the loop is: before its `select`, past it, or over.
pub data Phase : Type 0 where
  at_select : Phase
  in_turn : Phase
  over : Phase

-- A logger with its output, and whether `Close` has cancelled the context, and has returned.
pub record Life (E S : Type 0) : Type 0 where
  pub log : Logger E
  pub out : S
  pub phase : Phase
  pub cancelled : Bool
  pub closed : Bool

module _ {E F S : Type 0} (encoding : Encoding E F) (out : WriteSyncer S) where
  -- `startLoop`
  abbrev pub start_loop : Logger E → S → Life E S
  start_loop log s = record {
    log = log;
    out = s;
    phase = at_select;
    cancelled = false;
    closed = false;
  }

  -- `stopLoop`: `loopCancel`
  unfoldable pub cancel : Life E S → Life E S
  cancel l = record l { cancelled = true }

  -- `loopWg.Wait` has returned.
  unfoldable pub wait : Life E S → Life E S
  wait l = record l { closed = true }

  -- The `select` of `writeLoop`
  unfoldable pub look : Life E S → Life E S
  look l = record l { phase = if l.cancelled then over else in_turn }

  -- The end of a turn of the loop
  unfoldable pub turn : Logger E → S → Life E S → Life E S
  turn log s l = record l { log = log; out = s; phase = at_select }

  -- `Wait` returns once the loop is over; a turn is one of `write_loop` that does not end the
  -- program.
  pub data Step (l : Life E S) : Life E S → Type 0 where
    cancels : Step l (cancel l)
    waits : l.cancelled ≡ true → l.phase ≡ over → Step l (wait l)
    looks : l.phase ≡ at_select → Step l (look l)
    turns :
        (now : ℤ) (log : Logger E) (s : S)
        → l.phase ≡ in_turn
        → write_loop encoding out (now ∷ []) l.log l.out ≡ some (returns, log, s)
        → Step l (turn log s l)
    logs :
        (log : Logger E) (old : Option LogBody) (pooled : LogBody) (lvl : Level) (reqid : ℕ)
        (msg : List ℕ)
        → push_body pooled lvl reqid msg l.log ≡ some (old, log)
        → Step l (record l { log = log })

  pub data Steps : Life E S → Life E S → Type 0 where
    stays : {l : Life E S} → Steps l l
    goes : {l m l' : Life E S} → Step l m → Steps m l' → Steps l l'

  -- The steps that the loop itself makes.
  unfoldable pub loop_steps : {l l' : Life E S} → Steps l l' → ℕ
  loop_steps stays = 0
  loop_steps (goes (looks q) p) = suc (loop_steps p)
  loop_steps (goes (turns now log s q e) p) = suc (loop_steps p)
  loop_steps (goes cancels p) = loop_steps p
  loop_steps (goes (waits c q) p) = loop_steps p
  loop_steps (goes (logs log old pooled lvl reqid msg e) p) = loop_steps p
