-- ===== src/Logger/Tests.antt =====
-- A logger whose output is the list of the texts written, with a 0 for a sync.
use nanozap.Base.{ℕ, false, some, List, [], ◌∷◌, ◌++◌, ◌≡◌, refl, ap, if◌then◌else◌, arith}
use nanozap.Base.Int.{pos, leb_ℤ}
use nanozap.Base.Bytes.{bytes}
use nanozap.RandRing.{fresh, reload}
use nanozap.RandRing.Valid.{IsValid}
use nanozap.RandRing.Fifo.{InStep, fresh-InStep}
use nanozap.Zapcore.Level.{error_level, fatal_level}
use nanozap.Zapcore.Core.{Encoding, WriteSyncer, enabled, write}
use nanozap.Logger.{LogBody, Logger, core_write, process, write_loop}
use nanozap.Zapcore.Entry.{returns}
use nanozap.Logger.Deliver.{Quiet, log_all, deliver, log_all-deliver}
use nanozap.Logger.Loop.{ends, entry_of, process_lem}

abbrev messages : Encoding (List ℕ) (List ℕ)
messages = record { add_fields = λ f e. e ++ f; encode_entry = λ e ent. some (e ++ ent.message) }

abbrev console : WriteSyncer (List ℕ)
console = record { write = λ p s. (false, s ++ p); sync = λ s. (false, s ++ 0 ∷ []) }

abbrev logger : Logger (List ℕ)
logger = record {
  core = record { enabler = λ l. leb_ℤ error_level l; enc = bytes ">" };
  ring = fresh 2;
}

abbrev last_words : LogBody
last_words = record { lvl = fatal_level; msg = bytes "bye"; reqid = 3 }

process_lem_example : process messages console (pos 9) last_words logger [] ≡ (
  ends fatal_level (bytes "bye"),
  if enabled logger.core fatal_level
      then core_write messages console logger.core (entry_of (pos 9) last_words) []
      else [],
)
process_lem_example = process_lem messages console (pos 9) last_words logger []

-- A last message is flushed.
last_words_flushed :
    (process messages console (pos 9) last_words logger []).1 ≡ bytes ">bye" ++ 0 ∷ []
unfolding write
last_words_flushed = ap (λ r. r.1) process_lem_example

abbrev warning : LogBody
warning = record { lvl = pos 1; msg = bytes "hm"; reqid = 1 }

abbrev failure : LogBody
failure = record { lvl = error_level; msg = bytes "no"; reqid = 2 }

-- The logger once its loop has looked at the new ring.
abbrev running : Logger (List ℕ)
running = record logger { ring = reload (fresh 2) }

running-IsValid : IsValid 2 (running.ring)
running-IsValid = omega arith

quiet : Quiet (warning ∷ failure ∷ [])
unfolding ends
quiet = (refl, (refl, tt))

written_in_order :
    deliver messages console running.core (pos 1 ∷ pos 2 ∷ []) (failure ∷ warning ∷ []) []
    ≡ bytes ">no"
unfolding deliver write
written_in_order = refl

log_all-deliver_example :
    (logged after : Logger (List ℕ)) × (log_all failure (warning ∷ failure ∷ []) running
      ≡ some logged)
    × (write_loop messages console (pos 1 ∷ pos 2 ∷ []) logged []
        ≡ some (
          returns,
          after,
          deliver messages console running.core (pos 1 ∷ pos 2 ∷ []) (warning ∷ failure ∷ []) [],
        ))
    × InStep 2 after.ring []
log_all-deliver_example =
    log_all-deliver messages console failure (warning ∷ failure ∷ []) (pos 1 ∷ pos 2 ∷ []) running
      [] (fresh-InStep running-IsValid) (omega arith) (omega arith) quiet (omega arith)
