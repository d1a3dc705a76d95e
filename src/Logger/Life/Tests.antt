-- ===== src/Logger/Life/Tests.antt =====
-- A loop that is stopped while it is in a turn, and one that is stopped before a message is logged.
use nanozap.Base.{ℕ, ◌+◌, true, false, none, some, List, [], ◌∷◌, ◌++◌, ◌≡◌, refl}
use nanozap.Base.Int.{pos, leb_ℤ}
use nanozap.Base.Bytes.{bytes}
use nanozap.RandRing
use nanozap.RandRing.{fresh, reload, try_pop, take_next}
use nanozap.Zapcore.Level.{info_level, error_level}
use nanozap.Zapcore.Core
use nanozap.Zapcore.Core.{Encoding, WriteSyncer}
use nanozap.Zapcore.Entry
use nanozap.Logger.{LogBody, Logger, push_body, write_loop, process, check, reset, set_terminal}
use nanozap.Logger.Life.{
  Life, in_turn, start_loop, cancel, look, wait, Steps, stays, goes, cancels, waits, looks, logs,
  loop_steps,
}
use nanozap.Logger.Life.Stops.{steps_left, close_ends, closed_silent}

abbrev messages : Encoding (List ℕ) (List ℕ)
messages = record { add_fields = λ f e. e ++ f; encode_entry = λ e ent. some (e ++ ent.message) }

abbrev console : WriteSyncer (List ℕ)
console = record { write = λ p s. (false, s ++ p); sync = λ s. (false, s ++ 0 ∷ []) }

abbrev pooled : LogBody
pooled = record { lvl = info_level; msg = []; reqid = 0 }

-- The logger once its loop has looked at the new ring.
abbrev empty : Logger (List ℕ)
empty = record {
  core = record { enabler = λ l. leb_ℤ info_level l; enc = bytes ">" };
  ring = reload (fresh 2);
}

abbrev logged : Logger (List ℕ)
logged = record empty {
  ring = record (empty.ring) {
    write_index = 0;
    buckets =
        some (record { lvl = error_level; msg = bytes "no"; reqid = 2 }) ∷ none ∷ none ∷ none ∷ [];
  };
}

logged_lem : push_body pooled error_level 2 (bytes "no") empty ≡ some (none, logged)
unfolding push_body RandRing.push reset
logged_lem = refl

abbrev stopping : Life (List ℕ) (List ℕ)
stopping = record { log = logged; out = []; phase = in_turn; cancelled = true; closed = false }

abbrev emptied : Logger (List ℕ)
emptied = record logged {
  ring = record (logged.ring) { read_index = 1; buckets = none ∷ none ∷ none ∷ none ∷ [] };
}

close_ends_example :
    ((l' : Life (List ℕ) (List ℕ)) × Steps messages console stopping l' × (l'.closed ≡ true))
    × ((l' : Life (List ℕ) (List ℕ)) (p : Steps messages console stopping l')
        → loop_steps messages console p + steps_left l'.phase ≡ steps_left stopping.phase)
unfolding write_loop try_pop take_next process check set_terminal Entry.write Entry.write_entry
    Entry.should Entry.write_cores Entry.add_core Core.write Core.check
close_ends_example = close_ends messages console stopping (pos 1) emptied (bytes ">no") refl refl

-- `Close` on a loop that has had no turn, and what the loop was then.
abbrev begun : Life (List ℕ) (List ℕ)
begun = start_loop messages console empty []

abbrev closed : Life (List ℕ) (List ℕ)
closed = wait messages console (look messages console (cancel messages console begun))

closed-Steps : Steps messages console begun closed
unfolding cancel look
closed-Steps = goes cancels (goes (looks refl) (goes (waits refl refl) stays))

abbrev later : Life (List ℕ) (List ℕ)
later = record closed { log = logged }

later-Steps : Steps messages console closed later
unfolding cancel look wait
later-Steps = goes (logs logged none pooled error_level 2 (bytes "no") logged_lem) stays

closed_silent_example : later.out ≡ closed.out
unfolding wait
closed_silent_example = closed_silent messages console empty [] closed-Steps refl later-Steps
