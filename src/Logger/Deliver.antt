-- ===== src/Logger/Deliver.antt =====
-- nanozap.go: from the callers of the logger to its output.
use nanozap.Base.{
  ℕ, ◌+◌, ◌-◌, ◌^◌, ◌≤◌, ◌<◌, ◌≡◌, refl, ap, sym, ◌∙◌, Option, none, some, List, [], ◌∷◌, ◌++◌,
  append_assoc, append-nil, length, length-append, drop_of_le, if◌then◌else◌, arith, drop,
}
use nanozap.Base.Int.{ℤ}
use mathlib.Core.Path.{subst}
use nanozap.RandRing.{Ring, try_pop}
use nanozap.RandRing.Valid.{pushed, taken, push_lem}
use nanozap.RandRing.Fifo.{InStep, try_pop-head, try_pop-empty, take-InStep, push-InStep, old_none}
use nanozap.Zapcore.Core
use nanozap.Zapcore.Core.{IoCore, Encoding, WriteSyncer}
use nanozap.Zapcore.Entry.{Ending, returns}
use nanozap.Logger.{LogBody, Logger, push_body, process, write_loop, core_write}
use nanozap.Logger.Loop.{ends, entry_of, process_lem}

-- None of the messages ends the program.
abbrev pub Quiet : List LogBody → Type 0
Quiet [] = Unit
Quiet (lb ∷ lbs) = (ends lb.lvl lb.msg ≡ returns) × Quiet lbs

-- The calls for these messages, one after the other, past the guard of `Debug`.
unfoldable pub log_all : {E : Type 0} → LogBody → List LogBody → Logger E → Option (Logger E)
log_all pooled [] log = some log
log_all pooled (lb ∷ lbs) log = elim (push_body pooled lb.lvl lb.reqid lb.msg log) [
  | none ↦ none
  | some (old, log') ↦ log_all pooled lbs log'
]

module _ {E F S : Type 0} (encoding : Encoding E F) (out : WriteSyncer S) where
  -- The output after the messages at whose level the core is enabled, one at each time.
  unfoldable pub deliver : IoCore E → List ℤ → List LogBody → S → S
  deliver c times [] s = s
  deliver c [] (lb ∷ lbs) s = s
  deliver c (now ∷ times) (lb ∷ lbs) s =
      deliver c times lbs
        (if Core.enabled c lb.lvl then core_write encoding out c (entry_of now lb) s else s)

  loop-idle :
      (now : ℤ) (times : List ℤ) (log : Logger E) (s : S) (r : Ring LogBody)
      → try_pop log.ring ≡ some (none, r)
      → write_loop encoding out (now ∷ times) log s
        ≡ write_loop encoding out times (record log { ring = r }) s
  unfolding write_loop
  loop-idle now times log s r e = rw (e, write_loop) refl

  loop-message :
      (now : ℤ) (times : List ℤ) (log : Logger E) (s s' : S) (r : Ring LogBody) (lb : LogBody)
      → try_pop log.ring ≡ some (some lb, r)
      → process encoding out now lb log s ≡ (returns, s')
      → write_loop encoding out (now ∷ times) log s
        ≡ write_loop encoding out times (record log { ring = r }) s'
  unfolding write_loop
  loop-message now times log s s' r lb e p =
      rw (e, write_loop)
        (rw (ap (λ (x : Ending × S). x.0) p) (
          ap (write_loop encoding out times (record log { ring = r }))
            (ap (λ (x : Ending × S). x.1) p)))

  loop_delivers :
      {n : ℕ} (times : List ℤ) (log : Logger E) (s : S) (lbs : List LogBody)
      → InStep n log.ring lbs
      → Quiet lbs
      → (log' : Logger E) × (write_loop encoding out times log s
          ≡ some (returns, log', deliver log.core times lbs s))
        × InStep n log'.ring (drop (length times) lbs)
  unfolding write_loop deliver
  loop_delivers [] log s [] c quiet = (log, refl, c)
  loop_delivers [] log s (lb ∷ lbs) c quiet = (log, refl, c)
  loop_delivers (now ∷ times) log s [] c quiet =
      let (log', e, c') = loop_delivers times log s [] c quiet in
      (
        log',
        loop-idle now times log s log.ring (try_pop-empty c) ∙ e,
        subst (InStep _ log'.ring) (drop_of_le (length times) [] (omega arith)) c',
      )
  loop_delivers (now ∷ times) log s (lb ∷ lbs) c (q, quiet) =
      let s' =
        if Core.enabled log.core lb.lvl
        then core_write encoding out log.core (entry_of now lb) s
        else s in
      let (log', e, c') =
        loop_delivers times (record log { ring = taken log.ring }) s' lbs (take-InStep c) quiet in
      (
        log',
        loop-message now times log s s' (taken log.ring) lb (try_pop-head c)
              (process_lem encoding out now lb log s ∙ ap (λ e. (e, s')) q)
            ∙ e,
        c',
      )

  push_body-room :
      {n : ℕ} (pooled lb : LogBody) (queued : List LogBody) (log : Logger E)
      → InStep n log.ring queued
      → length queued < 2 ^ n
      → push_body pooled lb.lvl lb.reqid lb.msg log
        ≡ some (none, record log { ring = pushed lb log.ring })
  unfolding push_body
  push_body-room pooled lb queued log c room =
      rw (push_lem lb c.valid, push_body) (rw (old_none c room) refl)

  log_all-InStep :
      {n : ℕ} (pooled : LogBody) (lbs queued : List LogBody) (log : Logger E)
      → InStep n log.ring queued
      → length queued + length lbs ≤ 2 ^ n
      → log.ring.read_index + length queued + length lbs < 2 ^ 64 - 1
      → (r : Ring LogBody) × (log_all pooled lbs log ≡ some (record log { ring = r }))
        × InStep n r (queued ++ lbs)
  unfolding log_all
  log_all-InStep pooled [] queued log c room ahead =
      (log.ring, refl, subst (InStep _ log.ring) (sym (append-nil queued)) c)
  log_all-InStep pooled (lb ∷ lbs) queued log c room ahead =
      let longer = length-append queued (lb ∷ []) in
      let (r, e, c') =
        log_all-InStep pooled lbs (queued ++ lb ∷ []) (record log { ring = pushed lb log.ring })
          (push-InStep lb c (omega arith) (omega arith)) (omega arith) (omega arith) in
      (
        r,
        rw (push_body-room pooled lb queued log c (omega arith), log_all) e,
        subst (InStep _ r) (append_assoc queued (lb ∷ []) lbs) c',
      )

  -- Where the ring is in step with the empty queue, has room for all the messages, and no index
  -- wraps: messages that are logged one after the other, and that end no program, are written by
  -- the loop in the order in which they were logged, those at a disabled level left out. After at
  -- least as many turns as there were messages the ring is in step with the empty queue again.
  pub log_all-deliver :
      {n : ℕ} (pooled : LogBody) (lbs : List LogBody) (times : List ℤ) (log : Logger E) (s : S)
      → InStep n log.ring []
      → length lbs ≤ 2 ^ n
      → log.ring.read_index + length lbs < 2 ^ 64 - 1
      → Quiet lbs
      → length lbs ≤ length times
      → (logged after : Logger E) × (log_all pooled lbs log ≡ some logged)
        × (write_loop encoding out times logged s
            ≡ some (returns, after, deliver log.core times lbs s))
        × InStep n after.ring []
  log_all-deliver pooled lbs times log s c room ahead quiet turns =
      let (r, e, c') = log_all-InStep pooled lbs [] log c (omega arith) (omega arith) in
      let (after, e', c'') = loop_delivers times (record log { ring = r }) s lbs c' quiet in
      (
        record log { ring = r },
        after,
        e,
        e',
        subst (InStep _ after.ring) (drop_of_le (length times) lbs turns) c'',
      )
