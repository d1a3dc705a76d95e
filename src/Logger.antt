-- ===== src/Logger.antt =====
-- nanozap.go and bodypool.go: the logger, its pooled messages, and its background loop. The core is
-- the one of zapcore/core.go. `fmt.Sprintf`, which `Debugf` and its like call first, gives the
-- message; the clock gives the time of an entry. An operation is `none` where the ring is.
pub mod Loop
pub mod Deliver
pub mod Pool
pub mod Life
mod Tests
use nanozap.Base.{ℕ, zero, suc, Bool, Option, none, some, List, [], ◌∷◌, if◌then◌else◌}
use nanozap.Base.Int.{ℤ, pos}
use nanozap.RandRing
use nanozap.RandRing.{Ring, new_rand_ring}
use nanozap.Zapcore.Level.{
  Level, debug_level, info_level, warn_level, error_level, panic_level, fatal_level,
}
use nanozap.Zapcore.Entry
use nanozap.Zapcore.Entry.{
  Entry, CheckedEntry, Ending, returns, panics, exits, write_then_panic, write_then_fatal, should,
}
use nanozap.Zapcore.Core
use nanozap.Zapcore.Core.{IoCore, Encoding, WriteSyncer}

-- `logBody`, without the pool that it goes back to.
pub record LogBody : Type 0 where
  pub lvl : Level
  pub msg : List ℕ
  pub reqid : ℕ

unfoldable pub reset : LogBody → LogBody
reset b = record b { lvl = info_level; msg = []; reqid = 0 }

-- `get`, whatever the pool hands out.
abbrev pub get_log_body : LogBody → LogBody
get_log_body pooled = reset pooled

pub record Logger (E : Type 0) : Type 0 where
  pub core : IoCore E
  pub ring : Ring LogBody

module _ {E : Type 0} where
  -- `New`, past the panic of a nil core; `none` where the ring would be too large.
  unfoldable pub new : IoCore E → Option (Logger E)
  new core = elim (new_rand_ring {A = LogBody} 12) [
    | none ↦ none
    | some r ↦ some (record { core = core; ring = r })
  ]

  -- A body with its three fields set goes into the ring: the body that it pushed out, if any.
  unfoldable pub push_body :
      LogBody → Level → ℕ → List ℕ → Logger E → Option (Option LogBody × Logger E)
  push_body pooled lvl reqid msg log =
      elim (RandRing.push (record (get_log_body pooled) { msg = msg; lvl = lvl; reqid = reqid })
        log.ring) [ none ↦ none | some (old, r) ↦ some (old, record log { ring = r }) ]

  module _ (pooled : LogBody) (reqid : ℕ) (msg : List ℕ) (log : Logger E) where
    unfoldable pub debug : Option (Option LogBody × Logger E)
    debug =
        let pushed = push_body pooled debug_level reqid msg log in
        if Core.enabled log.core debug_level then pushed else some (none, log)

    abbrev pub info : Option (Option LogBody × Logger E)
    info = push_body pooled info_level reqid msg log

    abbrev pub warn : Option (Option LogBody × Logger E)
    warn = push_body pooled warn_level reqid msg log

    abbrev pub error : Option (Option LogBody × Logger E)
    error = push_body pooled error_level reqid msg log

    abbrev pub panic : Option (Option LogBody × Logger E)
    panic = push_body pooled panic_level reqid msg log

    abbrev pub fatal : Option (Option LogBody × Logger E)
    fatal = push_body pooled fatal_level reqid msg log

  -- The terminal behaviour that `check` sets up: `switch ent.Level`.
  unfoldable pub set_terminal :
      Entry → Level → Option (CheckedEntry (IoCore E)) → Option (CheckedEntry (IoCore E))
  set_terminal ent (pos (suc (suc (suc (suc zero))))) ce = some (should ent write_then_panic ce)
  set_terminal ent (pos (suc (suc (suc (suc (suc zero)))))) ce =
      some (should ent write_then_fatal ce)
  set_terminal ent l ce = ce

  unfoldable pub check : ℤ → Level → List ℕ → ℕ → Logger E → Option (CheckedEntry (IoCore E))
  check now lvl msg reqid log =
      let ent : Entry = record { level = lvl; time = now; message = msg; req_id = reqid } in
      set_terminal ent lvl (Core.check ent none log.core)

  module _ {F S : Type 0} (encoding : Encoding E F) (out : WriteSyncer S) where
    abbrev pub core_write : IoCore E → Entry → S → S
    core_write c ent s = (Core.write encoding out c ent s).1

    -- The body of the loop on a message.
    unfoldable pub process : ℤ → LogBody → Logger E → S → Ending × S
    process now lb log s =
        let (e, ce, put, s') = Entry.write core_write (check now lb.lvl lb.msg lb.reqid log) s in
        (e, s')

    -- `writeLoop` for as many turns as there are times; then it is cancelled. It is over before
    -- that where a message ends the program.
    unfoldable pub write_loop : List ℤ → Logger E → S → Option (Ending × Logger E × S)
    write_loop [] log s = some (returns, log, s)
    write_loop (now ∷ times) log s = elim (RandRing.try_pop log.ring) [
      | none ↦ none
      | some (none, r) ↦ write_loop times (record log { ring = r }) s
      | some (some lb, r) ↦
          let log' = record log { ring = r } in
          let (e, s') = process now lb log s in
          elim e [
            | returns ↦ write_loop times log' s'
            | panics m ↦ some (panics m, log', s')
            | exits ↦ some (exits, log', s')
          ]
    ]

    abbrev pub sync : Logger E → S → Bool × S
    sync log s = Core.sync encoding out log.core s
