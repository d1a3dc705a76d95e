-- ===== src/System/Tests.antt =====
-- Two messages through the ring, the encoder and a rotation over a disk that takes all bytes.
use nanozap.Base.{
  ℕ, ◌≡◌, refl, false, none, List, some, [], ◌∷◌, ◌++◌, length, take_of_le, arith, sym, ap,
}
use nanozap.Base.Int.{ℤ, pos, leb_ℤ}
use nanozap.Base.Bytes.{bytes}
use nanozap.RandRing.{fresh, reload}
use nanozap.RandRing.Valid
use nanozap.RandRing.Fifo.{fresh-InStep}
use nanozap.Zaproll.BufIo.{Writer, IsWriter}
use nanozap.Zaproll.BufIo.Write.Healthy.{NeverFails}
use nanozap.Zaproll.Backup.Tests.{list_heap}
use nanozap.Zaproll.Rotation.{Os}
use nanozap.Zaproll.Rotation.Counters.{IsValid}
use nanozap.Zaproll.Rotation.Tests.{opened, system, opened-IsValid}
use nanozap.Zapcore.Level.{error_level, warn_level, info_level}
use nanozap.Zapcore.Encoder.Sample.{library}
use nanozap.Zapcore.Json.{JsonEncoder}
use nanozap.Zapcore.Entry.{returns}
use nanozap.Logger.{LogBody, Logger, write_loop}
use nanozap.Logger.Loop.{ends}
use nanozap.Logger.Deliver.{Quiet, log_all}
use nanozap.System.{json_encoding, Files, all_bytes, log_file}
use nanozap.System.Lines.{lines, log_all-lines}

abbrev pub disk : Writer (List ℕ)
disk w p = (length p, none, w ++ p)

pub disk-IsWriter : IsWriter disk (λ w. w)
disk-IsWriter = record {
  bounded = λ w p. omega arith;
  complete = λ w p h. refl;
  appended = λ w p. ap (λ t. w ++ t) (sym (take_of_le (length p) p (omega arith)));
}

abbrev digits : ℤ → List ℕ
digits l = bytes "9"

abbrev encoder : JsonEncoder library
encoder = record {
  config = record {
    message_key = bytes "msg";
    level_key = [];
    time_key = [];
    req_id_key = [];
    line_ending = [];
    encode_level = λ l. [];
    encode_time = λ t. [];
    encode_duration = λ d. [];
  };
  buf = [];
  spaced = false;
  open_namespaces = 0;
}

-- The logger once its loop has looked at the new ring.
abbrev running : Logger (JsonEncoder library)
running = record {
  core = record { enabler = λ l. leb_ℤ info_level l; enc = encoder };
  ring = reload (fresh 2);
}

abbrev messages : List LogBody
messages =
    record { lvl = warn_level; msg = bytes "up"; reqid = 1 }
    ∷ record { lvl = error_level; msg = bytes "down"; reqid = 2 }
    ∷ []

abbrev clock : List ℤ
clock = pos 1 ∷ pos 2 ∷ []

quiet : Quiet messages
unfolding ends
quiet = (refl, (refl, tt))

pub running-IsValid : Valid.IsValid 2 running.ring
running-IsValid = omega arith

abbrev pub answers : ℕ → Os (List ℕ)
answers i = system

abbrev pub start : Files (List ℕ)
start = record { closed = []; rotation = opened; calls = 0 }

abbrev pub pooled : LogBody
pooled = record { lvl = error_level; msg = []; reqid = 0 }

log_all-lines_example :
    (logged after : Logger (JsonEncoder library)) × (s' : Files (List ℕ)) × (log_all pooled messages
        running
      ≡ some logged)
    × (write_loop
          (json_encoding library digits)
          (log_file list_heap (λ w. w) disk answers)
          clock
          logged
          start
        ≡ some (returns, after, s'))
    × IsValid list_heap s'.rotation
    × (s'.rotation.buf.err ≡ none
        → start.rotation.buf.err ≡ none
          × (all_bytes list_heap (λ w. w) disk answers s'
              ≡ all_bytes list_heap (λ w. w) disk answers start
                ++ lines library digits running.core clock messages))
    × (NeverFails disk → start.rotation.buf.err ≡ none → s'.rotation.buf.err ≡ none)
log_all-lines_example =
    log_all-lines list_heap (λ w. w) disk answers disk-IsWriter (λ i w e. cc) library digits pooled
      messages clock running start (fresh-InStep running-IsValid) (omega arith) (omega arith) quiet
      (omega arith) opened-IsValid
