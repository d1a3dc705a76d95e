-- ===== src/System/Lines.antt =====
-- From a call of the logger to the log files.
use nanozap.Base.{
  ℕ, ◌+◌, ◌-◌, ◌^◌, ◌≤◌, ◌<◌, ◌≡◌, refl, ap, sym, Bool, none, some, List, [], ◌∷◌, ◌++◌, append-nil,
  length, if◌then◌else◌,
}
use mathlib.Core.Path.{subst, subst⁻¹}
use nanozap.Base.Int.{ℤ, ltb_ℤ}
use nanozap.RandRing.Fifo.{InStep}
use nanozap.Zaproll.BufIo.{Writer, IsWriter}
use nanozap.Zaproll.BufIo.Write.Healthy.{NeverFails}
use nanozap.Zaproll.Backup.{HeapPackage}
use nanozap.Zaproll.Rotation.{Os}
use nanozap.Zaproll.Rotation.Counters.{IsValid}
use nanozap.Zaproll.Rotation.Stream.{Fresh}
use nanozap.Zapcore.Level.{error_level}
use nanozap.Zapcore.Entry.{Entry, returns}
use nanozap.Zapcore.Core
use nanozap.Zapcore.Core.{IoCore}
use nanozap.Zapcore.Encoder.{Externals, end}
use nanozap.Zapcore.Json
use nanozap.Zapcore.Json.{JsonEncoder}
use nanozap.Logger.{LogBody, Logger, write_loop, core_write}
use nanozap.Logger.Loop.{entry_of}
use nanozap.Logger.Deliver.{Quiet, log_all, deliver, log_all-deliver}
use nanozap.System.{json_encoding, Files, all_bytes, write_file, sync_file, log_file}
use nanozap.System.Advance.{
  Advances, Advances-trans, either, Advances-if, write_file-Advances, sync_file-Advances, bytes_of,
  core_write-written,
}

module _ (ex : Externals) (digits : ℤ → List ℕ) where
  -- The lines of the messages at whose level the core is enabled, one at each time.
  unfoldable pub lines : IoCore (JsonEncoder ex) → List ℤ → List LogBody → List ℕ
  lines c times [] = []
  lines c [] (lb ∷ lbs) = []
  lines c (now ∷ times) (lb ∷ lbs) =
      (if Core.enabled c lb.lvl
        then Json.encode_entry ex digits c.enc (entry_of now lb) end
        else [])
      ++ lines c times lbs

module _ (h : HeapPackage) {W : Type 0} (content : W → List ℕ) (write_to : Writer W)
    (answers : ℕ → Os W) (io : IsWriter write_to content)
    (fresh : (i : ℕ) → Fresh h content (answers i)) where
  module _ (ex : Externals) (digits : ℤ → List ℕ) where
    abbrev writes : IoCore (JsonEncoder ex) → Entry → Files W → Files W
    writes c ent s =
        core_write (json_encoding ex digits) (log_file h content write_to answers) c ent s

    core_write-Advances :
        (c : IoCore (JsonEncoder ex)) (ent : Entry) (s : Files W)
        → IsValid h s.rotation
        → Advances h content write_to answers io fresh s
            (writes c ent s)
            (Json.encode_entry ex digits c.enc ent end)
    core_write-Advances c ent s v =
        let line = Json.encode_entry ex digits c.enc ent end in
        let (written, one) = write_file-Advances h content write_to answers io fresh line s v in
        let s₁ = (write_file h content write_to answers line s).1 in
        let s₂ = (sync_file h content write_to answers s₁).1 in
        let both = subst (Advances h content write_to answers io fresh s s₂) (append-nil line) (
          Advances-trans h content write_to answers io fresh s s₁ s₂ line [] one
            (sync_file-Advances h content write_to answers io fresh s₁ one.0)) in
        subst⁻¹ (λ x. Advances h content write_to answers io fresh s x line)
          (ap (λ (r : Bool × Files W). r.1)
            (core_write-written (json_encoding ex digits) (log_file h content write_to answers) c
              ent s line refl written))
          (either h content write_to answers io fresh (ltb_ℤ error_level ent.level) s s₂ s₁ line
            both one)

    deliver-Advances :
        (c : IoCore (JsonEncoder ex)) (times : List ℤ) (lbs : List LogBody) (s : Files W)
        → IsValid h s.rotation
        → Advances h content write_to answers io fresh s
            (deliver (json_encoding ex digits) (log_file h content write_to answers) c times lbs s)
            (lines ex digits c times lbs)
    unfolding deliver lines
    deliver-Advances c times [] s v = (
      v,
      λ clean. (clean, sym (append-nil (bytes_of h content write_to answers io fresh s))),
      λ never clean. clean,
    )
    deliver-Advances c [] (lb ∷ lbs) s v = (
      v,
      λ clean. (clean, sym (append-nil (bytes_of h content write_to answers io fresh s))),
      λ never clean. clean,
    )
    deliver-Advances c (now ∷ times) (lb ∷ lbs) s v =
        let line = Json.encode_entry ex digits c.enc (entry_of now lb) end in
        let on = Core.enabled c lb.lvl in
        let s₁ = if on then writes c (entry_of now lb) s else s in
        let one =
          Advances-if h content write_to answers io fresh on s (writes c (entry_of now lb) s) line v
            (core_write-Advances c (entry_of now lb) s v) in
        Advances-trans h content write_to answers io fresh s s₁
          (deliver (json_encoding ex digits) (log_file h content write_to answers) c times lbs s₁)
          (if on then line else []) (lines ex digits c times lbs) one
          (deliver-Advances c times lbs s₁ one.0)

    -- Messages that are logged one after the other, while the ring has room for them and none ends
    -- the program, end up in the log files or the rotation's buffer: once the loop has had a turn
    -- for each, and if the buffer of the rotation keeps no error, the closed files, the file and
    -- the bytes still pending in the buffer together hold what they held before, followed by the
    -- JSON line of every message whose level is enabled, whole and in the order of the calls,
    -- whatever the rotations in between. This needs a ring that is empty and in step, which means
    -- that the loop has looked at it since the last message before (on a ring just made, to which a
    -- message is put before the loop has looked once, the last message is withheld), a valid
    -- rotation over a writer that keeps its contract, files that are empty when they are opened,
    -- and no index of the ring to wrap. Where the writer never fails, an error is kept in the end
    -- only if there was one at the start.
    pub log_all-lines :
        {n : ℕ} (pooled : LogBody) (lbs : List LogBody) (times : List ℤ)
        (log : Logger (JsonEncoder ex)) (s : Files W)
        → InStep n log.ring []
        → length lbs ≤ 2 ^ n
        → log.ring.read_index + length lbs < 2 ^ 64 - 1
        → Quiet lbs
        → length lbs ≤ length times
        → IsValid h s.rotation
        → (logged after : Logger (JsonEncoder ex)) × (s' : Files W) × (log_all pooled lbs log
            ≡ some logged)
          × (write_loop
                (json_encoding ex digits)
                (log_file h content write_to answers)
                times
                logged
                s
              ≡ some (returns, after, s'))
          × IsValid h s'.rotation
          × (s'.rotation.buf.err ≡ none
              → s.rotation.buf.err ≡ none
                × (all_bytes h content write_to answers s'
                    ≡ all_bytes h content write_to answers s ++ lines ex digits log.core times lbs))
          × (NeverFails write_to → s.rotation.buf.err ≡ none → s'.rotation.buf.err ≡ none)
    log_all-lines pooled lbs times log s c room ahead quiet turns v =
        let out = log_file h content write_to answers in
        let (logged, after, e, e', c') =
          log_all-deliver (json_encoding ex digits) out pooled lbs times log s c room ahead quiet
            turns in
        let (v', kept, safe) = deliver-Advances log.core times lbs s v in
        (
          logged,
          after,
          deliver (json_encoding ex digits) out log.core times lbs s,
          e,
          e',
          v',
          kept,
          safe,
        )
