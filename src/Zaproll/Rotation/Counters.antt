-- ===== src/Zaproll/Rotation/Counters.antt =====
-- zaproll/zaproll.go: the invariant of the rotated file, on its counters, its buffer and its
-- backups.
use nanozap.Base.{
  ℕ, ◌+◌, ◌≤◌, ◌≡◌, refl, Bool, true, false, ◌||◌, not, none, some, List, [], length, arith,
  Bool-cases, Option-cases, inl, inr, ◌==◌,
}
use nanozap.Base.Int.{pos, pos_part, leb_ℤ, ◌<ℤ◌}
use nanozap.Zaproll.BufIo
use nanozap.Zaproll.BufIo.{BufIo, reset, Writer, IsWriter}
use nanozap.Zaproll.BufIo.Flush
use nanozap.Zaproll.BufIo.Flush.{flush_lem}
use nanozap.Zaproll.BufIo.Write.{write_lem}
use nanozap.Zaproll.Backup.{HeapPackage}
use nanozap.Zaproll.Backup.Prune.{add_backup_lem}
use nanozap.Zaproll.Rotation.{
  Rotation, Os, Event, keep_backup, open_file, flush_pages, rotate, flush_dirty, count, write, sync,
}

module _ (h : HeapPackage) {W : Type 0} where
  -- What holds of a rotation at any time, between the calls and inside of them.
  pub record Sound (r : Rotation W) : Type 0 where
    pub positive : pos 0 <ℤ r.cfg.max_size
    pub balanced : r.written ≡ r.synced + r.dirty
    pub heap : h.IsHeap r.backups
    pub bounded : length r.backups ≤ pos_part r.cfg.max_backups
    pub buffer : Flush.IsValid r.buf

  -- Between the calls, the file is smaller than the size at which it is rotated.
  pub record IsValid (r : Rotation W) : Type 0 where
    pub sound : Sound r
    pub below : pos r.written <ℤ r.cfg.max_size

  flush_pages-Sound : (force : Bool) (r : Rotation W) → Sound r → Sound (flush_pages h force r).0
  unfolding flush_pages
  flush_pages-Sound force r s =
      elim (Bool-cases (leb_ℤ r.cfg.per_sync_size (pos r.dirty) || force)) [
        | inr e ↦ rw e s
        | inl e ↦ rw e (record {
          positive = s.positive;
          balanced = omega (arith, s.balanced);
          heap = s.heap;
          bounded = s.bounded;
          buffer = s.buffer;
        })
      ]

  keep_backup-Sound :
      (os : Os W) (r : Rotation W) → Sound r → Sound (record r { backups = (keep_backup h os r).0 })
  unfolding keep_backup
  keep_backup-Sound os r s =
      let (heap, len, same, old) =
        add_backup_lem h (pos_part r.cfg.max_backups) os.backup r.backups s.heap s.bounded in
      record {
        positive = s.positive;
        balanced = s.balanced;
        heap = heap;
        bounded = omega (arith, len);
        buffer = s.buffer;
      }

  open_file-Sound : (os : Os W) (r : Rotation W) → Sound r → Sound (open_file h os r).1
  unfolding open_file keep_backup
  open_file-Sound os r s = elim (Bool-cases (not r.has_file)) [
    | inl e ↦ rw e s
    | inr e ↦
        rw e (elim (Bool-cases os.renamed) [
          | inl y ↦ rw y (keep_backup-Sound os r s)
          | inr n ↦ rw n s
        ])
  ]

  -- A state with its counters at 0.
  zeroed-Valid :
      (r : Rotation W) (has : Bool) (b : BufIo W)
      → Sound r
      → Flush.IsValid b
      → IsValid (record r { has_file = has; buf = b; written = 0; dirty = 0; synced = 0 })
  zeroed-Valid r has b s v = record {
    sound = record {
      positive = s.positive;
      balanced = refl;
      heap = s.heap;
      bounded = s.bounded;
      buffer = v;
    };
    below = s.positive;
  }

  rotate-Valid : (os : Os W) (r : Rotation W) → Sound r → IsValid (rotate h os r).0
  unfolding rotate reset
  rotate-Valid os r s = elim (Bool-cases (leb_ℤ r.cfg.max_size (pos r.written))) [
    | inr e ↦ rw e (record { sound = s; below = ground arith })
    | inl e ↦
        let s' = open_file-Sound os r s in
        rw e (elim (Option-cases (open_file h os r).0) [
          | inl f ↦ rw f (
              zeroed-Valid (open_file h os r).1 (open_file h os r).1.has_file
                (open_file h os r).1.buf s' s'.buffer)
          | inr (w, f) ↦ rw f (
              zeroed-Valid (open_file h os r).1 true (reset w (open_file h os r).1.buf) s'
                s'.buffer)
        ])
  ]

  pub flush_dirty-Valid :
      (force : Bool) (os : Os W) (r : Rotation W) → Sound r → IsValid (flush_dirty h force os r).0
  unfolding flush_dirty
  flush_dirty-Valid force os r s =
      rotate-Valid os (flush_pages h force r).0 (flush_pages-Sound force r s)

  pub count-Sound :
      (f : ℕ) (b : BufIo W) (r : Rotation W) → Sound r → Flush.IsValid b → Sound (count h f b r)
  count-Sound f b r s v = record {
    positive = s.positive;
    balanced = omega (arith, s.balanced);
    heap = s.heap;
    bounded = s.bounded;
    buffer = v;
  }

  module _ (write_to : Writer W) (content : W → List ℕ) (io : IsWriter write_to content) where
    -- On a valid rotation, over a writer that keeps its contract, and whatever the system answers:
    -- `Write` ends, always reports the whole of `p` and no error, and leaves a valid rotation. So
    -- the bytes counted are those flushed and those still dirty, the backups are a heap of at most
    -- MaxBackups, and the count of the file is below MaxSize once more, whether or not the rotation
    -- could open a file.
    pub write-IsValid :
        (p : List ℕ) (os : Os W) (r : Rotation W)
        → IsValid r
        → (r' : Rotation W) × (events : List Event) × (write h write_to p os r
            ≡ some ((length p, none), r', events))
          × IsValid r'
    unfolding write
    write-IsValid p os r v =
        let (((nn, fw, e), b), q, c) = write_lem write_to content io r.buf p v.sound.buffer in
        let s = count-Sound fw b r v.sound c.stream.valid in
        rw (q, write)
          (elim (Bool-cases (fw == 0)) [
            | inl z ↦
                rw z
                  (count h fw b r, [], refl, record { sound = s; below = ground (arith, v.below) })
            | inr z ↦ rw z (
                let (r', ev) = flush_dirty h false os (count h fw b r) in
                (r', ev, refl, flush_dirty-Valid false os (count h fw b r) s))
          ])

    -- On a valid rotation, over a writer that keeps its contract, and whatever the system answers:
    -- `Sync` reports no error and leaves a valid rotation.
    pub sync-IsValid :
        (os : Os W) (r : Rotation W)
        → IsValid r
        → (sync h write_to os r).0 ≡ none × IsValid (sync h write_to os r).1
    unfolding sync
    sync-IsValid os r v =
        let c = flush_lem write_to content io r.buf v.sound.buffer in
        (
          refl,
          flush_dirty-Valid true os
              (count h (BufIo.flush write_to r.buf).0 (BufIo.flush write_to r.buf).2 r)
              (count-Sound (BufIo.flush write_to r.buf).0 (BufIo.flush write_to r.buf).2 r v.sound
                c.0.valid),
        )
