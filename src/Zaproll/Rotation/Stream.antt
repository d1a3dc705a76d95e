-- ===== src/Zaproll/Rotation/Stream.antt =====
-- What one write or sync leaves in the log file, in the file before it, and in the buffer.
use nanozap.Base.{
  ℕ, ◌+◌, ◌≡◌, refl, ap, sym, ◌∙◌, append-nil, Bool, true, false, ◌||◌, not, Option, none, some,
  List, [], ◌∷◌, ◌++◌, map, length, take_of_le, arith, if◌then◌else◌, Bool-cases, Option-cases, inl,
  inr, ◌==◌,
}
use nanozap.Base.Int.{pos, leb_ℤ}
use nanozap.Zaproll.BufIo
use nanozap.Zaproll.BufIo.{BufIo, pending, reset, Writer, IsWriter, Error}
use nanozap.Zaproll.BufIo.Write.{write_lem}
use nanozap.Zaproll.BufIo.Flush.{flush_lem, flush-sticky}
use nanozap.Zaproll.Backup.{HeapPackage, Backup}
use nanozap.Zaproll.Rotation.{
  Rotation, Os, Event, flush_hint, drop_cache, remove, close_file, keep_backup, create, open_file,
  flush_pages, rotate, flush_dirty, count, write, sync,
}
use nanozap.Zaproll.Rotation.Counters.{IsValid, count-Sound, flush_dirty-Valid}
use nanozap.Zaproll.Rotation.Failure.{open_file-buf, rotate-keeps_error}

-- Whether the old file was closed, which a rotation does once it has a new one.
unfoldable pub closes : List Event → Bool
closes [] = false
closes (close_file ∷ es) = true
closes (flush_hint a b ∷ es) = closes es
closes (drop_cache a b ∷ es) = closes es
closes (remove f ∷ es) = closes es

closes-append : (es fs : List Event) → closes (es ++ fs) ≡ closes es || closes fs
unfolding closes
closes-append [] fs = refl
closes-append (close_file ∷ es) fs = refl
closes-append (flush_hint a b ∷ es) fs = closes-append es fs
closes-append (drop_cache a b ∷ es) fs = closes-append es fs
closes-append (remove f ∷ es) fs = closes-append es fs

closes-removals : (bs : List Backup) → closes (map (λ b. remove b.fp) bs) ≡ false
unfolding closes
closes-removals [] = refl
closes-removals (b ∷ bs) = closes-removals bs

module _ (h : HeapPackage) {W : Type 0} where
  open_file-events : (os : Os W) (r : Rotation W) → closes (open_file h os r).2 ≡ false
  unfolding open_file closes keep_backup
  open_file-events os r = elim (Bool-cases (not r.has_file)) [
    | inl e ↦ rw e refl
    | inr e ↦ rw e (elim (Bool-cases os.renamed) [
      | inl y ↦ rw y (closes-removals (keep_backup h os r).1)
      | inr n ↦ rw n refl
    ])
  ]

  create-opened : (os : Os W) (w : W) → create h os ≡ some w → os.opened ≡ some w
  unfolding create
  create-opened os w q = ground arith

  open_file-opened :
      (os : Os W) (r : Rotation W) (w : W) → (open_file h os r).0 ≡ some w → os.opened ≡ some w
  unfolding open_file
  open_file-opened os r w q = ground (arith, create-opened os w)

  module _ (content : W → List ℕ) where
    -- The bytes in the file and those that wait in the buffer.
    abbrev pub stream : BufIo W → List ℕ
    stream b = content b.w ++ pending b

    -- A file is empty when it is opened.
    abbrev pub Fresh : Os W → Type 0
    Fresh os = (w : W) → os.opened ≡ some w → content w ≡ []

    -- What is left behind in the old file.
    abbrev pub closed_file : BufIo W → List Event → List ℕ
    closed_file b events = if closes events then content b.w else []

    rotate-stream :
        (os : Os W) (r : Rotation W)
        → Fresh os
        → closed_file r.buf (rotate h os r).1 ++ stream (rotate h os r).0.buf ≡ stream r.buf
    unfolding rotate reset closes
    rotate-stream os r fresh = elim (Bool-cases (leb_ℤ r.cfg.max_size (pos r.written))) [
      | inr e ↦ rw e refl
      | inl e ↦ rw e (elim (Option-cases (open_file h os r).0) [
        | inl f ↦ rw (f, open_file-events os r) (ap stream (open_file-buf h os r))
        | inr (w, f) ↦
            rw
              (
                f,
                closes-append (open_file h os r).2 (
                    flush_hint (pos 0) r.cfg.max_size
                    ∷ drop_cache (pos 0) r.cfg.max_size
                    ∷ close_file
                    ∷ []),
                open_file-events os r,
                fresh w (open_file-opened os r w f),
              )
              (ap (λ b. content r.buf.w ++ pending b) (open_file-buf h os r))
      ])
    ]

    flush_dirty-stream :
        (force : Bool) (os : Os W) (r : Rotation W)
        → Fresh os
        → let (r', events) = flush_dirty h force os r in
          closed_file r.buf events ++ stream r'.buf ≡ stream r.buf
    unfolding flush_dirty flush_pages closes
    flush_dirty-stream force os r fresh =
        elim (Bool-cases (leb_ℤ r.cfg.per_sync_size (pos r.dirty) || force)) [
          | inl e ↦
              rw e (rotate-stream os (record r { synced = r.synced + r.dirty; dirty = 0 }) fresh)
          | inr e ↦ rw e (rotate-stream os r fresh)
        ]

    flush_dirty-err :
        (force : Bool) (os : Os W) (r : Rotation W)
        → (flush_dirty h force os r).0.buf.err ≡ r.buf.err
    unfolding flush_dirty flush_pages
    flush_dirty-err force os r =
        elim (Bool-cases (leb_ℤ r.cfg.per_sync_size (pos r.dirty) || force)) [
          | inl e ↦
              rw e (rotate-keeps_error h os (record r { synced = r.synced + r.dirty; dirty = 0 }))
          | inr e ↦ rw e (rotate-keeps_error h os r)
        ]

    module _ (write_to : Writer W) (io : IsWriter write_to content) where
      -- A call of `Write`: its buffer before the rotation, and how it ends.
      pub record Wrote (p : List ℕ) (os : Os W) (r : Rotation W) : Type 0 where
        pub res : ℕ × ℕ × Option Error
        pub b : BufIo W
        pub r' : Rotation W
        pub events : List Event
        pub buffered : BufIo.write write_to p r.buf ≡ some (res, b)
        pub returned : write h write_to p os r ≡ some ((length p, none), r', events)
        pub valid : IsValid h r'
        pub err : r'.buf.err ≡ b.err
        pub bytes : b.err ≡ none → closed_file b events ++ stream r'.buf ≡ stream r.buf ++ p

      pub write-stream :
          (p : List ℕ) (os : Os W) (r : Rotation W) → Fresh os → IsValid h r → Wrote p os r
      unfolding write closes
      write-stream p os r fresh v =
          let (((nn, fw, e), b), q, c) = write_lem write_to content io r.buf p v.sound.buffer in
          let s = count-Sound h fw b r v.sound c.stream.valid in
          let whole : b.err ≡ none → stream b ≡ stream r.buf ++ p = λ clean.
            c.stream.stream
            ∙ ap (λ t. stream r.buf ++ t)
                (take_of_le nn p (omega (arith, c.whole (sym c.kept ∙ clean)))) in
          elim (Bool-cases (fw == 0)) [
            | inl z ↦ record {
              res = (nn, fw, e);
              b = b;
              r' = count h fw b r;
              events = [];
              buffered = q;
              returned = rw (q, write, z) refl;
              valid = record { sound = s; below = ground (arith, v.below) };
              err = refl;
              bytes = whole;
            }
            | inr z ↦
                let (r', events) = flush_dirty h false os (count h fw b r) in
                record {
                  res = (nn, fw, e);
                  b = b;
                  r' = r';
                  events = events;
                  buffered = q;
                  returned = rw (q, write, z) refl;
                  valid = flush_dirty-Valid h false os (count h fw b r) s;
                  err = flush_dirty-err false os (count h fw b r);
                  bytes = λ clean. flush_dirty-stream false os (count h fw b r) fresh ∙ whole clean;
                }
          ]

      -- A call of `Sync`.
      pub record Synced (os : Os W) (r : Rotation W) : Type 0 where
        pub valid : IsValid h (sync h write_to os r).1
        pub err : (sync h write_to os r).1.buf.err ≡ none → r.buf.err ≡ none
        pub kept : (sync h write_to os r).1.buf.err ≡ (BufIo.flush write_to r.buf).2.err
        pub bytes :
            closed_file (BufIo.flush write_to r.buf).2 (sync h write_to os r).2
              ++ stream (sync h write_to os r).1.buf
            ≡ stream r.buf

      pub sync-stream : (os : Os W) (r : Rotation W) → Fresh os → IsValid h r → Synced os r
      unfolding sync
      sync-stream os r fresh v =
          let (fw, e, b) = BufIo.flush write_to r.buf in
          let (c, keeps, empty, within) = flush_lem write_to content io r.buf v.sound.buffer in
          let s = count-Sound h fw b r v.sound c.valid in
          record {
            valid = flush_dirty-Valid h true os (count h fw b r) s;
            err = λ clean. elim (Option-cases r.buf.err) [
              | inl quiet ↦ quiet
              | inr (e₀, kept) ↦
                  let same : b.err ≡ some e₀ =
                    ap (λ (x : ℕ × Option Error × BufIo W). x.2.err)
                      (flush-sticky write_to r.buf e₀ kept)
                    ∙ kept in
                  let left : b.err ≡ none =
                    sym (flush_dirty-err true os (count h fw b r)) ∙ clean in
                  cc
            ];
            kept = flush_dirty-err true os (count h fw b r);
            bytes =
                flush_dirty-stream true os (count h fw b r) fresh
                ∙ c.stream
                ∙ append-nil (stream r.buf);
          }
