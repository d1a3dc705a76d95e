-- ===== src/Zaproll/Rotation/Failure.antt =====
-- zaproll/zaproll.go: the rotated file once a write to the disk has failed.
use nanozap.Base.{
  ℕ, ◌+◌, ◌≡◌, refl, ap, not, none, some, List, [], length, arith, Option-cases, inl, inr,
  Bool-cases,
}
use nanozap.Base.Int.{pos, leb_ℤ}
use nanozap.Zaproll.BufIo.{Writer, IsWriter, Error, reset}
use nanozap.Zaproll.BufIo.Write.{write-sticky}
use nanozap.Zaproll.Backup.{HeapPackage}
use nanozap.Zaproll.Rotation.{Rotation, Os, open_file, rotate, write, count}

module _ (h : HeapPackage) {W : Type 0} where
  module _ (write_to : Writer W) (content : W → List ℕ) (io : IsWriter write_to content) where
    counted : (r : Rotation W) → count h 0 r.buf r ≡ r
    counted r =
        let d : r.dirty + 0 ≡ r.dirty = omega arith in
        let w : r.written + 0 ≡ r.written = omega arith in rw (d, w) refl

    -- Once an error is kept in the buffer, `Write` drops the bytes and changes nothing, but reports
    -- that all of them were written, without an error.
    pub write-loses :
        (p : List ℕ) (os : Os W) (r : Rotation W) (e : Error)
        → r.buf.err ≡ some e
        → write h write_to p os r ≡ some ((length p, none), r, [])
    unfolding write
    write-loses p os r e q =
        rw (write-sticky write_to content io r.buf p e q, write)
          (ap (λ r. some ((length p, none), r, [])) (counted r))

  pub open_file-buf : (os : Os W) (r : Rotation W) → (open_file h os r).1.buf ≡ r.buf
  unfolding open_file
  open_file-buf os r = elim (Bool-cases (not r.has_file)) [
    | inl e ↦ rw e refl
    | inr e ↦ rw e (elim (Bool-cases os.renamed) [ inl y ↦ rw y refl | inr n ↦ rw n refl ])
  ]

  -- A call of the rotation leaves the error that the buffer keeps as it is, also when it opened a
  -- new file.
  pub rotate-keeps_error : (os : Os W) (r : Rotation W) → (rotate h os r).0.buf.err ≡ r.buf.err
  unfolding rotate reset
  rotate-keeps_error os r = elim (Bool-cases (leb_ℤ r.cfg.max_size (pos r.written))) [
    | inr e ↦ rw e refl
    | inl e ↦ rw e (elim (Option-cases (open_file h os r).0) [
      | inl f ↦ rw f (ap (λ b. b.err) (open_file-buf os r))
      | inr (w, f) ↦ rw f (ap (λ b. b.err) (open_file-buf os r))
    ])
  ]
