-- ===== src/Zaproll/Rotation/Logged.antt =====
-- zaproll/zaproll.go: the bytes of the log files, over any number of writes and rotations.
use nanozap.Base.{
  ℕ, ◌≡◌, refl, ap, sym, ◌∙◌, Option, none, some, List, [], ◌∷◌, ◌++◌, append_assoc, append-nil,
  Option-cases, inl, inr,
}
use nanozap.Zaproll.BufIo
use nanozap.Zaproll.BufIo.{BufIo, Writer, IsWriter}
use nanozap.Zaproll.Backup.{HeapPackage}
use nanozap.Zaproll.Rotation.{Rotation, Os, write}
use nanozap.Zaproll.Rotation.Counters.{IsValid}
use nanozap.Zaproll.BufIo.Write.{write-sticky}
use nanozap.Zaproll.BufIo.Write.Healthy.{NeverFails, Kept, write-Kept}
use mathlib.Core.Path.{subst}
use nanozap.Zaproll.Rotation.Stream.{stream, Fresh, closed_file, Wrote, write-stream}

pub regroup :
    (old c s' s p q : List ℕ) → c ++ s' ≡ s ++ p → ((old ++ c) ++ s') ++ q ≡ (old ++ s) ++ (p ++ q)
regroup old c s' s p q e =
    ap (λ t. t ++ q) (append_assoc old c s' ∙ ap (λ t. old ++ t) e) ∙ simp append_assoc

module _ (h : HeapPackage) {W : Type 0} (content : W → List ℕ) (write_to : Writer W) where
  -- The calls of `Write` with the answers of the system to each, and the bytes of all files that
  -- were closed so far, one after the other. What a rotation leaves in the old file is what is
  -- there after the write to the buffer.
  unfoldable pub write_all :
      List (List ℕ × Os W) → List ℕ → Rotation W → Option (List ℕ × Rotation W)
  write_all [] old r = some (old, r)
  write_all ((p, os) ∷ ps) old r = elim (BufIo.write write_to p r.buf) [
    | none ↦ none
    | some (res, b) ↦ elim (write h write_to p os r) [
      | none ↦ none
      | some (answer, r', events) ↦ write_all ps (old ++ closed_file h content b events) r'
    ]
  ]

  abbrev pub AllFresh : List (List ℕ × Os W) → Type 0
  AllFresh [] = Unit
  AllFresh ((p, os) ∷ ps) = Fresh h content os × AllFresh ps

  abbrev pub payload : List (List ℕ × Os W) → List ℕ
  payload [] = []
  payload ((p, os) ∷ ps) = p ++ payload ps

  module _ (io : IsWriter write_to content) where
    abbrev err_of : Option ((ℕ × ℕ × Option BufIo.Error) × BufIo W) → Option BufIo.Error
    err_of none = none
    err_of (some (res, b)) = b.err

    -- An error that is kept was there before or is from this write.
    pub err_none :
        (p : List ℕ) (os : Os W) (r : Rotation W) (w : Wrote h content write_to io p os r)
        → w.r'.buf.err ≡ none
        → r.buf.err ≡ none
    err_none p os r w clean = elim (Option-cases r.buf.err) [
      | inl none_kept ↦ none_kept
      | inr (e, kept) ↦
          let same = sym w.buffered ∙ write-sticky write_to content io r.buf p e kept in
          let b_err : w.b.err ≡ some e = ap (λ o. err_of o) same ∙ kept in cc
    ]

    -- On a valid rotation, over a writer that keeps its contract and whatever the system answers,
    -- as long as a file is empty when it is opened: a sequence of writes ends, and where no error
    -- is kept in the end, the files that were closed, the file and the buffer hold, one after the
    -- other, what they held before and all that was written, in order, over any number of
    -- rotations. Where the writer never fails, an error is kept in the end only if there was one at
    -- the start.
    pub write_all-stream :
        (ps : List (List ℕ × Os W)) (old : List ℕ) (r : Rotation W)
        → AllFresh ps
        → IsValid h r
        → (old' : List ℕ) × (r' : Rotation W) × (write_all ps old r ≡ some (old', r'))
          × IsValid h r'
          × (r'.buf.err ≡ none
              → (r.buf.err ≡ none)
                × (old' ++ stream h content r'.buf ≡ (old ++ stream h content r.buf) ++ payload ps))
          × (NeverFails write_to → r.buf.err ≡ none → r'.buf.err ≡ none)
    unfolding write_all
    write_all-stream [] old r fresh v = (
      old,
      r,
      refl,
      v,
      λ clean. (clean, sym (append-nil (old ++ stream h content r.buf))),
      λ never clean. clean,
    )
    write_all-stream ((p, os) ∷ ps) old r (fresh, all) v =
        let w = write-stream h content write_to io p os r fresh v in
        let (old', r', q, v', kept, safe) =
          write_all-stream ps (old ++ closed_file h content w.b w.events) w.r' all w.valid in
        (
          old',
          r',
          rw (w.buffered, w.returned, write_all) q,
          v',
          λ clean.
              let (clean₁, eq) = kept clean in
              (
                err_none p os r w clean₁,
                eq
                    ∙ regroup old (closed_file h content w.b w.events) (stream h content w.r'.buf)
                        (stream h content r.buf) p (payload ps) (w.bytes (sym w.err ∙ clean₁)),
              ),
          λ never clean. safe never (
              w.err
              ∙ subst (Kept write_to content io never) w.buffered
                  (write-Kept write_to content io never r.buf p v.sound.buffer clean)),
        )
