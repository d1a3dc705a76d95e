-- ===== src/Zaproll/BufIo/Write/Healthy.antt =====
-- zaproll/bufio.go: `write` and `flush`, over a writer that never fails.
use mathlib.Core.Path.{subst⁻¹}
use nanozap.Base.{
  ℕ, zero, suc, ◌+◌, ◌≡◌, refl, ap, ◌∙◌, false, ◌&&◌, Option, none, some, List, arith, ltb, ◌==◌,
  length, take, drop, length-take, inl, inr, Bool-cases,
}
use nanozap.Zaproll.BufIo.{
  BufIo, Error, Writer, IsWriter, avail, buffered, flush_error, flush, flush_buffered, fill,
  write_loop, finish, write, is_none,
}
use nanozap.Zaproll.BufIo.Flush.{IsValid, flush_lem, flush-clean}
use nanozap.Zaproll.BufIo.Write.{finish-none}
use nanozap.Zaproll.BufIo.Write.Loop.{loop_exit, loop_direct, loop_through, fill-Continues}

abbrev pub NeverFails : {W : Type 0} → Writer W → Type 0
NeverFails {W} write_to = (w : W) (p : List ℕ) → (write_to w p).1 ≡ none

module _ {W : Type 0} (write_to : Writer W) (content : W → List ℕ) (io : IsWriter write_to content)
    (never : NeverFails write_to) where
  flush_buffered-none : (b : BufIo W) → IsValid b → (flush_buffered write_to b).1 ≡ none
  unfolding flush_buffered flush_error
  flush_buffered-none b v = elim (Bool-cases (b.n == 0)) [
    | inl z ↦ rw z refl
    | inr z ↦
        let short : ltb (write_to b.w (take b.n b.buf)).0 b.n ≡ false = ground (
          arith,
          io.complete b.w (take b.n b.buf) (never b.w (take b.n b.buf)),
          length-take b.n b.buf v,
        ) in
        rw (z, never b.w (take b.n b.buf), short) refl
  ]

  flush-none : (b : BufIo W) → IsValid b → b.err ≡ none → (flush write_to b).1 ≡ none
  flush-none b v clean =
      ap (λ (x : ℕ × Option Error × BufIo W). x.1) (flush-clean write_to b clean)
      ∙ flush_buffered-none b v

  pub flush-err : (b : BufIo W) → IsValid b → b.err ≡ none → (flush write_to b).2.err ≡ none
  flush-err b v clean = (flush_lem write_to content io b v).1 ∙ flush-none b v clean

  fill-err : (p : List ℕ) (b : BufIo W) → (fill p b).1.err ≡ b.err
  unfolding fill
  fill-err p b = refl

  abbrev Clean : Option (List ℕ × ℕ × ℕ × BufIo W) → Type 0
  Clean none = Unit
  Clean (some (p, nn, fw, b)) = b.err ≡ none

  write_loop-Clean :
      (f : ℕ) (p : List ℕ) (nn fw : ℕ) (b : BufIo W)
      → IsValid b
      → b.err ≡ none
      → Clean (write_loop write_to f p nn fw b)
  unfolding write_loop
  write_loop-Clean zero p nn fw b v clean = tt
  write_loop-Clean (suc f) p nn fw b v clean =
      elim (Bool-cases (ltb (avail b) (length p) && is_none b.err)) [
        | inr h ↦ subst⁻¹ Clean (loop_exit write_to f p nn fw b h) clean
        | inl h ↦ elim (Bool-cases (buffered b == 0)) [
          | inl z ↦
              let (n, e, w) = write_to b.w p in
              subst⁻¹ Clean (loop_direct write_to f p nn fw b h z) (
                write_loop-Clean f (drop n p) (nn + n) (fw + n) (record b { err = e; w = w }) v
                  (never b.w p))
          | inr z ↦
              let (n, b₁) = fill p b in
              let (fn, e, b₂) = flush write_to b₁ in
              let v₁ = (fill-Continues content p b v).valid in
              let v₂ = (flush_lem write_to content io b₁ v₁).0.valid in
              subst⁻¹ Clean (loop_through write_to f p nn fw b h z) (
                write_loop-Clean f (drop n p) (nn + n) (fw + fn) (record b₂ { err = e }) v₂
                  (flush-none b₁ v₁ (fill-err p b ∙ clean)))
        ]
      ]

  abbrev pub Kept : Option ((ℕ × ℕ × Option Error) × BufIo W) → Type 0
  Kept none = Unit
  Kept (some (res, b)) = b.err ≡ none

  finish-Kept :
      (end : Option (List ℕ × ℕ × ℕ × BufIo W))
      → Clean end
      → Kept (elim end [ none ↦ none | some x ↦ some (finish write_to x) ])
  finish-Kept none c = tt
  finish-Kept (some (p, nn, fw, b)) c =
      subst⁻¹ (λ (x : (ℕ × ℕ × Option Error) × BufIo W). x.1.err ≡ none)
        (finish-none write_to content io p nn fw b c) (fill-err p b ∙ c)

  -- So a write leaves no error in the buffer either.
  pub write-Kept : (b : BufIo W) (p : List ℕ) → IsValid b → b.err ≡ none → Kept (write write_to p b)
  unfolding write
  write-Kept b p v clean =
      finish-Kept (write_loop write_to 3 p 0 0 b) (write_loop-Clean 3 p 0 0 b v clean)
