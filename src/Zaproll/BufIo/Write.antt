-- ===== src/Zaproll/BufIo/Write.antt =====
-- zaproll/bufio.go: `write`, over a writer that keeps its contract.
mod Loop
pub mod Healthy
use Loop.{Continues-trans, fill-Continues, loop_exit, loop_any}
use mathlib.Core.Path.{subst⁻¹}
use nanozap.Base.{
  ℕ, ◌+◌, ◌-◌, ◌≤◌, ◌≡◌, ap, sym, ◌∙◌, Option, none, some, List, ◌++◌, arith, length, take, drop,
  length-drop, inl, inr, Option-cases,
}
use Prim.Native.Nat.{min}
use nanozap.Zaproll.BufIo.{BufIo, Error, Writer, IsWriter, pending, avail, fill, finish, write}
use nanozap.Zaproll.BufIo.Bytes.{take-add}
use nanozap.Zaproll.BufIo.Flush.{IsValid, Continues}

module _ {W : Type 0} (write_to : Writer W) (content : W → List ℕ)
    (io : IsWriter write_to content) where
  -- What a call of `write` has done.
  pub record Writes (b : BufIo W) (p : List ℕ) (res : (ℕ × ℕ × Option Error) × BufIo W)
      : Type 0 where
    pub taken : res.0.0 ≤ length p
    pub whole : res.0.2 ≡ none → res.0.0 ≡ length p
    pub kept : res.1.err ≡ res.0.2
    pub stream : Continues content b res.1 (take res.0.0 p) res.0.1

  finish-some :
      (p : List ℕ) (nn fw : ℕ) (b : BufIo W) (e : Error)
      → b.err ≡ some e
      → finish write_to (p, nn, fw, b) ≡ ((nn, fw, some e), b)
  unfolding finish
  finish-some p nn fw b e h = ground arith

  pub finish-none :
      (p : List ℕ) (nn fw : ℕ) (b : BufIo W)
      → b.err ≡ none
      → finish write_to (p, nn, fw, b) ≡ ((nn + (fill p b).0, fw, none), (fill p b).1)
  unfolding finish
  finish-none p nn fw b h = ground arith

  -- The last copy takes the whole rest.
  last_fill :
      (b b' : BufIo W) (p : List ℕ) (k f : ℕ)
      → k ≤ length p
      → Continues content b b' (take k p) f
      → length p - k ≤ avail b'
      → b'.err ≡ none
      → Writes b p ((0 + k + (fill (drop k p) b').0, 0 + f, none), (fill (drop k p) b').1)
  unfolding fill
  last_fill b b' p k f h c room clean =
      let rest = drop k p in
      let n = min (avail b') (length rest) in
      let both = Continues-trans content c (fill-Continues content rest b' c.valid) in
      let whole : 0 + k + n ≡ k + n = omega arith in
      record {
        taken = omega (arith, length-drop k p);
        whole = λ q. omega (arith, length-drop k p);
        kept = clean;
        stream = record {
          valid = both.valid;
          size = both.size;
          stream =
              both.stream
              ∙ ap (λ l. (content b.w ++ pending b) ++ l) (sym (take-add k n p))
              ∙ ap (λ i. (content b.w ++ pending b) ++ take i p) (sym whole);
          count = omega (arith, both.count);
        };
      }

  stopped :
      (b b' : BufIo W) (p : List ℕ) (k f : ℕ) (e : Error)
      → k ≤ length p
      → Continues content b b' (take k p) f
      → b'.err ≡ some e
      → Writes b p ((0 + k, 0 + f, some e), b')
  stopped b b' p k f e h c bad =
      let plain : 0 + k ≡ k = omega arith in
      record {
        taken = omega arith;
        whole = λ q. cc;
        kept = bad;
        stream = record {
          valid = c.valid;
          size = c.size;
          stream = c.stream ∙ ap (λ i. (content b.w ++ pending b) ++ take i p) (sym plain);
          count = omega (arith, c.count);
        };
      }

  finish_lem :
      (b : BufIo W) (p : List ℕ) (k f : ℕ) (b' : BufIo W)
      → k ≤ length p
      → Continues content b b' (take k p) f
      → (b'.err ≡ none → length p - k ≤ avail b')
      → Writes b p (finish write_to (drop k p, 0 + k, 0 + f, b'))
  finish_lem b p k f b' h c room = elim (Option-cases b'.err) [
    | inr (e, bad) ↦
        subst⁻¹ (Writes b p) (finish-some (drop k p) (0 + k) (0 + f) b' e bad)
          (stopped b b' p k f e h c bad)
    | inl clean ↦
        subst⁻¹ (Writes b p) (finish-none (drop k p) (0 + k) (0 + f) b' clean)
          (last_fill b b' p k f h c (room clean) clean)
  ]

  -- On a valid buffer, over a writer that keeps its contract: `write` always returns, so three
  -- turns of its loop are enough. It takes the first `nn` bytes of `p`, all of them unless it
  -- reports an error, and keeps the error it reports. The bytes that have reached the writer,
  -- followed by those in the buffer, are what they were, followed by the bytes taken; `fw` is the
  -- number of bytes that reached the writer, and the buffer stays valid and keeps its size.
  pub write_lem :
      (b : BufIo W) (p : List ℕ)
      → IsValid b
      → (res : (ℕ × ℕ × Option Error) × BufIo W) × (write write_to p b ≡ some res) × Writes b p res
  unfolding write
  write_lem b p v =
      let (k, f, b', e, h, c, room) = loop_any write_to content io 0 p 0 0 b v in
      (finish write_to (drop k p, 0 + k, 0 + f, b'), rw (e, write), finish_lem b p k f b' h c room)

  -- Once an error is kept, `write` takes nothing, reports that error, and changes nothing.
  pub write-sticky :
      (b : BufIo W) (p : List ℕ) (e : Error)
      → b.err ≡ some e
      → write write_to p b ≡ some ((0, 0, some e), b)
  unfolding write
  write-sticky b p e h =
      rw (loop_exit write_to 2 p 0 0 b (ground arith), write) (ap some (finish-some p 0 0 b e h))
