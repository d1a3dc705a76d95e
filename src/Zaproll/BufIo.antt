-- ===== src/Zaproll/BufIo.antt =====
-- zaproll/bufio.go: the write buffer in front of the log file.
-- The `io.Writer` behind it is a parameter: a call takes its state and the bytes, and returns the
-- count, the error and the new state. Bytes are numbers; they are moved and never computed with.
pub mod Bytes
pub mod Flush
pub mod Write
pub mod Tests
use nanozap.Base.{
  ℕ, zero, suc, ◌+◌, ◌-◌, ◌≤◌, ◌≡◌, Bool, true, false, ◌&&◌, Option, none, some, List, [], ◌++◌,
  ltb, ◌==◌, if◌then◌else◌, length, take, drop, replicate,
}
use Prim.Native.Nat.{min}
use Bytes.{copy_at}

-- `io.ErrShortWrite`, and the errors of the writer itself.
pub data Error : Type 0 where
  short_write : Error
  write_error : ℕ → Error

pub record BufIo (W : Type 0) : Type 0 where
  pub err : Option Error
  pub buf : List ℕ
  pub n : ℕ
  pub w : W

abbrev pub Writer : Type 0 → Type 0
Writer W = W → List ℕ → ℕ × Option Error × W

abbrev pub is_none : Option Error → Bool
is_none none = true
is_none (some e) = false

-- What the documentation of `io.Writer` asks for: a count of at most the bytes given, an error
-- whenever it is less, and those bytes appended to what was written before.
pub record IsWriter {W : Type 0} (write_to : Writer W) (content : W → List ℕ) : Type 0 where
  pub bounded : (w : W) (p : List ℕ) → (write_to w p).0 ≤ length p
  pub complete : (w : W) (p : List ℕ) → (write_to w p).1 ≡ none → (write_to w p).0 ≡ length p
  pub appended :
      (w : W) (p : List ℕ) → content (write_to w p).2 ≡ content w ++ take (write_to w p).0 p

module _ {W : Type 0} where
  unfoldable pub new_buf_io : W → ℕ → BufIo W
  new_buf_io w size = record { err = none; buf = replicate size 0; n = 0; w = w }

  unfoldable pub reset : W → BufIo W → BufIo W
  reset w b = record b { w = w }

  abbrev pub avail : BufIo W → ℕ
  avail b = length b.buf - b.n

  abbrev pub buffered : BufIo W → ℕ
  buffered b = b.n

  -- The bytes that wait in the buffer.
  abbrev pub pending : BufIo W → List ℕ
  pending b = take b.n b.buf

  -- `if n < b.n && err == nil { err = io.ErrShortWrite }`
  pub flush_error : ℕ → Option Error → BufIo W → Option Error
  flush_error n e b = if ltb n b.n && is_none e then some short_write else e

  -- The tail that was not written moves to the front. A count above `b.n`, which no writer may
  -- return, would make `b.n` negative; here it stops at 0.
  pub keep_rest : ℕ → Error → BufIo W → BufIo W
  keep_rest n e b =
      let moved =
        if ltb 0 n && ltb n b.n then copy_at 0 (take (b.n - n) (drop n b.buf)) b.buf else b.buf in
      record b { buf = moved; n = b.n - n; err = some e }

  -- `n := copy(b.buf[b.n:], p); b.n += n`
  pub fill : List ℕ → BufIo W → ℕ × BufIo W
  fill p b =
      let n = min (avail b) (length p) in (n, record b { buf = copy_at b.n p b.buf; n = b.n + n })

module _ {W : Type 0} (write_to : Writer W) where
  -- `flush` past its check of the kept error.
  pub flush_buffered : BufIo W → ℕ × Option Error × BufIo W
  flush_buffered b =
      if b.n == 0
      then (0, none, b)
      else let (n, e, w) = write_to b.w (take b.n b.buf) in
        let b₁ = record b { w = w } in
        elim (flush_error n e b₁) [
          | some e' ↦ (n, some e', keep_rest n e' b₁)
          | none ↦ (n, none, record b₁ { n = 0 })
        ]

  -- The flushed count and the error, and the buffer behind.
  pub flush : BufIo W → ℕ × Option Error × BufIo W
  flush b = elim b.err [ some e ↦ (0, some e, b) | none ↦ flush_buffered b ]

  -- The loop of `write`, with the bytes that are left, `nn` and `fw`. `none`: the fuel ran out.
  pub write_loop : ℕ → List ℕ → ℕ → ℕ → BufIo W → Option (List ℕ × ℕ × ℕ × BufIo W)
  write_loop zero p nn fw b = none
  write_loop (suc f) p nn fw b =
      let direct =
        let (n, e, w) = write_to b.w p in
        write_loop f (drop n p) (nn + n) (fw + n) (record b { err = e; w = w }) in
      let through =
        let (n, b₁) = fill p b in
        let (fn, e, b₂) = flush b₁ in
        write_loop f (drop n p) (nn + n) (fw + fn) (record b₂ { err = e }) in
      if ltb (avail b) (length p) && is_none b.err
      then if buffered b == 0 then direct else through
      else some (p, nn, fw, b)

  -- `write` after its loop.
  pub finish : List ℕ × ℕ × ℕ × BufIo W → (ℕ × ℕ × Option Error) × BufIo W
  finish (p, nn, fw, b) = elim b.err [
    | some e ↦ ((nn, fw, some e), b)
    | none ↦ let (n, b₁) = fill p b in ((nn + n, fw, none), b₁)
  ]

  -- The bytes taken, the bytes written to the writer, and the error.
  pub write : List ℕ → BufIo W → Option ((ℕ × ℕ × Option Error) × BufIo W)
  write p b = elim (write_loop 3 p 0 0 b) [ none ↦ none | some end ↦ some (finish end) ]
