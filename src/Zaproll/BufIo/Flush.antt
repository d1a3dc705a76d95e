-- ===== src/Zaproll/BufIo/Flush.antt =====
-- zaproll/bufio.go: `flush`, over a writer that keeps its contract.
use mathlib.Core.Path.{subst⁻¹}
use nanozap.Base.{
  ℕ, ◌+◌, ◌-◌, ◌≤◌, ◌≡◌, refl, ap, sym, ◌∙◌, ◌&&◌, Option, none, some, List, [], ◌++◌, arith, ltb,
  ◌==◌, length, take, drop, length-append, length-take, length-drop, take-append-drop, take_of_le,
  append_assoc, append-nil, inl, inr, Bool-cases, Option-cases, dec_lt,
}
use nanozap.Zaproll.BufIo.{
  BufIo, Error, Writer, IsWriter, pending, flush_error, keep_rest, flush, flush_buffered,
}
use nanozap.Zaproll.BufIo.Bytes.{length-copy_at, take-copy_front, drop-take}

abbrev pub IsValid : {W : Type 0} → BufIo W → Type 0
IsValid b = b.n ≤ length b.buf

-- How a buffer `b'` continues `b`, where `f` more bytes have gone to the writer and `taken` came
-- in.
pub record Continues {W : Type 0} (content : W → List ℕ) (b b' : BufIo W) (taken : List ℕ) (f : ℕ)
    : Type 0 where
  pub valid : IsValid b'
  pub size : length b'.buf ≡ length b.buf
  pub stream : content b'.w ++ pending b' ≡ (content b.w ++ pending b) ++ taken
  pub count : length (content b'.w) ≡ length (content b.w) + f

module _ {W : Type 0} where
  keep_rest-size : (n : ℕ) (e : Error) (b : BufIo W) → length (keep_rest n e b).buf ≡ length b.buf
  unfolding keep_rest
  keep_rest-size n e b = ground (arith, length-copy_at 0 (take (b.n - n) (drop n b.buf)) b.buf)

  keep_rest-n : (n : ℕ) (e : Error) (b : BufIo W) → (keep_rest n e b).n ≤ b.n
  unfolding keep_rest
  keep_rest-n n e b = omega arith

  -- What is kept after a failed flush is what the writer did not take.
  keep_rest-pending :
      (n : ℕ) (e : Error) (b : BufIo W)
      → n ≤ b.n
      → IsValid b
      → pending (keep_rest n e b) ≡ drop n (pending b)
  unfolding keep_rest
  keep_rest-pending n e b h v =
      rw (drop-take n b.n b.buf) (elim (Bool-cases (ltb 0 n && ltb n b.n)) [
        | inl moved ↦
            let short : length (take (b.n - n) (drop n b.buf)) ≡ b.n - n =
              length-take (b.n - n) (drop n b.buf) (omega (arith, length-drop n b.buf)) in
            rw moved (
              take-copy_front (b.n - n) (take (b.n - n) (drop n b.buf)) b.buf (omega arith)
                (omega arith)
              ∙ take_of_le (b.n - n) (take (b.n - n) (drop n b.buf)) (omega arith))
        | inr still ↦ rw still (elim (dec_lt 0 n) [
          | yes p ↦ let whole : b.n - n ≡ 0 = ground arith in rw whole
          | no p ↦ let nothing : n ≡ 0 = omega arith in rw nothing
        ])
      ])

  -- The error of a flush is nil only if the whole buffer was written.
  flush_error-none :
      (n : ℕ) (e : Option Error) (b : BufIo W) → flush_error n e b ≡ none → (e ≡ none) × (b.n ≤ n)
  unfolding flush_error
  flush_error-none n none b h = ground arith
  flush_error-none n (some e) b h = ground arith

module _ {W : Type 0} (write_to : Writer W) where
  -- A kept error is returned by every later flush, which does nothing.
  pub flush-sticky : (b : BufIo W) (e : Error) → b.err ≡ some e → flush write_to b ≡ (0, some e, b)
  unfolding flush
  flush-sticky b e h = ground arith

  pub flush-clean : (b : BufIo W) → b.err ≡ none → flush write_to b ≡ flush_buffered write_to b
  unfolding flush
  flush-clean b h = ground arith

module _ {W : Type 0} (write_to : Writer W) (content : W → List ℕ)
    (io : IsWriter write_to content) where
  abbrev Flushes : BufIo W → ℕ × Option Error × BufIo W → Type 0
  Flushes b (f, e, b') =
      Continues content b b' [] f × (b'.err ≡ e) × (e ≡ none → b'.n ≡ 0) × (f ≤ b.n)

  -- The writer's call in `flush`, on the whole buffer.
  wrote :
      (b : BufIo W)
      → IsValid b
      → let n = (write_to b.w (pending b)).0 in
        let w = (write_to b.w (pending b)).2 in
        (n ≤ b.n)
        × (content w ≡ content b.w ++ take n (pending b))
        × (length (content w) ≡ length (content b.w) + n)
  wrote b v =
      let P = pending b in
      let n = (write_to b.w P).0 in
      let short : length P ≡ b.n = length-take b.n b.buf v in
      let within : n ≤ length P = io.bounded b.w P in
      (
        omega arith,
        io.appended b.w P,
        ap length (io.appended b.w P)
            ∙ omega (arith, length-append (content b.w) (take n P), length-take n P within),
      )

  flush_failed :
      (b : BufIo W) (n : ℕ) (w : W) (e : Error)
      → IsValid b
      → n ≤ b.n
      → content w ≡ content b.w ++ take n (pending b)
      → length (content w) ≡ length (content b.w) + n
      → Flushes b (n, some e, keep_rest n e (record b { w = w }))
  unfolding keep_rest
  flush_failed b n w e v h c l = (
    record {
      valid =
          omega
            (arith, keep_rest-size n e (record b { w = w }), keep_rest-n n e (record b { w = w }));
      size = keep_rest-size n e (record b { w = w });
      stream = rw (keep_rest-pending n e (record b { w = w }) h v) (
          rw c (
            append_assoc (content b.w) (take n (pending b)) (drop n (pending b))
            ∙ ap (λ l. content b.w ++ l) (take-append-drop n (pending b))
            ∙ sym (append-nil (content b.w ++ pending b))));
      count = l;
    },
    refl,
    λ q. cc,
    h,
  )

  unmoved : (b : BufIo W) → IsValid b → Continues content b b [] 0
  unmoved b v = record {
    valid = v;
    size = refl;
    stream = sym (append-nil (content b.w ++ pending b));
    count = omega arith;
  }

  flush_done :
      (b : BufIo W) (n : ℕ) (w : W)
      → IsValid b
      → n ≤ b.n
      → b.n ≤ n
      → content w ≡ content b.w ++ take n (pending b)
      → length (content w) ≡ length (content b.w) + n
      → b.err ≡ none
      → Flushes b (n, none, record b { w = w; n = 0 })
  flush_done b n w v h h' c l clean =
      let whole : take n (pending b) ≡ pending b =
        take_of_le n (pending b) (omega (arith, length-take b.n b.buf v)) in
      (
        record {
          valid = omega arith;
          size = refl;
          stream = ap (λ l. l ++ []) (c ∙ ap (λ l. content b.w ++ l) whole);
          count = l;
        },
        clean,
        λ q. refl,
        h,
      )

  flush_buffered_lem :
      (b : BufIo W) → IsValid b → b.err ≡ none → Flushes b (flush_buffered write_to b)
  unfolding flush_buffered
  flush_buffered_lem b v clean = elim (Bool-cases (b.n == 0)) [
    | inl zero_left ↦ rw zero_left (unmoved b v, clean, λ q. ground arith, omega arith)
    | inr some_left ↦
        let (n, e, w) = write_to b.w (pending b) in
        let (h, c, l) = wrote b v in
        rw some_left (elim (Option-cases (flush_error n e (record b { w = w }))) [
          | inr (e', failed) ↦ rw failed (flush_failed b n w e' v h c l)
          | inl fine ↦
              let (quiet, full) = flush_error-none n e (record b { w = w }) fine in
              rw fine (flush_done b n w v h full c l clean)
        ])
  ]

  -- On a valid buffer, over a writer that keeps its contract: a flush keeps the buffer valid and
  -- the stream, so what the writer has then, followed by what is still pending, is what it had,
  -- followed by what was pending. The count is that of the bytes that have gone to the writer, the
  -- error is kept in the buffer, and without one the buffer is empty.
  pub flush_lem :
      (b : BufIo W)
      → IsValid b
      → let (f, e, b') = flush write_to b in
        Continues content b b' [] f × (b'.err ≡ e) × (e ≡ none → b'.n ≡ 0) × (f ≤ b.n)
  unfolding flush
  flush_lem b v = elim (Option-cases b.err) [
    | inr (e, h) ↦
        subst⁻¹ (Flushes b) (flush-sticky write_to b e h) (unmoved b v, h, λ q. cc, omega arith)
    | inl h ↦ subst⁻¹ (Flushes b) (flush-clean write_to b h) (flush_buffered_lem b v h)
  ]
