-- ===== src/Zaproll/BufIo/Write/Loop.antt =====
-- zaproll/bufio.go: the loop of `write`.
use mathlib.Core.Path.{subst⁻¹}
use nanozap.Base.{
  ℕ, suc, ◌+◌, ◌-◌, ◌≤◌, ◌≡◌, refl, ap, sym, ◌∙◌, true, false, ◌&&◌, Option, none, some, List, [],
  ◌++◌, arith, ltb, ◌==◌, length, take, drop, length-append, length-take, length-drop, append_assoc,
  append-nil, inl, inr, Bool-cases, Option-cases,
}
use Prim.Native.Nat.{min}
use nanozap.Zaproll.BufIo.{
  BufIo, Writer, IsWriter, pending, avail, buffered, flush, fill, write_loop, is_none,
}
use nanozap.Zaproll.BufIo.Bytes.{length-copy_at, take-copy_at, take-add, drop-add}
use nanozap.Zaproll.BufIo.Flush.{IsValid, Continues, flush_lem}

module _ {W : Type 0} (content : W → List ℕ) where
  pub Continues-trans :
      {b b₁ b₂ : BufIo W} {t₁ t₂ : List ℕ} {f₁ f₂ : ℕ}
      → Continues content b b₁ t₁ f₁
      → Continues content b₁ b₂ t₂ f₂
      → Continues content b b₂ (t₁ ++ t₂) (f₁ + f₂)
  Continues-trans {b} {b₁} {b₂} {t₁} {t₂} c d = record {
    valid = d.valid;
    size = d.size ∙ c.size;
    stream = d.stream ∙ ap (λ l. l ++ t₂) c.stream ∙ append_assoc (content b.w ++ pending b) t₁ t₂;
    count = omega (arith, c.count, d.count);
  }

  pub fill-Continues :
      (p : List ℕ) (b : BufIo W)
      → IsValid b
      → Continues content b (fill p b).1 (take (fill p b).0 p) 0
  unfolding fill
  fill-Continues p b v =
      let k = min (avail b) (length p) in
      record {
        valid = omega (arith, length-copy_at b.n p b.buf);
        size = length-copy_at b.n p b.buf;
        stream =
            ap (λ l. content b.w ++ l) (take-copy_at b.n k p b.buf (omega arith) (omega arith))
            ∙ sym (append_assoc (content b.w) (pending b) (take k p));
        count = omega arith;
      }

module _ {W : Type 0} (write_to : Writer W) where
  pub loop_exit :
      (f : ℕ) (p : List ℕ) (nn fw : ℕ) (b : BufIo W)
      → (ltb (avail b) (length p) && is_none b.err) ≡ false
      → write_loop write_to (suc f) p nn fw b ≡ some (p, nn, fw, b)
  unfolding write_loop
  loop_exit f p nn fw b h = rw h

  pub loop_direct :
      (f : ℕ) (p : List ℕ) (nn fw : ℕ) (b : BufIo W)
      → (ltb (avail b) (length p) && is_none b.err) ≡ true
      → (buffered b == 0) ≡ true
      → let (n, e, w) = write_to b.w p in
        write_loop write_to (suc f) p nn fw b
        ≡ write_loop write_to f (drop n p) (nn + n) (fw + n) (record b { err = e; w = w })
  unfolding write_loop
  loop_direct f p nn fw b h z = rw h (rw z)

  pub loop_through :
      (f : ℕ) (p : List ℕ) (nn fw : ℕ) (b : BufIo W)
      → (ltb (avail b) (length p) && is_none b.err) ≡ true
      → (buffered b == 0) ≡ false
      → let (n, b₁) = fill p b in
        let (fn, e, b₂) = flush write_to b₁ in
        write_loop write_to (suc f) p nn fw b
        ≡ write_loop write_to f (drop n p) (nn + n) (fw + fn) (record b₂ { err = e })
  unfolding write_loop
  loop_through f p nn fw b h z = rw h (rw z)

module _ {W : Type 0} (write_to : Writer W) (content : W → List ℕ)
    (io : IsWriter write_to content) where
  -- The loop ends, having taken `k` bytes of `p`; without an error the rest fits in the buffer.
  abbrev pub LoopsTo : BufIo W → List ℕ → ℕ → ℕ → Option (List ℕ × ℕ × ℕ × BufIo W) → Type 0
  LoopsTo b p nn fw res =
      (k : ℕ) × (f : ℕ) × (b' : BufIo W) × (res ≡ some (drop k p, nn + k, fw + f, b'))
      × (k ≤ length p)
      × Continues content b b' (take k p) f
      × (b'.err ≡ none → length p - k ≤ avail b')

  -- One round, and the rest of the loop after it.
  LoopsTo-after :
      (nn fw : ℕ) {b b₁ : BufIo W} {p : List ℕ} {k₁ f₁ : ℕ}
      {res : Option (List ℕ × ℕ × ℕ × BufIo W)}
      → k₁ ≤ length p
      → Continues content b b₁ (take k₁ p) f₁
      → LoopsTo b₁ (drop k₁ p) (nn + k₁) (fw + f₁) res
      → LoopsTo b p nn fw res
  LoopsTo-after nn fw {b} {b₁} {p} {k₁} {f₁} h c (k₂, f₂, b₂, e, h₂, c₂, r) = (
    k₁ + k₂,
    f₁ + f₂,
    b₂,
    e ∙ regroup,
    omega (arith, length-drop k₁ p),
    rw (take-add k₁ k₂ p) (Continues-trans content c c₂),
    λ q. omega (arith, r q, length-drop k₁ p),
  )
    where
      regroup :
          ◌≡◌ {A = Option (List ℕ × ℕ × ℕ × BufIo W)}
            (some (drop k₂ (drop k₁ p), nn + k₁ + k₂, fw + f₁ + f₂, b₂))
            (some (drop (k₁ + k₂) p, nn + (k₁ + k₂), fw + (f₁ + f₂), b₂))
      regroup = rw (drop-add k₁ k₂ p) (ground arith)

  exits :
      (f : ℕ) (p : List ℕ) (nn fw : ℕ) (b : BufIo W)
      → IsValid b
      → (ltb (avail b) (length p) && is_none b.err) ≡ false
      → LoopsTo b p nn fw (write_loop write_to (suc f) p nn fw b)
  exits f p nn fw b v h = (
    0,
    0,
    b,
    loop_exit write_to f p nn fw b h ∙ ground arith,
    omega arith,
    record {
      valid = v;
      size = refl;
      stream = sym (append-nil (content b.w ++ pending b));
      count = omega arith;
    },
    λ q. ground arith,
  )

  -- A direct write of the whole rest, on an empty buffer.
  direct-Continues :
      (p : List ℕ) (b : BufIo W)
      → (buffered b == 0) ≡ true
      → let (n, e, w) = write_to b.w p in
        Continues content b (record b { err = e; w = w }) (take n p) n
  direct-Continues p b z =
      let n = (write_to b.w p).0 in
      let empty : b.n ≡ 0 = ground arith in
      let nothing : pending b ≡ [] = ap (λ i. take i b.buf) empty in
      record {
        valid = omega arith;
        size = refl;
        stream =
            ap (λ l. content (write_to b.w p).2 ++ l) nothing
            ∙ append-nil (content (write_to b.w p).2)
            ∙ io.appended b.w p
            ∙ ap (λ l. l ++ take n p)
                (sym (append-nil (content b.w)) ∙ ap (λ l. content b.w ++ l) (sym nothing));
        count =
            ap length (io.appended b.w p)
            ∙ omega
                (arith, length-append (content b.w) (take n p), length-take n p (io.bounded b.w p));
      }

  -- After it the loop stops: nothing is left, or there is an error.
  direct_stops :
      (p : List ℕ) (b : BufIo W)
      → let (n, e, w) = write_to b.w p in
        (ltb (length b.buf - b.n) (length (drop n p)) && is_none e) ≡ false
  direct_stops p b =
      ground (arith, io.complete b.w p, length-drop (write_to b.w p).0 p, io.bounded b.w p)

  -- On an empty buffer two rounds are enough.
  loop_empty :
      (f : ℕ) (p : List ℕ) (nn fw : ℕ) (b : BufIo W)
      → IsValid b
      → (buffered b == 0) ≡ true
      → LoopsTo b p nn fw (write_loop write_to (suc (suc f)) p nn fw b)
  loop_empty f p nn fw b v z = elim (Bool-cases (ltb (avail b) (length p) && is_none b.err)) [
    | inr h ↦ exits (suc f) p nn fw b v h
    | inl h ↦
        let (n, e, w) = write_to b.w p in
        let c = direct-Continues p b z in
        let b₁ : BufIo W = record b { err = e; w = w } in
        subst⁻¹ (LoopsTo b p nn fw) (loop_direct write_to (suc f) p nn fw b h z) (
          LoopsTo-after nn fw (io.bounded b.w p) c
            (exits f (drop n p) (nn + n) (fw + n) b₁ c.valid (direct_stops p b)))
  ]

  -- Filling the buffer and flushing it.
  through-Continues :
      (p : List ℕ) (b : BufIo W)
      → IsValid b
      → let (n, b₁) = fill p b in
        let (fn, e, b₂) = flush write_to b₁ in
        Continues content b (record b₂ { err = e }) (take n p) fn
        × (e ≡ none → b₂.n ≡ 0)
        × (n ≤ length p)
  unfolding fill
  through-Continues p b v =
      let c = fill-Continues content p b v in
      let (d, same, empty, _) = flush_lem write_to content io (fill p b).1 c.valid in
      let both = Continues-trans content c d in
      (
        record {
          valid = both.valid;
          size = both.size;
          stream =
              both.stream
              ∙ ap (λ l. (content b.w ++ pending b) ++ l) (append-nil (take (fill p b).0 p));
          count = omega (arith, both.count);
        },
        empty,
        omega arith,
      )

  -- On any buffer three rounds are enough.
  pub loop_any :
      (f : ℕ) (p : List ℕ) (nn fw : ℕ) (b : BufIo W)
      → IsValid b
      → LoopsTo b p nn fw (write_loop write_to (suc (suc (suc f))) p nn fw b)
  loop_any f p nn fw b v = elim (Bool-cases (ltb (avail b) (length p) && is_none b.err)) [
    | inr h ↦ exits (suc (suc f)) p nn fw b v h
    | inl h ↦ elim (Bool-cases (buffered b == 0)) [
      | inl z ↦ loop_empty (suc f) p nn fw b v z
      | inr z ↦
          let (n, b₁) = fill p b in
          let (fn, e, b₂) = flush write_to b₁ in
          let (c, empty, within) = through-Continues p b v in
          let b₃ : BufIo W = record b₂ { err = e } in
          let rest = drop n p in
          subst⁻¹ (LoopsTo b p nn fw) (loop_through write_to (suc (suc f)) p nn fw b h z) (
            LoopsTo-after nn fw within c (elim (Option-cases e) [
              | inl clean ↦
                  loop_empty f rest (nn + n) (fw + fn) b₃ c.valid (ground (arith, empty clean))
              | inr (x, bad) ↦
                  exits (suc f) rest (nn + n) (fw + fn) b₃ c.valid (rw bad (ground arith))
            ]))
    ]
  ]
