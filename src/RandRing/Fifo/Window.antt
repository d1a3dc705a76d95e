-- ===== src/RandRing/Fifo/Window.antt =====
-- The ring that holds a queue: from the reader's bucket on, the items in order, then empty buckets.
use nanozap.Base.{
  ℕ, zero, suc, ◌+◌, ◌-◌, ◌%◌, ◌^◌, ◌≤◌, ◌<◌, ◌≡◌, refl, ap, ◌∙◌, none, some, List, [], ◌∷◌, ◌++◌,
  arith, ◌==◌, if◌then◌else◌, length, get_or, get_elem?, length-append, get_or-set, dec_lt,
}
use nanozap.Base.Bits.{mod_inj, mod_wrap_whole}
use native.Mathlib.Nat.{one-le-pow}
use nanozap.RandRing.{Ring, try_pop, add_u64, read_slot, write_slot}
use nanozap.RandRing.Valid.{
  IsValid, slot_mod, slot_lt, pushed, pushed-IsValid, next_item, taken, taken-IsValid,
  take_next-none, take_next-some,
}

-- `ahead` keeps the indices clear of the wrap at 2^64; `primed` is the state of the cache from the
-- first `TryPop` of a new ring on, which reads the initial write index 2^64 - 1.
pub record InStep {A : Type 0} (n : ℕ) (r : Ring A) (q : List A) : Type 0 where
  pub valid : IsValid n r
  pub fits : length q ≤ 2 ^ n
  pub ahead : r.read_index + length q < 2 ^ 64 - 1
  pub primed : r.write_index_cache ≡ 2 ^ 64 - 1
  pub written : add_u64 r.write_index 1 ≡ r.read_index + length q
  pub window :
      (j : ℕ) → j < 2 ^ n → get_or r.buckets ((r.read_index + j) % 2 ^ n) none ≡ get_elem? q j

get_elem?-concat :
    {A : Type 0} (q : List A) (x : A) (j : ℕ)
    → get_elem? (q ++ x ∷ []) j ≡ (if length q == j then some x else get_elem? q j)
get_elem?-concat [] x zero = refl
get_elem?-concat [] x (suc j) = ground arith
get_elem?-concat (y ∷ q) x zero = ground arith
get_elem?-concat (y ∷ q) x (suc j) = ground (arith, get_elem?-concat q x j)

get_elem?_past : {A : Type 0} (q : List A) (j : ℕ) → length q ≤ j → get_elem? q j ≡ none
get_elem?_past [] j h = refl
get_elem?_past (y ∷ q) zero h = absurd (omega arith)
get_elem?_past (y ∷ q) (suc j) h = get_elem?_past q j (omega arith)

size_pos : (n : ℕ) → 0 < 2 ^ n
size_pos n = one-le-pow n 2 (omega arith)

module _ {A : Type 0} {n : ℕ} where
  write_slot-lem :
      {r : Ring A} {q : List A} → InStep n r q → write_slot r ≡ (r.read_index + length q) % 2 ^ n
  write_slot-lem {r} c = rw (← c.written) (slot_mod _ c.valid)

  -- What stands in the bucket that the next push writes: nothing while there is room.
  pub old_none :
      {r : Ring A} {q : List A}
      → InStep n r q
      → length q < 2 ^ n
      → get_or r.buckets (write_slot r) none ≡ none
  old_none {r} {q} c h =
      rw (write_slot-lem c) (c.window (length q) h ∙ get_elem?_past q (length q) (omega arith))

  -- On a full ring the reader and the writer meet: the bucket holds the oldest item.
  pub old_head :
      {r : Ring A} {x : A} {q : List A}
      → InStep n r (x ∷ q)
      → length (x ∷ q) ≡ 2 ^ n
      → get_or r.buckets (write_slot r) none ≡ some x
  old_head {r} {x} {q} c h =
      let wrapped : (r.read_index + 2 ^ n) % 2 ^ n ≡ (r.read_index + 0) % 2 ^ n =
        mod_wrap_whole r.read_index (2 ^ n) in
      rw (write_slot-lem c, h, wrapped) (c.window 0 (size_pos n))

  pub push-InStep :
      {r : Ring A} {q : List A} (x : A)
      → InStep n r q
      → length q < 2 ^ n
      → r.read_index + length q + 1 < 2 ^ 64 - 1
      → InStep n (pushed x r) (q ++ x ∷ [])
  push-InStep {r} {q} x c h b = record {
    valid = pushed-IsValid x c.valid;
    fits = omega (arith, length-append q (x ∷ []));
    ahead = omega (arith, length-append q (x ∷ []));
    primed = c.primed;
    written = omega (arith, length-append q (x ∷ []), c.written);
    window = λ j hj. ground (
      arith,
      write_slot-lem c,
      get_or-set r.buckets (write_slot r) ((r.read_index + j) % 2 ^ n) (some x) none
          (slot_lt _ c.valid),
      c.window j hj,
      get_elem?-concat q x j,
      mod_inj r.read_index (length q) j (2 ^ n),
    );
  }

  next_item-head : {r : Ring A} {q : List A} → InStep n r q → next_item r ≡ get_elem? q 0
  next_item-head {r} c =
      rw (slot_mod r.read_index c.valid)
        (ap (λ i. get_or r.buckets (i % 2 ^ n) none) (omega arith) ∙ c.window 0 (size_pos n))

  taken_window :
      {r : Ring A} {x : A} {q : List A}
      → InStep n r (x ∷ q)
      → (j : ℕ) → j < 2 ^ n
      → get_or (taken r).buckets (((taken r).read_index + j) % 2 ^ n) none ≡ get_elem? q j
  taken_window {r} {x} {q} c j hj =
      let next : (taken r).read_index ≡ r.read_index + 1 = omega (arith, c.ahead) in
      let here : read_slot r ≡ r.read_index % 2 ^ n = slot_mod r.read_index c.valid in
      let index : (taken r).read_index + j ≡ r.read_index + suc j = omega (arith, next) in
      let start : r.read_index % 2 ^ n ≡ (r.read_index + 0) % 2 ^ n =
        ap (λ i. i % 2 ^ n) (omega arith) in
      let written =
        get_or-set r.buckets (read_slot r) ((r.read_index + suc j) % 2 ^ n) none none
          (slot_lt _ c.valid) in
      rw (index, written)
        (elim (dec_lt (suc j) (2 ^ n)) [
          | yes h ↦
              ground
                (arith, here, start, c.window (suc j) h, mod_inj r.read_index 0 (suc j) (2 ^ n))
          | no h ↦
              let whole : suc j ≡ 2 ^ n = omega arith in
              ground (
                arith,
                here,
                start,
                whole,
                mod_wrap_whole r.read_index (2 ^ n),
                get_elem?_past q j (omega (arith, c.fits)),
              )
        ])

  pub take-InStep : {r : Ring A} {x : A} {q : List A} → InStep n r (x ∷ q) → InStep n (taken r) q
  take-InStep {r} {x} {q} c = record {
    valid = taken-IsValid c.valid;
    fits = omega (arith, c.fits);
    ahead = omega (arith, c.ahead);
    primed = c.primed;
    written = omega (arith, c.written, c.ahead);
    window = λ j hj. taken_window c j hj;
  }

  pub try_pop-head :
      {r : Ring A} {x : A} {q : List A} → InStep n r (x ∷ q) → try_pop r ≡ some (some x, taken r)
  unfolding try_pop
  try_pop-head {r} {x} {q} c = ground (arith, take_next-some x c.valid (next_item-head c))

  pub try_pop-empty : {r : Ring A} → InStep n r [] → try_pop r ≡ some (none, r)
  unfolding try_pop
  try_pop-empty {r} c = ground (arith, take_next-none c.valid (next_item-head c))
