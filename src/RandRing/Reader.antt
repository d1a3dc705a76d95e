-- ===== src/RandRing/Reader.antt =====
-- randring.go: items that are in the ring and that the consumer does not get.
use nanozap.Base.{
  ℕ, ◌+◌, ◌^◌, ◌%◌, ◌≤◌, ◌<◌, ◌≡◌, refl, Option, none, some, List, [], ◌∷◌, arith, ap, length,
  get_or-set, get_or, get_or-replicate,
}
use nanozap.Base.Bits.{mod_inj}
use native.Mathlib.Nat.{one-le-pow, mod-eq_of_lt}
use nanozap.RandRing.{
  Ring, fresh, reload, new_rand_ring, push, try_pop, read_slot, write_slot, Op, put, Run, step, run,
  add_u64, cons_some,
}
use nanozap.RandRing.Valid.{
  IsValid, slot_mod, slot_lt, pushed, push_lem, pushed-IsValid, new_rand_ring_eq,
  new_rand_ring-IsValid, next_item, take_next-none,
}

module _ {A : Type 0} where
  -- If the write index has not passed the read index, `TryPop` hands out nothing, even where the
  -- reader's bucket holds an item.
  pub try_pop-caught_up :
      (r : Ring A)
      → r.write_index ≤ r.read_index
      → r.write_index_cache ≤ r.read_index
      → try_pop r ≡ some (none, reload r)
  unfolding try_pop
  try_pop-caught_up r h k = ground arith

  first_stored :
      (n : ℕ) (x : A) → IsValid n (fresh {A = A} n) → next_item (pushed x (fresh n)) ≡ some x
  first_stored n x v = ground (
    arith,
    get_or-set (fresh {A = A} n).buckets 0 0 (some x) none (omega (arith, v.sized, one-le-pow n 2)),
    slot_mod 0 v,
    mod-eq_of_lt {n = 0} {m = 2 ^ n} (omega (arith, one-le-pow n 2)),
  )

  -- On a new ring whose consumer has not looked yet, the first item that is pushed cannot be
  -- popped: the push frees nothing, the item is in the reader's bucket, and `TryPop` hands out
  -- nothing and leaves it there.
  pub first_item_withheld :
      (n : ℕ) (x : A) {r : Ring A}
      → new_rand_ring n ≡ some r
      → (r' : Ring A) × (push x r ≡ some (none, r'))
        × (next_item r' ≡ some x)
        × (try_pop r' ≡ some (none, reload r'))
  first_item_withheld n x {r} h =
      let v = new_rand_ring-IsValid n h in
      let fresh_v : IsValid n (fresh n) = rw (new_rand_ring_eq n h) at v in
      rw (new_rand_ring_eq n h) (
        pushed x (fresh n),
        rw (push_lem x fresh_v)
            (rw (get_or-replicate (2 ^ n) (write_slot (fresh n)) (let o : Option A = none in o))),
        first_stored n x fresh_v,
        try_pop-caught_up (pushed x (fresh n)) (omega arith) (omega arith),
      )

  abbrev pub puts : List A → List (Op A)
  puts [] = []
  puts (x ∷ xs) = put x ∷ puts xs

  -- The reader's bucket is empty, and `i` pushes ago the writer passed it (`base` is the index that
  -- it had there).
  pub record Lapped (n base i : ℕ) (r : Ring A) : Type 0 where
    pub valid : IsValid n r
    pub primed : r.read_index < r.write_index_cache
    pub waiting : next_item r ≡ none
    pub met : base % 2 ^ n ≡ r.read_index % 2 ^ n
    pub written : add_u64 r.write_index 1 ≡ base + i

  push-Lapped :
      {n base i : ℕ} {r : Ring A} (x : A)
      → Lapped n base i r
      → 0 < i
      → i < 2 ^ n
      → base + i + 1 < 2 ^ 64
      → Lapped n base (i + 1) (pushed x r)
  push-Lapped {n} {base} {i} {r} x l pos below small = record {
    valid = pushed-IsValid x l.valid;
    primed = l.primed;
    waiting = ground (
      arith,
      l.waiting,
      get_or-set r.buckets (write_slot r) (read_slot r) (some x) none (slot_lt _ l.valid),
      slot_mod r.read_index l.valid,
      slot_mod (add_u64 r.write_index 1) l.valid,
      l.written,
      l.met,
      mod_inj base i 0 (2 ^ n),
      base_zero,
    );
    met = l.met;
    written = omega (arith, l.written);
  }
    where
      base_zero : (base + 0) % 2 ^ n ≡ base % 2 ^ n
      base_zero = ap (λ t. t % 2 ^ n) (omega arith)

  -- A reader that was lapped starves: while the pushes have not come round to its bucket again,
  -- `TryPop` hands out nothing, whatever items the other buckets hold.
  pub try_pop-Lapped :
      {n base : ℕ} (i : ℕ) (xs : List A) (s : Run A)
      → Lapped n base i s.ring
      → 0 < i
      → i + length xs ≤ 2 ^ n
      → base + i + length xs < 2 ^ 64
      → (s' : Run A) × (run (puts xs) s ≡ some s')
        × (try_pop s'.ring ≡ some (none, s'.ring))
        × (s'.popped ≡ s.popped)
  unfolding run step try_pop
  try_pop-Lapped i [] s l pos below small =
      (s, refl, ground (arith, take_next-none l.valid l.waiting, l.primed), refl)
  try_pop-Lapped {n} {base} i (x ∷ xs) s l pos below small =
      let old = get_or s.ring.buckets (write_slot s.ring) none in
      let s₁ = record s { ring = pushed x s.ring; freed = cons_some old s.freed } in
      let l₁ = push-Lapped x l pos (omega arith) (omega arith) in
      let (s₂, e, t, p) =
        try_pop-Lapped (i + 1) xs s₁ l₁ (omega arith) (omega arith) (omega arith) in
      (s₂, rw (push_lem x l.valid, run, step) e, t, p)
