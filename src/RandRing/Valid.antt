-- ===== src/RandRing/Valid.antt =====
-- The invariant of `Ring`: the mask is that of the buckets' number, and the indices are words.
use nanozap.Base.{
  ℕ, zero, suc, [], ◌∷◌, set, refl, ◌-◌, ◌%◌, ◌^◌, ◌≤◌, ◌<◌, ◌≡◌, Option, none, some, List, arith,
  bit_and, length, get_or, length-set, length-replicate, get_elem?-eq-get_or,
}
use nanozap.Base.Bits.{bit_and_mask}
use native.Mathlib.Nat.{one-le-pow}
use nanozap.RandRing.{
  Ring, reload, fresh, new_rand_ring, write_slot, read_slot, push, take_next, add_u64,
}

pub record IsValid {ℓ} {A : Type ℓ} (n : ℕ) (r : Ring A) : Type 0 where
  pub size_min : 1 ≤ n
  pub size_max : n ≤ 16
  pub masked : r.mask ≡ 2 ^ n - 1
  pub sized : length r.buckets ≡ 2 ^ n
  pub write_word : r.write_index < 2 ^ 64
  pub cache_word : r.write_index_cache < 2 ^ 64
  pub read_word : r.read_index < 2 ^ 64

module _ {ℓ} {A : Type ℓ} where
  -- An index under the mask is the remainder by the ring's size.
  pub slot_mod : {n : ℕ} {r : Ring A} (i : ℕ) → IsValid n r → bit_and i r.mask ≡ i % 2 ^ n
  slot_mod {n} i v = rw v.masked (bit_and_mask n i)

  pub slot_lt : {n : ℕ} {r : Ring A} (i : ℕ) → IsValid n r → bit_and i r.mask < length r.buckets
  slot_lt {n} {r} i v = ground (arith, slot_mod i v, v.sized, one-le-pow n 2)

  pub new_rand_ring-IsValid : (n : ℕ) {r : Ring A} → new_rand_ring n ≡ some r → IsValid n r
  unfolding new_rand_ring
  new_rand_ring-IsValid n h =
      ground (arith, length-replicate (2 ^ n) (let x : Option A = none in x), one-le-pow n 2)

  pub new_rand_ring_eq : (n : ℕ) {r : Ring A} → new_rand_ring n ≡ some r → r ≡ fresh n
  unfolding new_rand_ring
  new_rand_ring_eq n h = ground arith

  pub reload-IsValid : {n : ℕ} {r : Ring A} → IsValid n r → IsValid n (reload r)
  reload-IsValid v = ground arith

  -- What `Push` leaves behind: the bucket's old content is handed back.
  abbrev pub pushed : A → Ring A → Ring A
  pushed x r = record r {
    write_index = add_u64 r.write_index 1;
    buckets = set r.buckets (write_slot r) (some x);
  }

  pub push_lem :
      {n : ℕ} {r : Ring A} (y : A)
      → IsValid n r
      → push y r ≡ some (get_or r.buckets (write_slot r) none, pushed y r)
  unfolding push
  push_lem {n} {r} y v = rw (get_elem?-eq-get_or r.buckets (write_slot r) none (slot_lt _ v), push)

  pub pushed-IsValid : {n : ℕ} {r : Ring A} (y : A) → IsValid n r → IsValid n (pushed y r)
  pushed-IsValid {n} {r} y v = ground (arith, length-set r.buckets (write_slot r) (some y))

  -- The bucket that the reader is at.
  abbrev pub next_item : Ring A → Option A
  next_item r = get_or r.buckets (read_slot r) none

  -- What `TryPop` leaves behind when it takes an item.
  abbrev pub taken : Ring A → Ring A
  taken r = record r {
    read_index = add_u64 r.read_index 1;
    buckets = set r.buckets (read_slot r) none;
  }

  pub taken-IsValid : {n : ℕ} {r : Ring A} → IsValid n r → IsValid n (taken r)
  taken-IsValid {n} {r} v = ground (arith, length-set r.buckets (read_slot r) none)

  pub set_same : (xs : List (Option A)) (i : ℕ) → get_or xs i none ≡ none → set xs i none ≡ xs
  set_same [] i h = refl
  set_same (x ∷ xs) zero h = rw h
  set_same (x ∷ xs) (suc i) h = rw (set_same xs i h)

  -- `TryPop` past its guard, on an empty and on a full bucket.
  pub take_next-none :
      {n : ℕ} {r : Ring A} → IsValid n r → next_item r ≡ none → take_next r ≡ some (none, r)
  unfolding take_next
  take_next-none {n} {r} v h =
      rw (get_elem?-eq-get_or r.buckets (read_slot r) none (slot_lt _ v), take_next)
        (rw (h, set_same r.buckets (read_slot r) h))

  pub take_next-some :
      {n : ℕ} {r : Ring A} (x : A)
      → IsValid n r
      → next_item r ≡ some x
      → take_next r ≡ some (some x, taken r)
  unfolding take_next
  take_next-some {n} {r} x v h =
      rw (get_elem?-eq-get_or r.buckets (read_slot r) none (slot_lt _ v), take_next) (rw h)
