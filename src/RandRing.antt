-- ===== src/RandRing.antt =====
-- randring.go: the ring of buckets between the producers and the one consumer.
-- A pointer is an optional value (`none` is nil), so the ring is generic in what it points to.
-- An operation returns `none` where the Go code would panic on an index out of range; the atomic
-- operations are one step each, and `Interleave` runs them in any order.
pub mod Valid
pub mod Conserve
pub mod Fifo
pub mod Reader
pub mod Interleave
mod Tests
use nanozap.Base.{
  ℕ, ◌+◌, ◌-◌, ◌%◌, ◌^◌, Bool, ◌||◌, Option, none, some, List, [], ◌∷◌, bit_and, ltb, leb, ◌==◌,
  if◌then◌else◌, get_elem?, set, replicate,
}

-- `Ring`, without its padding.
pub record Ring {ℓ} (A : Type ℓ) : Type ℓ where
  pub mask : ℕ
  pub write_index : ℕ
  pub write_index_cache : ℕ
  pub read_index : ℕ
  pub buckets : List (Option A)

-- `uint64` addition.
abbrev pub add_u64 : ℕ → ℕ → ℕ
add_u64 a b = (a + b) % 2 ^ 64

module _ {ℓ} {A : Type ℓ} where
  -- `^0` is the largest uint64.
  abbrev pub fresh : ℕ → Ring A
  fresh n = record {
    mask = 2 ^ n - 1;
    write_index = 2 ^ 64 - 1;
    write_index_cache = 0;
    read_index = 0;
    buckets = replicate (2 ^ n) none;
  }

  -- `none` is the panic on an illegal size.
  unfoldable pub new_rand_ring : ℕ → Option (Ring A)
  new_rand_ring n = if ltb 16 n || n == 0 then none else some (fresh n)

  -- The bucket that the next `Push` writes.
  abbrev pub write_slot : Ring A → ℕ
  write_slot r = bit_and (add_u64 r.write_index 1) r.mask

  -- The bucket that the next `TryPop` reads.
  abbrev pub read_slot : Ring A → ℕ
  read_slot r = bit_and r.read_index r.mask

  -- The new ring, beside what was in the bucket: it is freed if it is not nil.
  unfoldable pub push : A → Ring A → Option (Option A × Ring A)
  push x r = elim (get_elem? r.buckets (write_slot r)) [
    | none ↦ none
    | some old ↦ some (
      old,
      record r {
        write_index = add_u64 r.write_index 1;
        buckets = set r.buckets (write_slot r) (some x);
      },
    )
  ]

  -- `TryPop` from `idx := r.readIndex & r.mask` on.
  unfoldable pub take_next : Ring A → Option (Option A × Ring A)
  take_next r = elim (get_elem? r.buckets (read_slot r)) [
    | none ↦ none
    | some none ↦ some (none, record r { buckets = set r.buckets (read_slot r) none })
    | some (some x) ↦ some (
      some x,
      record r { read_index = add_u64 r.read_index 1; buckets = set r.buckets (read_slot r) none },
    )
  ]

  -- `r.writeIndexCache = atomic.LoadUint64(&r.writeIndex)`
  abbrev pub reload : Ring A → Ring A
  reload r = record r { write_index_cache = r.write_index }

  unfoldable pub try_pop : Ring A → Option (Option A × Ring A)
  try_pop r =
      if leb r.write_index_cache r.read_index
      then if leb r.write_index r.read_index then some (none, reload r) else take_next (reload r)
      else take_next r

-- A client's calls, in order.
pub data Op {ℓ} (A : Type ℓ) : Type ℓ where
  put : A → Op A
  get : Op A

-- What a run of calls has handed to the consumer and what it has freed, latest first.
pub record Run {ℓ} (A : Type ℓ) : Type ℓ where
  pub ring : Ring A
  pub popped : List A
  pub freed : List A

module _ {ℓ} {A : Type ℓ} where
  abbrev pub cons_some : Option A → List A → List A
  cons_some none xs = xs
  cons_some (some x) xs = x ∷ xs

  pub step : Op A → Run A → Option (Run A)
  step (put x) s = elim (push x s.ring) [
    | none ↦ none
    | some (old, r) ↦ some (record s { ring = r; freed = cons_some old s.freed })
  ]
  step get s = elim (try_pop s.ring) [
    | none ↦ none
    | some (out, r) ↦ some (record s { ring = r; popped = cons_some out s.popped })
  ]

  pub run : List (Op A) → Run A → Option (Run A)
  run [] s = some s
  run (op ∷ ops) s = elim (step op s) [ none ↦ none | some s' ↦ run ops s' ]
