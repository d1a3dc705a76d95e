-- ===== src/RandRing/Interleave.antt =====
-- Producers and the consumer in any order: every atomic operation of `Push` and `TryPop` is a step.
-- Between its two a producer has claimed an index and not stored its item yet; the consumer has
-- passed the guard, or not.
pub mod Conserve
use nanozap.Base.{ℕ, ◌≡◌, Option, none, some, List, [], ◌∷◌, ◌++◌, leb, if◌then◌else◌, get_or, set}
use nanozap.RandRing.{Ring, reload, read_slot, write_slot, add_u64, cons_some}

pub data Consumer : Type 0 where
  idle ready : Consumer

-- `pending` holds the indices that producers have claimed, with their items; `claimed` is every
-- item that a `Push` has begun with.
pub record System (A : Type 0) : Type 0 where
  pub ring : Ring A
  pub consumer : Consumer
  pub pending : List (ℕ × A)
  pub claimed : List A
  pub popped : List A
  pub freed : List A

module _ {A : Type 0} where
  -- `idx := atomic.AddUint64(&r.writeIndex, 1) & r.mask`
  unfoldable pub claim : A → System A → System A
  claim x s = record s {
    ring = record (s.ring) { write_index = add_u64 s.ring.write_index 1 };
    pending = (write_slot s.ring, x) ∷ s.pending;
    claimed = x ∷ s.claimed;
  }

  -- `old := atomic.SwapPointer(&r.buckets[idx], data)`, and the free of what was there.
  unfoldable pub store : ℕ → A → List (ℕ × A) → System A → System A
  store i x rest s = record s {
    ring = record (s.ring) { buckets = set s.ring.buckets i (some x) };
    pending = rest;
    freed = cons_some (get_or s.ring.buckets i none) s.freed;
  }

  abbrev pub guarded : Ring A → Ring A
  guarded r = if leb r.write_index_cache r.read_index then reload r else r

  -- The guard of `TryPop`, with its load of the write index.
  unfoldable pub check_guard : System A → System A
  check_guard s = record s {
    ring = guarded s.ring;
    consumer =
        if leb (guarded s.ring).write_index_cache (guarded s.ring).read_index then idle else ready;
  }

  abbrev pub advance : Option A → Ring A → Ring A
  advance none r = r
  advance (some x) r = record r { read_index = add_u64 r.read_index 1 }

  -- `data := atomic.SwapPointer(&r.buckets[idx], nil)`, and what `TryPop` does with it.
  unfoldable pub take_bucket : System A → System A
  take_bucket s =
      let item = get_or s.ring.buckets (read_slot s.ring) none in
      record s {
        ring =
            advance item (record (s.ring) { buckets = set s.ring.buckets (read_slot s.ring) none });
        consumer = idle;
        popped = cons_some item s.popped;
      }

  pub data Step (s : System A) : System A → Type 0 where
    claims : (x : A) → Step s (claim x s)
    stores :
        (i : ℕ) (x : A) (before after : List (ℕ × A))
        → s.pending ≡ before ++ (i, x) ∷ after
        → Step s (store i x (before ++ after) s)
    checks : s.consumer ≡ idle → Step s (check_guard s)
    takes : s.consumer ≡ ready → Step s (take_bucket s)

  abbrev pub start : Ring A → System A
  start r = record {
    ring = r;
    consumer = idle;
    pending = [];
    claimed = [];
    popped = [];
    freed = [];
  }

  pub data Reach (r : Ring A) : System A → Type 0 where
    begins : Reach r (start r)
    later : {s t : System A} → Reach r s → Step s t → Reach r t
