-- ===== src/RandRing/Interleave/Conserve.antt =====
-- The invariant of the interleaved steps of randring.go.
use nanozap.Base.{
  ℕ, ◌+◌, ◌<◌, ◌≡◌, refl, Option, none, some, List, [], ◌∷◌, ◌++◌, arith, leb, get_or, set,
  length-set, Bool-cases, inl, inr, ap, ◌^◌, replicate, zero, suc,
}
use nanozap.RandRing.{Ring, new_rand_ring, read_slot, add_u64, cons_some}
use nanozap.RandRing.Valid.{
  IsValid, slot_lt, reload-IsValid, new_rand_ring-IsValid, new_rand_ring_eq,
}
use nanozap.RandRing.Conserve.{weigh, weigh_buckets, weigh_option, weigh-set}
use nanozap.RandRing.Interleave.{
  System, Step, Reach, start, claim, store, check_guard, take_bucket, guarded, advance, claims,
  stores, checks, takes, begins, later,
}

module _ {A : Type 0} where
  module _ (w : A → ℕ) where
    abbrev pub weigh_pending : List (ℕ × A) → ℕ
    weigh_pending [] = 0
    weigh_pending ((i, x) ∷ ps) = w x + weigh_pending ps

    weigh_pending-append :
        (ps qs : List (ℕ × A)) → weigh_pending (ps ++ qs) ≡ weigh_pending ps + weigh_pending qs
    weigh_pending-append [] qs = omega arith
    weigh_pending-append ((i, x) ∷ ps) qs = omega (arith, weigh_pending-append ps qs)

    weigh-cons_some :
        (o : Option A) (xs : List A) → weigh w (cons_some o xs) ≡ weigh_option w o + weigh w xs
    weigh-cons_some none xs = omega arith
    weigh-cons_some (some x) xs = refl

  -- Every index that was claimed is one of a bucket.
  abbrev pub InRange : ℕ → List (ℕ × A) → Type 0
  InRange size [] = Unit
  InRange size ((i, x) ∷ ps) = (i < size) × InRange size ps

  InRange-split :
      (size : ℕ) (ps : List (ℕ × A)) (i : ℕ) (x : A) (qs : List (ℕ × A))
      → InRange size (ps ++ (i, x) ∷ qs)
      → (i < size) × InRange size (ps ++ qs)
  InRange-split size [] i x qs h = h
  InRange-split size ((j, y) ∷ ps) i x qs h =
      let rest = InRange-split size ps i x qs h.1 in (rest.0, (h.0, rest.1))

  -- What is in buckets, in the hands of a producer, popped and freed.
  abbrev pub total : (A → ℕ) → System A → ℕ
  total w s =
      weigh_buckets w s.ring.buckets
      + weigh_pending w s.pending
      + weigh w s.popped
      + weigh w s.freed

  pub record Sound (n : ℕ) (s : System A) : Type 0 where
    pub valid : IsValid n s.ring
    pub in_range : InRange (2 ^ n) s.pending

  advance-buckets : (o : Option A) (r : Ring A) → (advance o r).buckets ≡ r.buckets
  advance-buckets none r = refl
  advance-buckets (some x) r = refl

  advance-IsValid : {n : ℕ} (o : Option A) {r : Ring A} → IsValid n r → IsValid n (advance o r)
  advance-IsValid none v = v
  advance-IsValid (some x) v = ground arith

  set-IsValid :
      {n : ℕ} (i : ℕ) (o : Option A) {r : Ring A}
      → IsValid n r
      → IsValid n (record r { buckets = set r.buckets i o })
  set-IsValid i o {r} v = ground (arith, length-set r.buckets i o)

  guarded-IsValid : {n : ℕ} {r : Ring A} → IsValid n r → IsValid n (guarded r)
  guarded-IsValid {n} {r} v = elim (Bool-cases (leb r.write_index_cache r.read_index)) [
    | inl e ↦ rw e (reload-IsValid v)
    | inr e ↦ rw e v
  ]

  guarded-buckets : (r : Ring A) → (guarded r).buckets ≡ r.buckets
  guarded-buckets r = ground arith

  pub store-Sound :
      {n : ℕ} {s : System A} (i : ℕ) (x : A) (before after : List (ℕ × A))
      → s.pending ≡ before ++ (i, x) ∷ after
      → Sound n s
      → Sound n (store i x (before ++ after) s)
        × ((w : A → ℕ) → total w (store i x (before ++ after) s) ≡ total w s)
  unfolding store
  store-Sound {n} {s} i x before after e v =
      let (here, rest) = InRange-split (2 ^ n) before i x after (rw e at v.in_range) in
      (
        record { valid = set-IsValid i (some x) v.valid; in_range = rest },
        λ w. omega (
          arith,
          ap (weigh_pending w) e,
          weigh_pending-append w before ((i, x) ∷ after),
          weigh_pending-append w before after,
          weigh-cons_some w (get_or s.ring.buckets i none) s.freed,
          weigh-set w s.ring.buckets i (some x) (omega (arith, v.valid.sized)),
        ),
      )

  pub take-Sound :
      {n : ℕ} {s : System A}
      → Sound n s
      → Sound n (take_bucket s) × ((w : A → ℕ) → total w (take_bucket s) ≡ total w s)
  unfolding take_bucket
  take-Sound {n} {s} v =
      let item = get_or s.ring.buckets (read_slot s.ring) none in
      (
        record {
          valid = advance-IsValid item (set-IsValid (read_slot s.ring) none v.valid);
          in_range = v.in_range;
        },
        λ w. rw advance-buckets (
            omega (
              arith,
              weigh-cons_some w item s.popped,
              weigh-set w s.ring.buckets (read_slot s.ring) none (slot_lt _ v.valid),
            )),
      )

  pub check-Sound :
      {n : ℕ} {s : System A}
      → Sound n s
      → Sound n (check_guard s) × ((w : A → ℕ) → total w (check_guard s) ≡ total w s)
  unfolding check_guard
  check-Sound {n} {s} v = (
    record { valid = guarded-IsValid v.valid; in_range = v.in_range },
    λ w. rw guarded-buckets refl,
  )

  pub claim-Sound :
      {n : ℕ} {s : System A} (x : A)
      → Sound n s
      → Sound n (claim x s) × ((w : A → ℕ) → total w (claim x s) ≡ w x + total w s)
  unfolding claim
  claim-Sound {n} {s} x v = (
    record {
      valid = ground (arith, v.valid);
      in_range = (
        omega (arith, slot_lt (add_u64 s.ring.write_index 1) v.valid, v.valid.sized),
        v.in_range,
      );
    },
    λ w. omega arith,
  )

  -- A step keeps the ring sound, and what has been claimed is there.
  Step-Sound :
      {n : ℕ} {s t : System A}
      → Sound n s
      → Step s t
      → Sound n t × ((w : A → ℕ) → total w t + weigh w s.claimed ≡ total w s + weigh w t.claimed)
  unfolding claim store check_guard take_bucket
  Step-Sound v (claims x) = let (v', e) = claim-Sound x v in (v', λ w. omega (arith, e w))
  Step-Sound v (stores i x before after q) =
      let (v', e) = store-Sound i x before after q v in (v', λ w. omega (arith, e w))
  Step-Sound v (checks q) = let (v', e) = check-Sound v in (v', λ w. omega (arith, e w))
  Step-Sound v (takes q) = let (v', e) = take-Sound v in (v', λ w. omega (arith, e w))

  weigh-replicate : (w : A → ℕ) (k : ℕ) → weigh_buckets w (replicate k none) ≡ 0
  weigh-replicate w zero = refl
  weigh-replicate w (suc k) = omega (arith, weigh-replicate w k)

  pub start-Sound :
      {n : ℕ} {r : Ring A}
      → new_rand_ring n ≡ some r
      → Sound n (start r) × ((w : A → ℕ) → total w (start r) ≡ 0)
  start-Sound {n} {r} h = (
    record { valid = new_rand_ring-IsValid n h; in_range = tt },
    λ w. rw (new_rand_ring_eq n h) (omega (arith, weigh-replicate w (2 ^ n))),
  )

  Reach-Sound :
      {n : ℕ} {r : Ring A} {s : System A}
      → new_rand_ring n ≡ some r
      → Reach r s
      → Sound n s × ((w : A → ℕ) → total w s ≡ weigh w s.claimed)
  Reach-Sound h begins = start-Sound h
  Reach-Sound h (later before st) =
      let (v, e) = Reach-Sound h before in
      let (v', e') = Step-Sound v st in (v', λ w. omega (arith, e w, e' w))

  -- Whatever the order of the atomic operations of any number of producers and the one consumer,
  -- from a new ring on: the ring stays valid, every index that a producer has claimed is that of a
  -- bucket, and for every weight of the items those in buckets, in the hands of a producer, popped
  -- and freed weigh as much as all that a push has begun with.
  pub interleavings_conserve :
      (n : ℕ) {r : Ring A} {s : System A}
      → new_rand_ring n ≡ some r
      → Reach r s
      → IsValid n s.ring
        × InRange (2 ^ n) s.pending
        × ((w : A → ℕ)
            → weigh_buckets w s.ring.buckets
                + weigh_pending w s.pending
                + weigh w s.popped
                + weigh w s.freed
              ≡ weigh w s.claimed)
  interleavings_conserve n h reach = let (v, e) = Reach-Sound h reach in (v.valid, v.in_range, e)
