-- ===== src/Logger/Pool/Owned.antt =====
-- bodypool.go: where a message is, and what is in it.
use mathlib.Core.Path.{subst}
use nanozap.Base.{
  ℕ, ◌+◌, ◌<◌, ◌≤◌, ◌≡◌, refl, ap, ◌==◌, some, List, ◌∷◌, ◌++◌, arith, Bool-cases, inl, inr,
}
use nanozap.RandRing.{Ring, new_rand_ring}
use nanozap.RandRing.Conserve.{weigh}
use nanozap.RandRing.Interleave.{System, store, check_guard, take_bucket}
use nanozap.RandRing.Interleave.Conserve.{
  total, Sound, store-Sound, take-Sound, check-Sound, claim-Sound, start-Sound,
}
use nanozap.Logger.{LogBody, reset}
use nanozap.Logger.Pool.Weights.{weigh-split, weigh_ids, one, at_most_one, none_yet, found}
use nanozap.Logger.Pool.{
  Bodies, new_body, update, get_new, get_pooled, fill, push, on_system, free_old, free_written,
  drop_pooled, Move, gets_new, gets_pooled, drops, fills, pushes, stores, frees_old, checks, takes,
  frees_written, Reach, begins, later,
}

-- The places outside of the ring and the hands of the goroutines at it, and all places.
abbrev pub places : (ℕ → ℕ) → Bodies → ℕ
places w s = weigh w s.pool + weigh w s.held + total w s.system

record Inv (n : ℕ) (s : Bodies) : Type 0 where
  pub sound : Sound n s.system
  pub owned : (w : ℕ → ℕ) → places w s ≤ weigh_ids w s.next
  pub kept : (b : ℕ) → 0 < total (one b) s.system → s.heap b ≡ s.sent b

-- A message that is not in the ring may be written to.
update_kept :
    (s : Bodies) (b i : ℕ) (lb : LogBody)
    → (i ≡ b → ⊥)
    → s.heap i ≡ s.sent i
    → update b lb s.heap i ≡ s.sent i
update_kept s b i lb h e = elim (Bool-cases (i == b)) [
  | inl q ↦ elim (h (ground arith)) [ ]
  | inr q ↦ rw q e
]

-- A message that is in the pool or held is not in the ring.
apart :
    {n : ℕ} {s : Bodies} (b i : ℕ)
    → Inv n s
    → 0 < weigh (one b) s.pool + weigh (one b) s.held
    → 0 < total (one i) s.system
    → i ≡ b
    → ⊥
apart {n} {s} b i v out h e =
    let h' : 0 < total (one b) s.system = subst (λ i. 0 < total (one i) s.system) e h in
    omega (arith, v.owned (one b), at_most_one b s.next)

apart_new : {n : ℕ} {s : Bodies} (i : ℕ) → Inv n s → 0 < total (one i) s.system → i ≡ s.next → ⊥
apart_new {n} {s} i v h e =
    let h' : 0 < total (one s.next) s.system = subst (λ i. 0 < total (one i) s.system) e h in
    omega (arith, v.owned (one s.next), none_yet s.next)

get_new-Inv : {n : ℕ} {s : Bodies} → Inv n s → Inv n (get_new s)
unfolding get_new
get_new-Inv {n} {s} v = record {
  sound = v.sound;
  owned = λ w. omega (arith, v.owned w);
  kept = λ i h. update_kept s s.next i (reset new_body) (apart_new i v h) (v.kept i h);
}

get_pooled-Inv :
    {n : ℕ} {s : Bodies} (b : ℕ) (before after : List ℕ)
    → s.pool ≡ before ++ b ∷ after
    → Inv n s
    → Inv n (get_pooled b (before ++ after) s)
unfolding get_pooled
get_pooled-Inv {n} {s} b before after e v = record {
  sound = v.sound;
  owned = λ w. omega (arith, v.owned w, ap (weigh w) e, weigh-split w before b after);
  kept = λ i h.
      update_kept s b i (reset (s.heap b))
        (apart b i v (omega (arith, found b before after s.pool e)) h) (v.kept i h);
}

fill-Inv :
    {n : ℕ} {s : Bodies} (b : ℕ) (lb : LogBody) (before after : List ℕ)
    → s.held ≡ before ++ b ∷ after
    → Inv n s
    → Inv n (fill b lb s)
unfolding fill
fill-Inv {n} {s} b lb before after e v = record {
  sound = v.sound;
  owned = v.owned;
  kept = λ i h.
      update_kept s b i lb (apart b i v (omega (arith, found b before after s.held e)) h)
        (v.kept i h);
}

push_kept :
    (s : Bodies) (b i : ℕ)
    → 0 < one i b + total (one i) s.system
    → (0 < total (one i) s.system → s.heap i ≡ s.sent i)
    → s.heap i ≡ update b (s.heap b) s.sent i
push_kept s b i h k = elim (Bool-cases (i == b)) [
  | inl q ↦ rw q (ap s.heap (ground arith))
  | inr q ↦ rw q (k (ground arith))
]

push-Inv :
    {n : ℕ} {s : Bodies} (b : ℕ) (before after : List ℕ)
    → s.held ≡ before ++ b ∷ after
    → Inv n s
    → Inv n (push b (before ++ after) s)
unfolding push
push-Inv {n} {s} b before after e v =
    let (sound, claimed) = claim-Sound b v.sound in
    record {
      sound = sound;
      owned =
          λ w. omega (arith, v.owned w, ap (weigh w) e, weigh-split w before b after, claimed w);
      kept = λ i h. push_kept s b i (omega (arith, claimed (one i))) (v.kept i);
    }

-- A step of the ring that keeps what is there.
system-Inv :
    {n : ℕ} {s : Bodies} (f : System ℕ → System ℕ)
    → Sound n (f s.system) × ((w : ℕ → ℕ) → total w (f s.system) ≡ total w s.system)
    → Inv n s
    → Inv n (on_system f s)
system-Inv f (sound, same) v = record {
  sound = sound;
  owned = λ w. omega (arith, v.owned w, same w);
  kept = λ i h. v.kept i (omega (arith, same (one i)));
}

free_old-Inv :
    {n : ℕ} {s : Bodies} (b : ℕ) (before after : List ℕ)
    → s.system.freed ≡ before ++ b ∷ after
    → Inv n s
    → Inv n (free_old b (before ++ after) s)
unfolding free_old
free_old-Inv {n} {s} b before after e v = record {
  sound = record { valid = v.sound.valid; in_range = v.sound.in_range };
  owned = λ w. omega (arith, v.owned w, ap (weigh w) e, weigh-split w before b after);
  kept = λ i h. v.kept i (omega (arith, ap (weigh (one i)) e, weigh-split (one i) before b after));
}

free_written-Inv :
    {n : ℕ} {s : Bodies} (b : ℕ) (before after : List ℕ)
    → s.system.popped ≡ before ++ b ∷ after
    → Inv n s
    → Inv n (free_written b (before ++ after) s)
unfolding free_written
free_written-Inv {n} {s} b before after e v = record {
  sound = record { valid = v.sound.valid; in_range = v.sound.in_range };
  owned = λ w. omega (arith, v.owned w, ap (weigh w) e, weigh-split w before b after);
  kept = λ i h. v.kept i (omega (arith, ap (weigh (one i)) e, weigh-split (one i) before b after));
}

drop_pooled-Inv :
    {n : ℕ} {s : Bodies} (b : ℕ) (before after : List ℕ)
    → s.pool ≡ before ++ b ∷ after
    → Inv n s
    → Inv n (drop_pooled (before ++ after) s)
unfolding drop_pooled
drop_pooled-Inv {n} {s} b before after e v = record {
  sound = v.sound;
  owned = λ w. omega (arith, v.owned w, ap (weigh w) e, weigh-split w before b after);
  kept = v.kept;
}

Move-Inv : {n : ℕ} {s t : Bodies} → Inv n s → Move s t → Inv n t
Move-Inv v gets_new = get_new-Inv v
Move-Inv v (gets_pooled b before after e) = get_pooled-Inv b before after e v
Move-Inv v (drops b before after e) = drop_pooled-Inv b before after e v
Move-Inv v (fills b lb before after e) = fill-Inv b lb before after e v
Move-Inv v (pushes b before after e) = push-Inv b before after e v
Move-Inv v (stores i b before after e) =
    system-Inv (store i b (before ++ after)) (store-Sound i b before after e v.sound) v
Move-Inv v (frees_old b before after e) = free_old-Inv b before after e v
Move-Inv v (checks e) = system-Inv check_guard (check-Sound v.sound) v
Move-Inv v (takes e) = system-Inv take_bucket (take-Sound v.sound) v
Move-Inv v (frees_written b before after e) = free_written-Inv b before after e v

Reach-Inv : {n : ℕ} {r : Ring ℕ} {s : Bodies} → new_rand_ring n ≡ some r → Reach r s → Inv n s
Reach-Inv {n} {r} h begins =
    let (sound, empty) = start-Sound h in
    record { sound = sound; owned = λ w. omega (arith, empty w); kept = λ b h. refl }
Reach-Inv h (later before m) = Move-Inv (Reach-Inv h before) m

-- Whatever the order in which callers get, fill and push messages, the pool hands out or drops
-- them, and the one consumer takes and frees them, from a new ring on: no message is in two places,
-- of the pool, the hands of a caller, the buckets, the claims of a push, what it pushed out and
-- what was taken; and a message that is in a bucket, claimed, pushed out or taken still has in it
-- what the caller had put there when it was pushed.
pub messages_owned :
    (n : ℕ) {r : Ring ℕ} {s : Bodies} (b : ℕ)
    → new_rand_ring n ≡ some r
    → Reach r s
    → (places (one b) s ≤ 1) × (0 < total (one b) s.system → s.heap b ≡ s.sent b)
messages_owned n {r} {s} b h reach =
    let v = Reach-Inv h reach in (omega (arith, v.owned (one b), at_most_one b s.next), v.kept b)
