-- ===== src/RandRing/Fifo.antt =====
-- randring.go beside a bounded queue, while the consumer keeps up.
mod Queue
mod Window
unfoldable pub use Queue.*
pub use Window.*
use Window.{try_pop-head, try_pop-empty, take-InStep, push-InStep, old_none, old_head}
use nanozap.Base.{
  ℕ, ◌+◌, ◌-◌, ◌^◌, ◌≤◌, ◌<◌, ◌≡◌, refl, Option, none, some, List, [], ◌∷◌, ◌++◌, arith,
  Option-cases, ltb→lt, ◌∙◌, length, get_or-replicate, length-append, Bool-cases, ltb, inl, inr,
}
use nanozap.RandRing.{
  Ring, Op, put, get, Run, fresh, reload, new_rand_ring, push, try_pop, step, run,
}
use nanozap.RandRing.Valid.{
  IsValid, pushed, push_lem, taken, new_rand_ring-IsValid, new_rand_ring_eq, reload-IsValid,
  take_next-none,
}
use mathlib.Core.Path.{subst}

-- Where the queue takes a call, the ring takes it in the same way.
abbrev StepsAs : {A : Type 0} → ℕ → Op A → Run A → ℕ → Option (List A × List A) → Type 0
StepsAs n op s b none = Unit
StepsAs n op s b (some (q, out)) =
    (s' : Run _) × (step op s ≡ some s')
    × (s'.popped ≡ out)
    × (s'.freed ≡ s.freed)
    × (s'.ring.read_index + length q ≤ b)
    × InStep n s'.ring q

module _ {A : Type 0} {n : ℕ} where
  step_put :
      (x : A) (s : Run A) (q : List A)
      → InStep n s.ring q
      → s.ring.read_index + length q + 1 < 2 ^ 64 - 1
      → length q < 2 ^ n
      → StepsAs n (put x) s (s.ring.read_index + length q + 1) (some (q ++ x ∷ [], s.popped))
  unfolding step
  step_put x s q c b h = (
    record s { ring = pushed x s.ring },
    rw (push_lem x c.valid, step) (rw (old_none c h)),
    refl,
    refl,
    omega (arith, length-append q (x ∷ [])),
    push-InStep x c h b,
  )

  step_get :
      (s : Run A) (q : List A)
      → InStep n s.ring q
      → StepsAs n get s (s.ring.read_index + length q + 1) (step_queue (2 ^ n) get q s.popped)
  unfolding step step_queue
  step_get s [] c = (s, rw (try_pop-empty c, step), refl, refl, omega arith, c)
  step_get s (x ∷ q) c = (
    record s { ring = taken s.ring; popped = x ∷ s.popped },
    rw (try_pop-head c, step),
    refl,
    refl,
    omega (arith, c.ahead),
    take-InStep c,
  )

  step_refines :
      (op : Op A) (s : Run A) (q : List A)
      → InStep n s.ring q
      → s.ring.read_index + length q + 1 < 2 ^ 64 - 1
      → StepsAs n op s (s.ring.read_index + length q + 1) (step_queue (2 ^ n) op q s.popped)
  unfolding step_queue
  step_refines get s q c b = step_get s q c
  step_refines (put x) s q c b = elim (Bool-cases (ltb (length q) (2 ^ n))) [
    | inl h ↦ rw h (step_put x s q c b (ltb→lt _ _ h))
    | inr h ↦ rw h tt
  ]

  -- From a ring that is in step with a queue, and for so few calls that no index wraps: a run of
  -- calls under which the bounded queue never overflows is the queue's run. The ring hands out what
  -- the queue hands out, frees nothing, and is then in step with the queue.
  pub run_refines :
      (ops : List (Op A)) (s : Run A) (q : List A) {q' out : List A}
      → InStep n s.ring q
      → s.ring.read_index + length q + length ops < 2 ^ 64 - 1
      → run_queue (2 ^ n) ops q s.popped ≡ some (q', out)
      → (s' : Run A) × (run ops s ≡ some s')
        × (s'.popped ≡ out)
        × (s'.freed ≡ s.freed)
        × InStep n s'.ring q'
  unfolding run run_queue
  run_refines [] s q {q' = q'} c b e =
      let same : q ≡ q' = ground arith in
      (s, refl, ground arith, refl, subst (InStep n s.ring) same c)
  run_refines (op ∷ ops) s q c b e = elim (Option-cases (step_queue (2 ^ n) op q s.popped)) [
    | inl full ↦ cc (rw (full, run_queue) at e)
    | inr ((q₁, out₁), h) ↦
        let (s₁, e₁, p₁, f₁, b₁, c₁) = rw h at (step_refines op s q c (omega arith)) in
        let rest = rw (h, run_queue) at e in
        let (s₂, e₂, p₂, f₂, c₂) = run_refines ops s₁ q₁ c₁ (omega arith) (rw p₁ rest) in
        (s₂, rw (e₁, run) e₂, p₂, f₂ ∙ f₁, c₂)
  ]

  pub fresh-InStep : IsValid n (reload (fresh {A = A} n)) → InStep n (reload (fresh {A = A} n)) []
  fresh-InStep v = record {
    valid = v;
    fits = omega arith;
    ahead = omega arith;
    primed = refl;
    written = refl;
    window = λ j hj. get_or-replicate (2 ^ n) _ none;
  }

  -- A new ring, once the consumer has looked at it, holds the empty queue.
  pub new_rand_ring-InStep :
      {r : Ring A}
      → new_rand_ring n ≡ some r
      → (r' : Ring A) × (try_pop r ≡ some (none, r')) × InStep n r' []
  unfolding try_pop
  new_rand_ring-InStep {r} h =
      let v = reload-IsValid (new_rand_ring-IsValid n h) in
      let fresh_v = rw (new_rand_ring_eq n h) at v in
      (
        reload (fresh n),
        rw (new_rand_ring_eq n h) (take_next-none fresh_v (get_or-replicate (2 ^ n) _ none)),
        fresh-InStep fresh_v,
      )

  -- A push on a ring that holds as many items as it has buckets does not wait: it frees the oldest.
  pub push-full :
      {r : Ring A} (x y : A) (q : List A)
      → InStep n r (x ∷ q)
      → length (x ∷ q) ≡ 2 ^ n
      → push y r ≡ some (some x, pushed y r)
  push-full x y q c h = rw (push_lem y c.valid, old_head c h)
