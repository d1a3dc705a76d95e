-- ===== src/RandRing/Fifo/Queue.antt =====
-- The abstract queue: at most `cap` items, oldest first.
use nanozap.Base.{ℕ, Option, none, some, List, [], ◌∷◌, ◌++◌, ltb, if◌then◌else◌, length}
use nanozap.RandRing.{Op, put, get}

module _ {ℓ} {A : Type ℓ} (cap : ℕ) where
  -- The queue and what it has handed out, latest first; `none` if an item finds it full.
  unfoldable pub step_queue : Op A → List A → List A → Option (List A × List A)
  step_queue (put x) q out = if ltb (length q) cap then some (q ++ x ∷ [], out) else none
  step_queue get [] out = some ([], out)
  step_queue get (x ∷ q) out = some (q, x ∷ out)

  unfoldable pub run_queue : List (Op A) → List A → List A → Option (List A × List A)
  run_queue [] q out = some (q, out)
  run_queue (op ∷ ops) q out = elim (step_queue op q out) [
    | none ↦ none
    | some (q', out') ↦ run_queue ops q' out'
  ]
