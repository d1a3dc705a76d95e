-- ===== src/RandRing/Tests.antt =====
-- The ring at small sizes.
use nanozap.Base.{ℕ, ◌-◌, ◌+◌, ◌^◌, ◌≡◌, refl, Option, none, some, [], ◌∷◌, arith}
use nanozap.RandRing.{
  Ring, fresh, reload, new_rand_ring, push, take_next, try_pop, put, get, Run, step, run,
}
use nanozap.RandRing.Valid.{IsValid, pushed, next_item}
use nanozap.RandRing.Conserve.{
  weigh_run, weigh_puts, Outcome, run_conserves, try_pop-Ends, weigh, weigh_buckets,
}
use nanozap.RandRing.Fifo.{
  InStep, run_queue, step_queue, run_refines, push-full, new_rand_ring-InStep, fresh-InStep,
  push-InStep,
}
use nanozap.RandRing.Reader.{first_item_withheld, try_pop-Lapped, puts}
use nanozap.RandRing.Interleave.{System, Reach, start, claim, store, claims, stores, begins, later}
use nanozap.RandRing.Interleave.Conserve.{interleavings_conserve, InRange, weigh_pending}

-- The consumer looks first, as the background loop mostly does: the ring is a queue.
looked_first :
    run {A = ℕ}
      (get ∷ put 7 ∷ put 8 ∷ get ∷ get ∷ get ∷ [])
      (record { ring = fresh 1; popped = []; freed = [] })
    ≡ some (record {
      ring = record {
        mask = 1;
        write_index = 1;
        write_index_cache = 2 ^ 64 - 1;
        read_index = 2;
        buckets = none ∷ none ∷ [];
      };
      popped = 8 ∷ 7 ∷ [];
      freed = [];
    })
unfolding run step push try_pop take_next
looked_first = refl

fresh-IsValid : IsValid 1 (fresh {A = ℕ} 1)
fresh-IsValid = omega arith

looked-IsValid : IsValid 1 (reload (fresh {A = ℕ} 1))
looked-IsValid = omega arith

abbrev looked : Run ℕ
looked = record { ring = reload (fresh 1); popped = []; freed = [] }

run_refines_example :
    (s' : Run ℕ) × (run (put 7 ∷ put 8 ∷ get ∷ []) looked ≡ some s')
    × (s'.popped ≡ 7 ∷ [])
    × (s'.freed ≡ [])
    × InStep 1 s'.ring (8 ∷ [])
unfolding run_queue step_queue
run_refines_example =
    run_refines (put 7 ∷ put 8 ∷ get ∷ []) looked [] (fresh-InStep looked-IsValid) (omega arith)
      refl

new_ring_empty : (r' : Ring ℕ) × (try_pop (fresh 1) ≡ some (none, r')) × InStep 1 r' []
unfolding new_rand_ring
new_ring_empty = new_rand_ring-InStep {n = 1} refl

abbrev one_item : Ring ℕ
one_item = pushed 7 (reload (fresh 1))

abbrev two_items : Ring ℕ
two_items = pushed 8 one_item

two_items-InStep : InStep 1 two_items (7 ∷ 8 ∷ [])
two_items-InStep =
    push-InStep 8 (push-InStep 7 (fresh-InStep looked-IsValid) (omega arith) (omega arith))
      (omega arith) (omega arith)

push-full_example : push 9 two_items ≡ some (some 7, pushed 9 two_items)
push-full_example = push-full 7 9 (8 ∷ []) two_items-InStep refl

run_conserves_example :
    (s' : Run ℕ) × (run (put 7 ∷ put 8 ∷ put 9 ∷ get ∷ []) looked ≡ some s')
    × IsValid 1 s'.ring
    × ((w : ℕ → ℕ)
        → weigh_run w s' ≡ weigh_puts w (put 7 ∷ put 8 ∷ put 9 ∷ get ∷ []) + weigh_run w looked)
run_conserves_example = run_conserves (put 7 ∷ put 8 ∷ put 9 ∷ get ∷ []) looked looked-IsValid

fresh_popped :
    (out : Option ℕ) × (r' : Ring ℕ) × (try_pop (fresh 1) ≡ some (out, r'))
    × IsValid 1 r'
    × Outcome (fresh 1) out r'
fresh_popped = try_pop-Ends fresh-IsValid

first_item_withheld_example :
    (r' : Ring ℕ) × (push 7 (fresh 1) ≡ some (none, r'))
    × (next_item r' ≡ some 7)
    × (try_pop r' ≡ some (none, reload r'))
unfolding new_rand_ring
first_item_withheld_example = first_item_withheld 1 7 refl

-- Three pushes and two pops at size two: the writer has lapped the reader.
abbrev lapped : Run ℕ
lapped = record {
  ring = record {
    mask = 1;
    write_index = 2;
    write_index_cache = 2 ^ 64 - 1;
    read_index = 2;
    buckets = none ∷ none ∷ [];
  };
  popped = 8 ∷ 9 ∷ [];
  freed = 7 ∷ [];
}

lapped_reached : run (put 7 ∷ put 8 ∷ put 9 ∷ get ∷ get ∷ []) looked ≡ some lapped
unfolding run step push try_pop take_next
lapped_reached = refl

try_pop-Lapped_example :
    (s' : Run ℕ) × (run (puts (5 ∷ [])) lapped ≡ some s')
    × (try_pop s'.ring ≡ some (none, s'.ring))
    × (s'.popped ≡ 8 ∷ 9 ∷ [])
try_pop-Lapped_example =
    try_pop-Lapped {n = 1} {base = 2} 1 (5 ∷ []) lapped
      (record {
        valid = omega arith;
        primed = omega arith;
        waiting = refl;
        met = refl;
        written = refl;
      })
      (omega arith) (omega arith) (omega arith)

abbrev stored : System ℕ
stored = store 0 5 [] (claim 5 (start (fresh 1)))

stored-Reach : Reach (fresh 1) stored
unfolding claim
stored-Reach = later (later begins (claims 5)) (stores 0 5 [] [] refl)

interleavings_conserve_example :
    IsValid 1 stored.ring
    × InRange (2 ^ 1) stored.pending
    × ((w : ℕ → ℕ)
        → weigh_buckets w stored.ring.buckets
            + weigh_pending w stored.pending
            + weigh w stored.popped
            + weigh w stored.freed
          ≡ weigh w stored.claimed)
unfolding new_rand_ring
interleavings_conserve_example = interleavings_conserve 1 refl stored-Reach
