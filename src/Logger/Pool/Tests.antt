-- ===== src/Logger/Pool/Tests.antt =====
-- Two messages through a ring of two buckets; the first is got again while the second is in the
-- ring.
use nanozap.Base.{◌<◌, ◌≤◌, ◌≡◌, refl, []}
use nanozap.Base.Bytes.{bytes}
use nanozap.RandRing.{fresh, new_rand_ring}
use nanozap.RandRing.Interleave.{store, claim, check_guard, take_bucket}
use nanozap.RandRing.Interleave.Conserve.{total}
use nanozap.Zapcore.Level.{warn_level, error_level}
use nanozap.Logger.{LogBody}
use nanozap.Logger.Pool.{
  Bodies, get_new, get_pooled, fill, push, on_system, free_written, gets_new, gets_pooled, fills,
  pushes, stores, checks, takes, frees_written, start_bodies, Reach, begins, later,
}
use nanozap.Logger.Pool.Weights.{one}
use nanozap.Logger.Pool.Owned.{places, messages_owned}

abbrev up : LogBody
up = record { lvl = warn_level; msg = bytes "up"; reqid = 1 }

abbrev down : LogBody
down = record { lvl = error_level; msg = bytes "down"; reqid = 2 }

-- Both messages are got, filled and pushed.
abbrev pushed_both : Bodies
pushed_both = on_system (store 1 1 []) (
    push 1 [] (
      fill 1 down (
        get_new
          (on_system (store 0 0 []) (push 0 [] (fill 0 up (get_new (start_bodies (fresh 1)))))))))

pushed_both-Reach : Reach (fresh 1) pushed_both
unfolding get_new fill push claim store
pushed_both-Reach =
    later
      (later
        (later
          (later
            (later
              (later (later (later begins gets_new) (fills 0 up [] [] refl)) (pushes 0 [] [] refl))
              (stores 0 0 [] [] refl))
            gets_new)
          (fills 1 down [] [] refl))
        (pushes 1 [] [] refl))
      (stores 1 1 [] [] refl)

-- The first is taken, freed, got again and filled.
abbrev reused : Bodies
reused = fill 0 down (
    get_pooled 0 [] (free_written 0 [] (on_system take_bucket (on_system check_guard pushed_both))))

reused-Reach : Reach (fresh 1) reused
unfolding get_new get_pooled fill push claim store free_written check_guard take_bucket
reused-Reach =
    later
      (later
        (later (later (later pushed_both-Reach (checks refl)) (takes refl))
          (frees_written 0 [] [] refl))
        (gets_pooled 0 [] [] refl))
      (fills 0 down [] [] refl)

messages_owned_example :
    (places (one 1) reused ≤ 1) × (0 < total (one 1) reused.system → reused.heap 1 ≡ reused.sent 1)
unfolding new_rand_ring
messages_owned_example = messages_owned 1 1 refl reused-Reach

-- The second message is in the ring, with what was pushed; the first is held.
second_kept :
    (total (one 1) reused.system ≡ 1) × (total (one 0) reused.system ≡ 0) × (reused.heap 1 ≡ down)
unfolding get_new get_pooled fill push claim store free_written check_guard take_bucket
second_kept = (refl, refl, refl)
