-- ===== src/Zapcore/WriteSyncer/Tests.antt =====
-- Multi writers run on concrete outputs.
use nanozap.Base.{ℕ, ◌≡◌, refl, ltb, if◌then◌else◌, List, [], ◌∷◌, ◌++◌}
use nanozap.Base.Bytes.{bytes}
use nanozap.Zapcore.WriteSyncer.{
  Outputs, output, WriteSyncers, none_left, and_then, new_multi_write_syncer, lock, add_sync, plain,
  write, sync,
}
use nanozap.Zapcore.WriteSyncer.Least.{write-new_multi_write_syncer, reports}

-- The output k takes k bytes, and has an error if that is less than three.
abbrev outputs : Outputs (List ℕ) (List ℕ)
outputs = record {
  write_to = λ k p s. (k, if ltb k 3 then bytes "short" else [], k ∷ s);
  sync_of = λ k s. (bytes "sync", s);
  no_error = [];
  append = λ e f. e ++ f;
}

abbrev three_and_two : WriteSyncers
three_and_two = and_then (lock (output 3)) (and_then (add_sync (plain 2)) none_left)

-- An output that writes nothing, and fails, between two that write.
abbrev with_failed : WriteSyncers
with_failed = and_then (output 3) (and_then (output 0) (and_then (output 5) none_left))

write-new_multi_write_syncer_example :
    ◌≡◌ {A = ℕ × List ℕ × List ℕ}
      (write outputs (new_multi_write_syncer with_failed) (bytes "log") [])
      (5, bytes "short", 5 ∷ 0 ∷ 3 ∷ [])
unfolding reports write
write-new_multi_write_syncer_example =
    write-new_multi_write_syncer outputs (bytes "log") (λ e. refl) with_failed []

smallest_count : (write outputs (new_multi_write_syncer three_and_two) (bytes "log") []).0 ≡ 2
unfolding write new_multi_write_syncer lock add_sync
smallest_count = refl

flushed :
    ◌≡◌ {A = List ℕ × List ℕ}
      (sync outputs (new_multi_write_syncer three_and_two) [])
      (bytes "sync", [])
unfolding sync new_multi_write_syncer lock add_sync
flushed = refl
