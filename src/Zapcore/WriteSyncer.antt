-- ===== src/Zapcore/WriteSyncer.antt =====
-- zapcore/write_syncer.go: the wrappers of outputs. An output is a number that stands for a writer
-- of the caller; `Outputs` says what writing to it and flushing it do to the state of all outputs,
-- and what `multierr.Append` makes of two errors. A writer returns a count of bytes, which is never
-- negative. The mutex of `lockedWriteSyncer` is released by each call that takes it, and one call
-- is taken at a time here, so it is left out.
mod Least
mod Tests
use nanozap.Base.{ℕ, suc, ◌==◌, ◌&&◌, ltb, not, Bool, List, [], ◌∷◌, if◌then◌else◌}

pub record Outputs (S Err : Type 0) : Type 0 where
  pub write_to : ℕ → List ℕ → S → ℕ × Err × S
  pub sync_of : ℕ → S → Err × S
  pub no_error : Err
  pub append : Err → Err → Err

mutual
  pub data WriteSyncer : Type 0 where
    output : ℕ → WriteSyncer
    locked_write_syncer : WriteSyncer → WriteSyncer
    writer_wrapper : ℕ → WriteSyncer
    multi_write_syncer : WriteSyncers → WriteSyncer

  pub data WriteSyncers : Type 0 where
    none_left : WriteSyncers
    and_then : WriteSyncer → WriteSyncers → WriteSyncers

-- An `io.Writer`, by whether it has a `Sync`.
pub data Writer : Type 0 where
  syncer : WriteSyncer → Writer
  plain : ℕ → Writer

unfoldable pub add_sync : Writer → WriteSyncer
add_sync (syncer w) = w
add_sync (plain w) = writer_wrapper w

unfoldable pub lock : WriteSyncer → WriteSyncer
lock (locked_write_syncer ws) = locked_write_syncer ws
lock ws = locked_write_syncer ws

unfoldable pub new_multi_write_syncer : WriteSyncers → WriteSyncer
new_multi_write_syncer (and_then w none_left) = w
new_multi_write_syncer ws = multi_write_syncer ws

-- The count after one more output has written `n`.
abbrev pub count_next : ℕ → ℕ → ℕ
count_next n_written n =
    if (n_written == 0) && not (n == 0) then n else if ltb n n_written then n else n_written

module _ {S Err : Type 0} (os : Outputs S Err) where
  unfoldable mutual
    pub write : WriteSyncer → List ℕ → S → ℕ × Err × S
    write (output w) p s = os.write_to w p s
    write (locked_write_syncer ws) p s = write ws p s
    write (writer_wrapper w) p s = os.write_to w p s
    write (multi_write_syncer ws) p s = write_each ws 0 os.no_error p s

    -- The loop of `multiWriteSyncer.Write`, from a count and an error on.
    pub write_each : WriteSyncers → ℕ → Err → List ℕ → S → ℕ × Err × S
    write_each none_left n_written write_err p s = (n_written, write_err, s)
    write_each (and_then w ws) n_written write_err p s =
        let (n, err, s₁) = write w p s in
        write_each ws (count_next n_written n) (os.append write_err err) p s₁

  unfoldable mutual
    pub sync : WriteSyncer → S → Err × S
    sync (output w) s = os.sync_of w s
    sync (locked_write_syncer ws) s = sync ws s
    sync (writer_wrapper w) s = (os.no_error, s)
    sync (multi_write_syncer ws) s = sync_each ws os.no_error s

    -- The loop of `multiWriteSyncer.Sync`, from an error on.
    pub sync_each : WriteSyncers → Err → S → Err × S
    sync_each none_left sync_err s = (sync_err, s)
    sync_each (and_then w ws) sync_err s =
        let (err, s₁) = sync w s in sync_each ws (os.append sync_err err) s₁
