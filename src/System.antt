-- ===== src/System.antt =====
-- The logger of nanozap.go over the core of zapcore/core.go, with the encoder of
-- zapcore/json_encoder.go and a `Rotation` of zaproll/zaproll.go as its `WriteSyncer`.
pub mod Advance
pub mod Lines
pub mod ReadBack
pub mod Tests
use nanozap.Base.{ℕ, suc, not, Bool, true, false, Option, none, some, List, ◌++◌}
use nanozap.Base.Int.{ℤ}
use nanozap.Zaproll.BufIo
use nanozap.Zaproll.BufIo.{BufIo, Writer, is_none}
use nanozap.Zaproll.Backup.{HeapPackage}
use nanozap.Zaproll.Rotation.{Rotation, Os, write, sync}
use nanozap.Zaproll.Rotation.Stream.{closed_file, stream}
use nanozap.Zapcore.Core.{Encoding, WriteSyncer}
use nanozap.Zapcore.Encoder.{Externals, Members, end}
use nanozap.Zapcore.Json
use nanozap.Zapcore.Json.{JsonEncoder}

-- The encoder of a core; the logger gives no fields to an entry.
abbrev pub json_encoding : (ex : Externals) → (ℤ → List ℕ) → Encoding (JsonEncoder ex) (Members ex)
json_encoding ex digits = record {
  add_fields = λ ms enc. Json.add_members ex ms enc;
  encode_entry = λ enc ent. some (Json.encode_entry ex digits enc ent end);
}

-- The bytes of the files that were closed, the rotation, and how many calls it has had.
pub record Files (W : Type 0) : Type 0 where
  pub closed : List ℕ
  pub rotation : Rotation W
  pub calls : ℕ

module _ (h : HeapPackage) {W : Type 0} (content : W → List ℕ) (write_to : Writer W)
    (answers : ℕ → Os W) where
  -- All bytes, the oldest first.
  abbrev pub all_bytes : Files W → List ℕ
  all_bytes s = s.closed ++ stream h content s.rotation.buf

  unfoldable pub write_file : List ℕ → Files W → Bool × Files W
  write_file p s = elim (BufIo.write write_to p s.rotation.buf) [
    | none ↦ (true, s)
    | some (res, b) ↦ elim (write h write_to p (answers s.calls) s.rotation) [
      | none ↦ (true, s)
      | some ((n, e), r, events) ↦ (
        not (is_none e),
        record {
          closed = s.closed ++ closed_file h content b events;
          rotation = r;
          calls = suc s.calls;
        },
      )
    ]
  ]

  unfoldable pub sync_file : Files W → Bool × Files W
  sync_file s =
      let (fw, e, b) = BufIo.flush write_to s.rotation.buf in
      let (e', r, events) = sync h write_to (answers s.calls) s.rotation in
      (
        not (is_none e'),
        record {
          closed = s.closed ++ closed_file h content b events;
          rotation = r;
          calls = suc s.calls;
        },
      )

  -- A rotation as the output of a core, with the answers of the system to each call.
  abbrev pub log_file : WriteSyncer (Files W)
  log_file = record { write = write_file; sync = sync_file }
