-- ===== src/Zaproll/Rotation.antt =====
-- zaproll/zaproll.go: the log file that is rotated by size. `r.f` and the writer of `r.buf` are one
-- file. Its state is the writer's, and `has_file` says that `r.f` is not nil. The answers of the
-- operating system to one call of `open` are a record, `Os`; what is asked of it beyond the file's
-- bytes is a list of events. A mutex makes the calls of `Write` and `Sync` follow one another. The
-- counters are natural numbers, to which counts are added.
pub mod Counters
pub mod Failure
pub mod Stream
pub mod Logged
pub mod Tests
use nanozap.Base.{
  ℕ, ◌+◌, Bool, true, false, ◌||◌, not, Option, none, some, List, [], ◌∷◌, ◌++◌, map, ◌==◌,
  if◌then◌else◌, length,
}
use nanozap.Base.Int.{ℤ, pos, pos_part, leb_ℤ, ltb_ℤ}
use nanozap.Zaproll.BufIo
use nanozap.Zaproll.BufIo.{BufIo, Error, Writer, new_buf_io, reset}
use nanozap.Zaproll.Config.{Config, adjust}
use nanozap.Zaproll.Backup.{
  Backup, HeapPackage, add_backup, Directory, Stamps, list_backups, Result, ok, err, panic,
  out_of_fuel,
}

pub record Rotation (W : Type 0) : Type 0 where
  pub cfg : Config
  pub backups : List Backup
  pub has_file : Bool
  pub buf : BufIo W
  pub written : ℕ
  pub dirty : ℕ
  pub synced : ℕ

-- `os.Rename`, the time and path of the backup, `os.MkdirAll` and `fnc.OpenFile`: the new file.
pub record Os (W : Type 0) : Type 0 where
  pub renamed : Bool
  pub backup : Backup
  pub made : Bool
  pub opened : Option W

-- `fnc.FlushHint` and `fnc.DropCache` from an offset and for a length, `os.Remove`, `Close`.
pub data Event : Type 0 where
  flush_hint : ℤ → ℤ → Event
  drop_cache : ℤ → ℤ → Event
  remove : List ℕ → Event
  close_file : Event

module _ (h : HeapPackage) {W : Type 0} where
  -- The part of `open` that moves a file to the backups: the heap afterwards, and the backup that
  -- was removed, if any.
  unfoldable pub keep_backup : Os W → Rotation W → List Backup × List Backup
  keep_backup os r = add_backup h (pos_part r.cfg.max_backups) os.backup r.backups

  -- The part of `open` that creates the file; `none` is an error.
  unfoldable pub create : Os W → Option W
  create os = if os.made then os.opened else none

  -- `open` in a rotation: the new file if there was no error, the state, which keeps the change of
  -- the backups on an error after the rename, and the events.
  unfoldable pub open_file : Os W → Rotation W → Option W × Rotation W × List Event
  open_file os r =
      if not r.has_file
      then (create os, r, [])
      else if os.renamed
      then (let (kept, gone) = keep_backup os r in
          (create os, record r { backups = kept }, map (λ b. remove b.fp) gone))
      else (none, r, [])

  -- `if r.dirty >= r.cfg.PerSyncSize || force`
  unfoldable pub flush_pages : Bool → Rotation W → Rotation W × List Event
  flush_pages force r =
      if leb_ℤ r.cfg.per_sync_size (pos r.dirty) || force
      then (
        record r { synced = r.synced + r.dirty; dirty = 0 },
        flush_hint (pos r.synced) (pos r.dirty) ∷ [],
      )
      else (r, [])

  -- `if r.written >= r.cfg.MaxSize`
  unfoldable pub rotate : Os W → Rotation W → Rotation W × List Event
  rotate os r =
      let zeroed = λ (s : Rotation W). record s { written = 0; dirty = 0; synced = 0 } in
      if leb_ℤ r.cfg.max_size (pos r.written)
      then (let (opened, r', events) = open_file os r in
          elim opened [
            | none ↦ (zeroed r', events)
            | some w ↦ (
              zeroed (record r' { has_file = true; buf = reset w r'.buf }),
              events
                  ++ (flush_hint (pos 0) r.cfg.max_size
                      ∷ drop_cache (pos 0) r.cfg.max_size
                      ∷ close_file
                      ∷ []),
            )
          ])
      else (r, [])

  unfoldable pub flush_dirty : Bool → Os W → Rotation W → Rotation W × List Event
  flush_dirty force os r =
      let (r₁, e₁) = flush_pages force r in let (r₂, e₂) = rotate os r₁ in (r₂, e₁ ++ e₂)

  abbrev pub count : ℕ → BufIo W → Rotation W → Rotation W
  count fw b r = record r { buf = b; dirty = r.dirty + fw; written = r.written + fw }

  module _ (write_to : Writer W) where
    -- The count and the error that are returned, the state, and the events. `none`: the loop of the
    -- buffer's `write` did not end.
    unfoldable pub write :
        List ℕ → Os W → Rotation W → Option ((ℕ × Option Error) × Rotation W × List Event)
    write p os r = elim (BufIo.write write_to p r.buf) [
      | none ↦ none
      | some ((nn, fw, e), b) ↦
          let r₁ = count fw b r in
          if fw == 0
          then some ((length p, none), r₁, [])
          else let (r₂, events) = flush_dirty false os r₁ in some ((length p, none), r₂, events)
    ]

    unfoldable pub sync : Os W → Rotation W → Option Error × Rotation W × List Event
    sync os r =
        let (fw, e, b) = BufIo.flush write_to r.buf in
        let (r', events) = flush_dirty true os (count fw b r) in (none, r', events)

  unfoldable pub close : Rotation W → List Event
  close r = if r.has_file then close_file ∷ [] else []

  -- `prepare`: the backups removed at the start are returned beside the rotation. A buffer of a
  -- negative size, which a size that overflows can be, is a panic of `make`, after the file was
  -- opened.
  unfoldable pub prepare :
      Stamps → Directory → Os W → List ℕ → Config → Result (Rotation W × List Backup)
  prepare parse dir os name cfg = elim cfg.output_path [
    | [] ↦ err
    | c ∷ path ↦
        let cfg₁ = adjust cfg in
        elim (list_backups h parse dir name (pos_part cfg₁.max_backups)) [
          | ok (kept, gone) ↦ elim (create os) [
            | none ↦ err
            | some w ↦
                if ltb_ℤ cfg₁.per_write_size (pos 0)
                then panic
                else ok (
                  record {
                    cfg = cfg₁;
                    backups = kept;
                    has_file = true;
                    buf = new_buf_io w (pos_part cfg₁.per_write_size);
                    written = 0;
                    dirty = 0;
                    synced = 0;
                  },
                  gone,
                )
          ]
          | err ↦ err
          | panic ↦ panic
          | out_of_fuel ↦ out_of_fuel
        ]
  ]
