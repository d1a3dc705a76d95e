-- ===== src/Zaproll/Backup/Tests.antt =====
-- The backups over a heap that is a plain list, and names as in zaproll/backup_test.go.
use Prim.Native.Nat.{min}
use mathlib.Core.Logic.Or
use mathlib.Core.List.{Perm, Mem, mem-cons, not-mem-nil}
use mathlib.Core.List.Perm
use native.Mathlib.Bridge.{le_prop}
use nanozap.Base.{
  ℕ, ◌-◌, ◌<◌, ◌≡◌, refl, true, false, none, some, List, [], ◌∷◌, ◌++◌, arith, length,
  if◌then◌else◌, inl, inr, Bool-cases,
}
use nanozap.Base.Int.{pos, leb_ℤ, ◌≤ℤ◌}
use nanozap.Base.Bytes.{bytes, has_prefix, has_suffix}
use nanozap.Zaproll.Backup.{
  Backup, ok, panic, HeapPackage, Stamps, Entry, Directory, ext, get_prefix_and_ext, slice,
  parse_time, backup_name, list_backups, add_entries, add_entry, prune, add_backup,
}
use nanozap.Zaproll.Backup.Names.{parse_time-backup_name, parse_time-panic}
use nanozap.Zaproll.Backup.Prune.{Older, add_backup_lem}
use nanozap.Zaproll.Backup.Listing.{Found, end, skip_dir, skip_other, backup, list_backups_lem}

abbrev pub no_backup : Backup
no_backup = record { ts = pos 0; fp = [] }

abbrev pub select : List Backup → Backup × List Backup
select [] = (no_backup, [])
select (x ∷ []) = (x, [])
select (x ∷ y ∷ bs) =
    let (m, rest) = select (y ∷ bs) in if leb_ℤ x.ts m.ts then (x, y ∷ bs) else (m, x ∷ rest)

pub select-perm : (bs : List Backup) → 0 < length bs → Perm ((select bs).0 ∷ (select bs).1) bs
select-perm [] h = absurd (omega arith)
select-perm (x ∷ []) h = Perm.refl (x ∷ [])
select-perm (x ∷ y ∷ bs) h =
    let (m, rest) = select (y ∷ bs) in
    elim (Bool-cases (leb_ℤ x.ts m.ts)) [
      | inl e ↦ rw e (Perm.refl (x ∷ y ∷ bs))
      | inr e ↦
          rw e (Perm.trans (Perm.swap x m rest) (Perm.cons x (select-perm (y ∷ bs) (omega arith))))
    ]

pub select-least :
    (bs : List Backup) → 0 < length bs → (y : Backup) → Mem y bs → (select bs).0.ts ≤ℤ y.ts
select-least [] h z m = absurd (omega arith)
select-least (x ∷ []) h z m =
    Or.elim le_prop (mem-cons.0 m) (λ e. rw e (omega arith)) (λ n. absurd (not-mem-nil n))
select-least (x ∷ y ∷ bs) h z m =
    let (l, rest) = select (y ∷ bs) in
    elim (Bool-cases (leb_ℤ x.ts l.ts)) [
      | inl e ↦ rw e (
          Or.elim le_prop (mem-cons.0 m) (λ q. rw q (omega arith))
            (λ n. let below = select-least (y ∷ bs) (omega arith) z n in ground arith))
      | inr e ↦ rw e (
          Or.elim le_prop (mem-cons.0 m) (λ q. rw q (ground arith))
            (λ n. select-least (y ∷ bs) (omega arith) z n))
    ]

abbrev pub list_heap : HeapPackage
list_heap = record {
  IsHeap = λ bs. Unit;
  push = λ x bs. x ∷ bs;
  pop = select;
  empty_heap = tt;
  push_heap = λ x bs h. tt;
  push_perm = λ x bs h. Perm.refl (x ∷ bs);
  pop_heap = λ bs h p. tt;
  pop_perm = λ bs h p. select-perm bs p;
  pop_least = λ bs h p. select-least bs p;
}

-- A stamp is the one digit of a day.
abbrev pub days : Stamps
days (c ∷ []) = some (pos (c - b'0'))
days s = none

abbrev file : List ℕ → Entry
file name = record { name = name; is_dir = false }

abbrev listing : List Entry
listing =
    file (bytes "log-7.txt")
    ∷ file (bytes "log.txt")
    ∷ record { name = bytes "log-5.txt"; is_dir = true }
    ∷ file (bytes "log-3.txt")
    ∷ []

abbrev pub directory : Directory
directory = record { made = true; entries = some listing; join = λ name. name }

log_parts : get_prefix_and_ext (bytes "log.txt") ≡ (bytes "log-", bytes ".txt")
unfolding get_prefix_and_ext ext
log_parts = refl

kept_of_listing :
    list_backups list_heap days directory (bytes "log.txt") 1
    ≡ ok (
      record { ts = pos 7; fp = bytes "log-7.txt" } ∷ [],
      record { ts = pos 3; fp = bytes "log-3.txt" } ∷ [],
    )
unfolding list_backups add_entries add_entry prune get_prefix_and_ext ext parse_time slice
    has_prefix has_suffix
kept_of_listing = refl

-- A log file `x..-` makes `New` panic where its directory has a file `x.-`.
panics_on_listing :
    list_backups list_heap days
      (record directory { entries = some (file (bytes "x.-") ∷ []) })
      (bytes "x..-")
      1
    ≡ panic
unfolding list_backups add_entries add_entry prune get_prefix_and_ext ext parse_time slice
    has_prefix has_suffix
panics_on_listing = refl

parse_time-backup_name_example :
    let (p, e) = get_prefix_and_ext (bytes "log.txt") in
    parse_time days (backup_name (bytes "log.txt") (bytes "7")) p e ≡ ok (pos 7)
parse_time-backup_name_example =
    parse_time-backup_name days (bytes "log.txt") (bytes "7") (pos 7) refl

parse_time-panic_example :
    parse_time days (bytes "x" ++ (bytes ".-" ++ [])) (bytes "x" ++ bytes ".-") (bytes ".-" ++ [])
    ≡ panic
parse_time-panic_example = parse_time-panic days (bytes "x") (bytes ".-") [] (omega arith)

listing-Found :
    let (p, e) = get_prefix_and_ext (bytes "log.txt") in
    Found days directory p e listing (
      record { ts = pos 7; fp = bytes "log-7.txt" }
      ∷ record { ts = pos 3; fp = bytes "log-3.txt" }
      ∷ [])
unfolding get_prefix_and_ext ext parse_time slice has_prefix has_suffix
listing-Found =
    backup (pos 7) refl refl refl
      (skip_other (pos 0) refl refl refl (skip_dir refl (backup (pos 3) refl refl refl end)))

list_backups_lem_example :
    (kept : List Backup) × (gone : List Backup) × (list_backups list_heap days directory
        (bytes "log.txt")
        1
      ≡ ok (kept, gone))
    × Unit {0}
    × (length kept ≡ min 2 1)
    × Perm (gone ++ kept) (
        record { ts = pos 7; fp = bytes "log-7.txt" }
        ∷ record { ts = pos 3; fp = bytes "log-3.txt" }
        ∷ [])
    × Older gone kept
list_backups_lem_example =
    list_backups_lem list_heap days directory (bytes "log.txt") 1 listing
      (record { ts = pos 7; fp = bytes "log-7.txt" }
        ∷ record { ts = pos 3; fp = bytes "log-3.txt" }
        ∷ [])
      refl refl listing-Found

abbrev pub older : Backup
older = record { ts = pos 3; fp = bytes "log-3.txt" }

abbrev pub newer : Backup
newer = record { ts = pos 7; fp = bytes "log-7.txt" }

add_backup_lem_example :
    let (kept, gone) = add_backup list_heap 1 newer (older ∷ []) in
    Unit {0} × (length kept ≡ min 2 1) × Perm (gone ++ kept) (newer ∷ older ∷ []) × Older gone kept
add_backup_lem_example = add_backup_lem list_heap 1 newer (older ∷ []) tt (omega arith)
