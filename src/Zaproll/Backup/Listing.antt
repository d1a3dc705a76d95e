-- ===== src/Zaproll/Backup/Listing.antt =====
-- zaproll/backup.go: `listBackups`.
use Prim.Native.Nat.{min}
use mathlib.Core.List.{Perm, not-mem-nil, append-nil, perm_middle}
use mathlib.Core.List.Perm
use nanozap.Base.{
  ℕ, ◌+◌, ◌≡◌, refl, true, false, some, List, [], ◌∷◌, ◌++◌, arith, length, length-perm,
}
use nanozap.Base.Int.{ℤ}
use nanozap.Zaproll.Backup.{
  Backup, ok, HeapPackage, Stamps, Entry, Directory, get_prefix_and_ext, parse_time, is_zero,
  add_entry, add_entries, list_backups,
}
use nanozap.Zaproll.Backup.Prune.{Older, prune_lem}

module _ (parse : Stamps) (dir : Directory) (prefix e : List ℕ) where
  -- The backups among the entries of a directory: its files whose name has a time that is not 0.
  pub data Found : List Entry → List Backup → Type 0 where
    end : Found [] []
    skip_dir :
        {f : Entry} {fs : List Entry} {bs : List Backup}
        → f.is_dir ≡ true
        → Found fs bs
        → Found (f ∷ fs) bs
    skip_other :
        {f : Entry} {fs : List Entry} {bs : List Backup} (t : ℤ)
        → f.is_dir ≡ false
        → parse_time parse f.name prefix e ≡ ok t
        → is_zero t ≡ true
        → Found fs bs
        → Found (f ∷ fs) bs
    backup :
        {f : Entry} {fs : List Entry} {bs : List Backup} (t : ℤ)
        → f.is_dir ≡ false
        → parse_time parse f.name prefix e ≡ ok t
        → is_zero t ≡ false
        → Found fs bs
        → Found (f ∷ fs) (record { ts = t; fp = dir.join f.name } ∷ bs)

  module _ (h : HeapPackage) where
    open h use {IsHeap}

    entry_dir :
        (f : Entry) (bs : List Backup)
        → f.is_dir ≡ true
        → add_entry h parse dir prefix e f bs ≡ ok bs
    unfolding add_entry
    entry_dir f bs d = simp d

    entry_other :
        (f : Entry) (bs : List Backup) (t : ℤ)
        → f.is_dir ≡ false
        → parse_time parse f.name prefix e ≡ ok t
        → is_zero t ≡ true
        → add_entry h parse dir prefix e f bs ≡ ok bs
    unfolding add_entry
    entry_other f bs t d p z = simp (d, p) (rw z)

    entry_backup :
        (f : Entry) (bs : List Backup) (t : ℤ)
        → f.is_dir ≡ false
        → parse_time parse f.name prefix e ≡ ok t
        → is_zero t ≡ false
        → add_entry h parse dir prefix e f bs
          ≡ ok (h.push (record { ts = t; fp = dir.join f.name }) bs)
    unfolding add_entry
    entry_backup f bs t d p z = simp (d, p) (rw z)

    abbrev Adds : List Entry → List Backup → List Backup → Type 0
    Adds fs new bs =
        (bs' : List Backup) × (add_entries h parse dir prefix e fs bs ≡ ok bs')
        × IsHeap bs'
        × Perm bs' (new ++ bs)

    add_entries_lem :
        {fs : List Entry} {new : List Backup}
        → Found fs new
        → (bs : List Backup) → IsHeap bs
        → Adds fs new bs
    unfolding add_entries
    add_entries_lem end bs heap = (bs, refl, heap, Perm.refl bs)
    add_entries_lem (skip_dir {f = f} d rest) bs heap =
        let (bs', eq, heap', perm) = add_entries_lem rest bs heap in
        (bs', rw (entry_dir f bs d) eq, heap', perm)
    add_entries_lem (skip_other {f = f} t d p z rest) bs heap =
        let (bs', eq, heap', perm) = add_entries_lem rest bs heap in
        (bs', rw (entry_other f bs t d p z) eq, heap', perm)
    add_entries_lem (backup {f = f} {bs = new} t d p z rest) bs heap =
        let x : Backup = record { ts = t; fp = dir.join f.name } in
        let (bs', eq, heap', perm) = add_entries_lem rest (h.push x bs) (h.push_heap x bs heap) in
        (
          bs',
          rw (entry_backup f bs t d p z) eq,
          heap',
          Perm.trans perm
              (Perm.trans (Perm.append_left new (h.push_perm x bs heap)) (perm_middle new bs)),
        )

-- Where the directory can be made and read, and the backups found in it are those `Found` says,
-- listing it ends without an error and leaves a heap of the youngest of them, `max` or all if there
-- are fewer; those removed are the others, none of them younger than one that is kept.
pub list_backups_lem :
    (h : HeapPackage) (parse : Stamps) (dir : Directory) (name : List ℕ) (max : ℕ) (fs : List Entry)
    (found : List Backup)
    → dir.made ≡ true
    → dir.entries ≡ some fs
    → (let (prefix, e) = get_prefix_and_ext name in Found parse dir prefix e fs found)
    → (kept : List Backup) × (gone : List Backup) × (list_backups h parse dir name max
        ≡ ok (kept, gone))
      × h.IsHeap kept
      × (length kept ≡ min (length found) max)
      × Perm (gone ++ kept) found
      × Older gone kept
unfolding list_backups
list_backups_lem h parse dir name max fs found made read f =
    let (prefix, e) = get_prefix_and_ext name in
    let (bs, added, heap, perm) = add_entries_lem parse dir prefix e h f [] h.empty_heap in
    let (kept, gone, pruned, heap', len, same, old) =
      prune_lem h (length bs + 1) max bs [] heap (omega arith) (λ x y m. absurd (not-mem-nil m)) in
    let perm' : Perm bs found = rw (append-nil found) at perm in
    (
      kept,
      gone,
      simp (made, read, added) pruned,
      heap',
      omega (arith, length-perm perm'),
      Perm.trans same perm',
      old,
    )
