-- ===== src/Zaproll/Backup.antt =====
-- zaproll/backup.go: the backups of a log file, oldest on top of a heap.
-- `container/heap`, the directory and the clock's text form are parameters: see `HeapPackage`,
-- `Directory` and `Stamps`.
pub mod Names
pub mod Prune
pub mod Listing
pub mod Tests
use nanozap.Base.{
  ℕ, zero, suc, ◌+◌, ◌-◌, ◌≤◌, ◌<◌, ◌≡◌, Bool, true, false, ◌&&◌, not, Option, none, some, List, [],
  ◌∷◌, ◌++◌, ltb, leb, ◌==◌, if◌then◌else◌, length, get_elem?, take, drop, set,
}
use mathlib.Core.List.{Perm, Mem}
use nanozap.Base.Int.{ℤ, pos, negsuc, ltb_ℤ, ◌≤ℤ◌}
use nanozap.Base.Bytes.{bytes, bytes_eq, has_prefix, has_suffix}

pub record Backup : Type 0 where
  pub ts : ℤ
  pub fp : List ℕ

-- How a call ends: with a value, an error, a run-time panic, or the model's fuel running out.
pub data Result (A : Type 0) : Type 0 where
  ok : A → Result A
  err : Result A
  panic : Result A
  out_of_fuel : Result A

infixl 5 ◌>>=◌
abbrev pub ◌>>=◌ : {A B : Type 0} → Result A → (A → Result B) → Result B
ok a >>= f = f a
err >>= f = err
panic >>= f = panic
out_of_fuel >>= f = out_of_fuel

-- The methods by which `Backups` is a `heap.Interface`. An index out of range panics.
pub less : List Backup → ℕ → ℕ → Result Bool
less bs i j = elim (get_elem? bs i) [
  | none ↦ panic
  | some x ↦ elim (get_elem? bs j) [ none ↦ panic | some y ↦ ok (ltb_ℤ x.ts y.ts) ]
]

-- A negative index, which the guard of `Swap` passes over, is `none`.
pub swap : List Backup → Option ℕ → Option ℕ → Result (List Backup)
swap bs none j = ok bs
swap bs (some i) none = ok bs
swap bs (some i) (some j) = elim (get_elem? bs i) [
  | none ↦ panic
  | some x ↦ elim (get_elem? bs j) [ none ↦ panic | some y ↦ ok (set (set bs i y) j x) ]
]

-- The last element and the others; `none` is the nil that an empty slice yields.
pub pop_last : List Backup → Option Backup × List Backup
pop_last bs = (get_elem? bs (length bs - 1), take (length bs - 1) bs)

pub push_last : Backup → List Backup → List Backup
push_last x bs = bs ++ x ∷ []

-- What the documentation of `container/heap` says of `Push` and `Pop` on a heap: one adds the
-- element, the other removes a least one by `Less`, and both leave a heap of the right elements.
pub record HeapPackage : Type 1 where
  pub IsHeap : List Backup → Type 0
  pub push : Backup → List Backup → List Backup
  pub pop : List Backup → Backup × List Backup
  pub empty_heap : IsHeap []
  pub push_heap : (x : Backup) (bs : List Backup) → IsHeap bs → IsHeap (push x bs)
  pub push_perm : (x : Backup) (bs : List Backup) → IsHeap bs → Perm (push x bs) (x ∷ bs)
  pub pop_heap : (bs : List Backup) → IsHeap bs → 0 < length bs → IsHeap (pop bs).1
  pub pop_perm : (bs : List Backup) → IsHeap bs → 0 < length bs → Perm ((pop bs).0 ∷ (pop bs).1) bs
  pub pop_least :
      (bs : List Backup)
      → IsHeap bs
      → 0 < length bs
      → (y : Backup) → Mem y bs
      → (pop bs).0.ts ≤ℤ y.ts

-- `time.Parse` on the layout of a backup's time, in seconds; `none` is its error.
abbrev pub Stamps : Type 0
Stamps = List ℕ → Option ℤ

-- An entry of `os.ReadDir`.
pub record Entry : Type 0 where
  pub name : List ℕ
  pub is_dir : Bool

-- `os.MkdirAll` and `os.ReadDir` on the directory of the log file, and `filepath.Join` with it.
pub record Directory : Type 0 where
  pub made : Bool
  pub entries : Option (List Entry)
  pub join : List ℕ → List ℕ

-- The bytes from the last dot on, `filepath.Ext` of a name without a slash.
pub ext : List ℕ → List ℕ
ext [] = []
ext (c ∷ s) = elim (ext s) [ x ∷ r ↦ x ∷ r | [] ↦ if c == b'.' then c ∷ s else [] ]

-- `getPrefixAndExt` of a path whose `filepath.Base` is `name`.
pub get_prefix_and_ext : List ℕ → List ℕ × List ℕ
get_prefix_and_ext name = let e = ext name in (take (length name - length e) name ++ b'-' ∷ [], e)

-- `filename[i:j]`
pub slice : List ℕ → ℕ → ℕ → Result (List ℕ)
slice s i j = if leb i j && leb j (length s) then ok (take (j - i) (drop i s)) else panic

-- `parseTime` of a name without a slash.
pub parse_time : Stamps → List ℕ → List ℕ → List ℕ → Result ℤ
parse_time parse filename prefix e =
    if not (has_prefix filename prefix)
    then ok (pos 0)
    else if not (has_suffix filename e)
    then ok (pos 0)
    else slice filename (length prefix) (length filename - length e) >>= λ stamp.
        elim (parse stamp) [ none ↦ ok (pos 0) | some t ↦ ok t ]

-- The file name that `makeBackupFP` builds from the name and the formatted time.
pub backup_name : List ℕ → List ℕ → List ℕ
backup_name name stamp =
    let e = ext name in (take (length name - length e) name ++ b'-' ∷ []) ++ (stamp ++ e)

abbrev pub is_zero : ℤ → Bool
is_zero (pos n) = n == 0
is_zero (negsuc n) = false

module _ (h : HeapPackage) where
  -- `for b.Len() > max { v := heap.Pop(b); os.Remove(v.(Backup).fp) }`, with the backups removed so
  -- far, latest first.
  pub prune : ℕ → ℕ → List Backup → List Backup → Result (List Backup × List Backup)
  prune zero max bs removed = out_of_fuel
  prune (suc f) max bs removed =
      let rest = let (v, bs') = h.pop bs in prune f max bs' (v ∷ removed) in
      if ltb max (length bs) then rest else ok (bs, removed)

  -- What `open` does with the file that it has renamed: it pushes the backup, and pops one if there
  -- are too many.
  pub add_backup : ℕ → Backup → List Backup → List Backup × List Backup
  add_backup max x bs =
      let bs' = h.push x bs in
      if ltb max (length bs') then (let (v, kept) = h.pop bs' in (kept, v ∷ [])) else (bs', [])

  module _ (parse : Stamps) (dir : Directory) (prefix e : List ℕ) where
    -- The body of the loop over the directory.
    pub add_entry : Entry → List Backup → Result (List Backup)
    add_entry f bs =
        if f.is_dir
        then ok bs
        else parse_time parse f.name prefix e >>= λ ts.
            if is_zero ts then ok bs else ok (h.push (record { ts = ts; fp = dir.join f.name }) bs)

    pub add_entries : List Entry → List Backup → Result (List Backup)
    add_entries [] bs = ok bs
    add_entries (f ∷ fs) bs = add_entry f bs >>= add_entries fs

  -- `listBackups` of the log file `name`: the heap, and the backups that were removed.
  pub list_backups : Stamps → Directory → List ℕ → ℕ → Result (List Backup × List Backup)
  list_backups parse dir name max =
      let (prefix, e) = get_prefix_and_ext name in
      if not dir.made then err else elim dir.entries [
        | none ↦ err
        | some fs ↦ add_entries parse dir prefix e fs [] >>= λ bs. prune (length bs + 1) max bs []
      ]
