-- ===== src/Zaproll/Backup/Prune.antt =====
-- zaproll/backup.go: which backups are kept and which are removed.
use Prim.Native.Nat.{min}
use mathlib.Core.Logic.Or
use mathlib.Core.List.{Perm, Mem, mem-cons, mem-cons_of_mem, not-mem-nil, perm_middle}
use mathlib.Core.List.Perm
use native.Mathlib.Bridge.{le_prop}
use nanozap.Base.{
  ℕ, zero, suc, ◌+◌, ◌≤◌, ◌<◌, ◌≡◌, refl, List, [], ◌∷◌, ◌++◌, arith, ltb, inl, inr, Bool-cases,
  length, length-perm,
}
use nanozap.Base.Int.{◌≤ℤ◌}
use nanozap.Zaproll.Backup.{Backup, ok, HeapPackage, prune, add_backup}

-- No backup of `xs` is younger than one of `ys`.
abbrev pub Older : List Backup → List Backup → Type 0
Older xs ys = (x y : Backup) → Mem x xs → Mem y ys → x.ts ≤ℤ y.ts

module _ (h : HeapPackage) where
  open h use {IsHeap}

  -- What a pop leaves, where those removed before were not younger.
  pop-Older :
      (bs removed : List Backup)
      → IsHeap bs
      → 0 < length bs
      → Older removed bs
      → Older ((h.pop bs).0 ∷ removed) (h.pop bs).1
  pop-Older bs removed heap some_left old x y mx my =
      let in_bs : Mem y bs =
        (Perm.mem_iff (h.pop_perm bs heap some_left)).0 (mem-cons_of_mem _ my) in
      Or.elim le_prop (mem-cons.0 mx) (λ e. rw e (h.pop_least bs heap some_left y in_bs))
        (λ m. old x y m in_bs)

  pub prune_lem :
      (f max : ℕ) (bs removed : List Backup)
      → IsHeap bs
      → length bs < f
      → Older removed bs
      → (kept : List Backup) × (gone : List Backup) × (prune h f max bs removed ≡ ok (kept, gone))
        × IsHeap kept
        × (length kept ≡ min (length bs) max)
        × Perm (gone ++ kept) (removed ++ bs)
        × Older gone kept
  unfolding prune
  prune_lem zero max bs removed heap enough old = absurd (omega arith)
  prune_lem (suc f) max bs removed heap enough old = elim (Bool-cases (ltb max (length bs))) [
    | inr fits ↦ rw fits (bs, removed, refl, heap, ground arith, Perm.refl (removed ++ bs), old)
    | inl many ↦
        let some_left : 0 < length bs = ground arith in
        let (v, bs') = h.pop bs in
        let perm = h.pop_perm bs heap some_left in
        let shorter = length-perm perm in
        let (kept, gone, e, heap', len, same, old') =
          prune_lem f max bs' (v ∷ removed) (h.pop_heap bs heap some_left) (omega arith)
            (pop-Older bs removed heap some_left old) in
        rw many (
          kept,
          gone,
          e,
          heap',
          ground arith,
          Perm.trans same
              (Perm.trans (Perm.symm (perm_middle removed bs')) (Perm.append_left removed perm)),
          old',
        )
  ]

  -- On a heap of at most `max` backups: a new one is added and, if there are then more than `max`,
  -- one of the oldest is removed. What is kept is a heap; what is kept and what is removed are
  -- together what there was and the new one, in any order, and nothing that is removed is younger
  -- than what is kept.
  pub add_backup_lem :
      (max : ℕ) (x : Backup) (bs : List Backup)
      → IsHeap bs
      → length bs ≤ max
      → let (kept, gone) = add_backup h max x bs in
        IsHeap kept
        × (length kept ≡ min (length bs + 1) max)
        × Perm (gone ++ kept) (x ∷ bs)
        × Older gone kept
  unfolding add_backup
  add_backup_lem max x bs heap room =
      let heap' = h.push_heap x bs heap in
      let perm = h.push_perm x bs heap in
      let longer = length-perm perm in
      elim (Bool-cases (ltb max (length (h.push x bs)))) [
        | inr fits ↦ rw fits (heap', ground arith, perm, λ y z m. absurd (not-mem-nil m))
        | inl many ↦
            let some_left : 0 < length (h.push x bs) = omega arith in
            let popped = h.pop_perm (h.push x bs) heap' some_left in
            let shorter = length-perm popped in
            rw many (
              h.pop_heap (h.push x bs) heap' some_left,
              ground arith,
              Perm.trans popped perm,
              pop-Older (h.push x bs) [] heap' some_left (λ y z m. absurd (not-mem-nil m)),
            )
      ]
