-- ===== src/Zapcore/Entry/Once.antt =====
-- zapcore/entry.go: a checked entry that is written, and a reference to it that is kept.
use nanozap.Base.{ℕ, true, false, some, List, [], ◌∷◌, ◌++◌, ◌==◌, ◌≡◌, refl, arith}
use nanozap.Zapcore.Entry.{
  Entry, CheckWriteAction, returns, add_core, should, ending, write_cores, write_entry,
}
use nanozap.Zapcore.Entry.Pool.{Entries, update, add_core_new, write_at}

module _ {C S : Type 0} (core_write : C → Entry → S → S) where
  write_cores-append :
      (cs ds : List C) (ent : Entry) (s : S)
      → write_cores core_write (cs ++ ds) ent s
        ≡ write_cores core_write ds ent (write_cores core_write cs ent s)
  unfolding write_cores
  write_cores-append [] ds ent s = refl
  write_cores-append (c ∷ cs) ds ent s = write_cores-append cs ds ent (core_write c ent s)

  -- For a reference to a checked entry that was not written yet: once one more core agreed to write
  -- it and its action was set, `Write` has it written by the cores that were there before, in
  -- order, and by the new one after them, ends with the action, and gives the reference to the
  -- pool. A second `Write` through the reference writes nothing and just returns, as long as the
  -- pool has not handed it out again. Once it has, for another entry and core, that `Write` writes
  -- the other entry.
  pub write-once :
      (i : ℕ) (ent : Entry) (core : C) (action : CheckWriteAction) (es : Entries C) (s : S)
      (ent' : Entry) (core' : C)
      → (es.heap i).dirty ≡ false
      → let ce = es.heap i in
        let full = record es {
          heap = update i (should ent action (some (add_core ent core (some ce)))) es.heap;
        } in
        let (e, es', s') = write_at core_write i full s in
        let (e₂, es₂, s₂) = write_at core_write i es' s' in
        let (e₃, es₃, s₃) = write_at core_write i (add_core_new ent' core' i es.pool es') s' in
        (e ≡ ending action ce.entry.message)
        × (s' ≡ core_write core ce.entry (write_cores core_write ce.cores ce.entry s))
        × (es'.pool ≡ i ∷ es.pool)
        × (e₂ ≡ returns)
        × (s₂ ≡ s')
        × (e₃ ≡ returns)
        × (s₃ ≡ core_write core' ent' s')
  unfolding should add_core add_core_new write_at write_entry write_cores
  write-once i ent core action es s ent' core' clean =
      let same : i == i ≡ true = ground arith in
      rw (same, clean)
        (
          refl,
          write_cores-append (es.heap i).cores (core ∷ []) (es.heap i).entry s,
          refl,
          refl,
          refl,
          refl,
          refl,
        )
