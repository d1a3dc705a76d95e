-- ===== src/Zapcore/Entry/Tests.antt =====
-- Entries over cores that add their number to a list.
use nanozap.Base.{ℕ, some, List, [], ◌∷◌, ◌++◌, ◌≡◌, refl}
use nanozap.Base.Int.{pos}
use nanozap.Base.Bytes.{bytes}
use nanozap.Zapcore.Entry.{
  Entry, CheckedEntry, write_then_panic, returns, panics, get_checked_entry, add_core, should,
  write_cores,
}
use nanozap.Zapcore.Entry.Pool.{Entries, update, add_core_new, write_at}
use nanozap.Zapcore.Entry.Once.{write-once}

abbrev entry : Entry
entry = record { level = pos 4; time = pos 0; message = bytes "stop"; req_id = 7 }

abbrev note : ℕ → Entry → List ℕ → List ℕ
note c ent s = s ++ c ∷ []

abbrev checked : CheckedEntry ℕ
checked = record (get_checked_entry entry) { cores = 1 ∷ [] }

abbrev other : Entry
other = record { level = pos 0; time = pos 1; message = bytes "go"; req_id = 8 }

abbrev entries : Entries ℕ
entries = record { heap = λ i. checked; pool = [] }

abbrev filled : Entries ℕ
filled = record entries {
  heap =
      update 5 (should entry write_then_panic (some (add_core entry 2 (some checked))))
        entries.heap;
}

write-once_example :
    let (e, es, s) = write_at note 5 filled [] in
    let (e₂, es₂, s₂) = write_at note 5 es s in
    let (e₃, es₃, s₃) = write_at note 5 (add_core_new other 3 5 [] es) s in
    (e ≡ panics (bytes "stop"))
    × (s ≡ note 2 entry (write_cores note (1 ∷ []) entry []))
    × (es.pool ≡ 5 ∷ [])
    × (e₂ ≡ returns)
    × (s₂ ≡ s)
    × (e₃ ≡ returns)
    × (s₃ ≡ note 3 other s)
write-once_example = write-once note 5 entry 2 write_then_panic entries [] other 3 refl
