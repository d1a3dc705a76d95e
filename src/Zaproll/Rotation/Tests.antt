-- ===== src/Zaproll/Rotation/Tests.antt =====
-- The rotated file over a device of six bytes, a heap that is a plain list, and a size of three.
use nanozap.Base.{ℕ, ◌≡◌, refl, true, false, none, some, List, [], ◌∷◌, ◌++◌, arith}
use nanozap.Base.Int.{pos}
use nanozap.Zaproll.BufIo.{write_error}
use nanozap.Zaproll.BufIo.Tests.{small_disk, small_disk-IsWriter, half_full, broken}
use nanozap.Zaproll.Config.{Config}
use nanozap.Zaproll.BufIo.Write.Healthy.{NeverFails}
use nanozap.Zaproll.Backup.Tests.{list_heap, newer, older}
use nanozap.Zaproll.Rotation.{Rotation, Os, Event, write, sync, rotate}
use nanozap.Zaproll.Rotation.Counters.{IsValid, write-IsValid, sync-IsValid}
use nanozap.Zaproll.Rotation.Stream.{stream}
use nanozap.Zaproll.Rotation.Logged.{write_all, payload, write_all-stream}
use nanozap.Zaproll.Rotation.Failure.{write-loses, rotate-keeps_error}

abbrev config : Config
config = record {
  output_path = [];
  max_size = pos 3;
  max_backups = pos 1;
  local_time = false;
  per_write_size = pos 4;
  per_sync_size = pos 8;
  developed = false;
}

abbrev pub opened : Rotation (List ℕ)
opened = record {
  cfg = config;
  backups = older ∷ [];
  has_file = true;
  buf = half_full;
  written = 0;
  dirty = 0;
  synced = 0;
}

abbrev pub system : Os (List ℕ)
system = record { renamed = true; backup = newer; made = true; opened = some [] }

pub opened-IsValid : IsValid list_heap opened
opened-IsValid = record {
  sound = record {
    positive = omega arith;
    balanced = refl;
    heap = tt;
    bounded = omega arith;
    buffer = omega arith;
  };
  below = omega arith;
}

write-IsValid_example :
    (r' : Rotation (List ℕ)) × (events : List Event) × (write list_heap small_disk
        (3 ∷ 4 ∷ 5 ∷ [])
        system
        opened
      ≡ some ((3, none), r', events))
    × IsValid list_heap r'
write-IsValid_example =
    write-IsValid list_heap small_disk (λ w. w) small_disk-IsWriter (3 ∷ 4 ∷ 5 ∷ []) system opened
      opened-IsValid

sync-IsValid_example :
    (sync list_heap small_disk system opened).0 ≡ none
    × IsValid list_heap (sync list_heap small_disk system opened).1
sync-IsValid_example =
    sync-IsValid list_heap small_disk (λ w. w) small_disk-IsWriter system opened opened-IsValid

write-loses_example :
    write list_heap small_disk (7 ∷ 8 ∷ []) system (record opened { buf = broken })
    ≡ some ((2, none), record opened { buf = broken }, [])
write-loses_example =
    write-loses list_heap small_disk (λ w. w) small_disk-IsWriter (7 ∷ 8 ∷ []) system
      (record opened { buf = broken }) (write_error 28) refl

rotate-keeps_error_example :
    (rotate list_heap system (record opened { buf = broken; written = 3 })).0.buf.err
    ≡ some (write_error 28)
rotate-keeps_error_example =
    rotate-keeps_error list_heap system (record opened { buf = broken; written = 3 })

-- Five bytes to a file that is rotated at three, and then two more.
abbrev lines : List (List ℕ × Os (List ℕ))
lines = (3 ∷ 4 ∷ 5 ∷ 6 ∷ 7 ∷ [], system) ∷ (8 ∷ 9 ∷ [], system) ∷ []

write_all-stream_example :
    (old' : List ℕ) × (r' : Rotation (List ℕ)) × (write_all list_heap
        (λ w. w)
        small_disk
        lines
        []
        opened
      ≡ some (old', r'))
    × IsValid list_heap r'
    × (r'.buf.err ≡ none
        → (opened.buf.err ≡ none)
          × (old' ++ stream list_heap (λ w. w) r'.buf
              ≡ ([] ++ stream list_heap (λ w. w) opened.buf)
                ++ payload list_heap (λ w. w) small_disk lines))
    × (NeverFails small_disk → opened.buf.err ≡ none → r'.buf.err ≡ none)
write_all-stream_example =
    write_all-stream list_heap (λ w. w) small_disk small_disk-IsWriter lines [] opened
      ((λ w e. cc), ((λ w e. cc), tt)) opened-IsValid
