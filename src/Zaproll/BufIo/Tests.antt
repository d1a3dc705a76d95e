-- ===== src/Zaproll/BufIo/Tests.antt =====
-- The write buffer over a device that holds six bytes.
use nanozap.Base.{
  ℕ, ◌-◌, ◌≤◌, ◌≡◌, refl, Option, none, some, List, [], ◌∷◌, ◌++◌, arith, ltb, if◌then◌else◌,
  length, take,
}
use Prim.Native.Nat.{min}
use nanozap.Zaproll.BufIo.{
  BufIo, Error, write_error, Writer, IsWriter, new_buf_io, fill, flush_error, keep_rest,
  flush_buffered, flush, write_loop, finish, write,
}
use nanozap.Zaproll.BufIo.Bytes.{copy_at}
use nanozap.Zaproll.BufIo.Flush.{Continues, flush_lem}
use nanozap.Zaproll.BufIo.Write.{Writes, write_lem, write-sticky}

abbrev pub room : List ℕ → ℕ
room w = 6 - length w

abbrev pub small_disk : Writer (List ℕ)
small_disk w p = (
  min (room w) (length p),
  if ltb (room w) (length p) then some (write_error 28) else none,
  w ++ take (min (room w) (length p)) p,
)

pub small_disk-IsWriter : IsWriter small_disk (λ w. w)
small_disk-IsWriter = record {
  bounded = λ w p. omega arith;
  complete = λ w p h. ground arith;
  appended = λ w p. refl;
}

abbrev empty : BufIo (List ℕ)
empty = new_buf_io [] 4

abbrev pub half_full : BufIo (List ℕ)
half_full = record { err = none; buf = 1 ∷ 2 ∷ 0 ∷ 0 ∷ []; n = 2; w = [] }

abbrev pub broken : BufIo (List ℕ)
broken = record half_full { err = some (write_error 28) }

-- Five bytes into a buffer of four that holds two: one flush, and three bytes stay.
write_once :
    write small_disk (3 ∷ 4 ∷ 5 ∷ 6 ∷ 7 ∷ []) half_full
    ≡ some (
      (5, 4, none),
      record { err = none; buf = 5 ∷ 6 ∷ 7 ∷ 4 ∷ []; n = 3; w = 1 ∷ 2 ∷ 3 ∷ 4 ∷ [] },
    )
unfolding write write_loop finish fill flush flush_buffered flush_error keep_rest copy_at
write_once = refl

-- A flush that the device takes in part keeps the rest at the front.
flush_in_part : flush small_disk (record half_full { w = 9 ∷ 9 ∷ 9 ∷ 9 ∷ 9 ∷ [] }) ≡ (
  1,
  some (write_error 28),
  record {
    err = some (write_error 28);
    buf = 2 ∷ 2 ∷ 0 ∷ 0 ∷ [];
    n = 1;
    w = 9 ∷ 9 ∷ 9 ∷ 9 ∷ 9 ∷ 1 ∷ [];
  },
)
unfolding flush flush_buffered flush_error keep_rest copy_at
flush_in_part = refl

write_lem_example :
    (res : (ℕ × ℕ × Option Error) × BufIo (List ℕ)) × (write small_disk
        (3 ∷ 4 ∷ 5 ∷ 6 ∷ 7 ∷ [])
        half_full
      ≡ some res)
    × Writes small_disk (λ w. w) small_disk-IsWriter half_full (3 ∷ 4 ∷ 5 ∷ 6 ∷ 7 ∷ []) res
write_lem_example =
    write_lem small_disk (λ w. w) small_disk-IsWriter half_full (3 ∷ 4 ∷ 5 ∷ 6 ∷ 7 ∷ [])
      (omega arith)

flush_lem_example :
    let (f, e, b') = flush small_disk half_full in
    Continues (λ w. w) half_full b' [] f × (b'.err ≡ e) × (e ≡ none → b'.n ≡ 0) × (f ≤ 2)
flush_lem_example = flush_lem small_disk (λ w. w) small_disk-IsWriter half_full (omega arith)

write_failed : write small_disk (3 ∷ []) broken ≡ some ((0, 0, some (write_error 28)), broken)
write_failed =
    write-sticky small_disk (λ w. w) small_disk-IsWriter broken (3 ∷ []) (write_error 28) refl
