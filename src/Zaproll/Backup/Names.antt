-- ===== src/Zaproll/Backup/Names.antt =====
-- zaproll/backup.go: the names of backups, as `makeBackupFP` makes and `parseTime` reads them.
use nanozap.Base.{
  ℕ, ◌+◌, ◌-◌, ◌<◌, ◌≡◌, ap, sym, ◌∙◌, some, List, [], ◌∷◌, ◌++◌, arith, append_assoc, true, length,
  take, length-append, take-append_self, drop-append_self, lt→leb, le→leb,
}
use nanozap.Base.Int.{ℤ}
use nanozap.Base.Bytes.{has_prefix, has_suffix, has_prefix-append, has_suffix-append}
use nanozap.Zaproll.Backup.{
  Stamps, ok, panic, ext, get_prefix_and_ext, slice, parse_time, backup_name,
}

-- Between a prefix and a suffix stands what was put there.
slice_between :
    (p m e : List ℕ) → slice (p ++ (m ++ e)) (length p) (length (p ++ (m ++ e)) - length e) ≡ ok m
unfolding slice
slice_between p m e =
    let total : length (p ++ (m ++ e)) ≡ length p + (length m + length e) =
      length-append p (m ++ e) ∙ omega (arith, length-append m e) in
    let stop : length (p ++ (m ++ e)) - length e ≡ length p + length m = omega arith in
    let width : length p + length m - length p ≡ length m = omega arith in
    rw (
      stop,
      le→leb (length p) (length p + length m) (omega arith),
      total,
      le→leb (length p + length m) (length p + (length m + length e)) (omega arith),
      width,
      drop-append_self p (m ++ e),
      take-append_self m e,
    )

ends_with : (p m e : List ℕ) → has_suffix (p ++ (m ++ e)) e ≡ true
ends_with p m e = ap (λ s. has_suffix s e) (sym (append_assoc p m e)) ∙ has_suffix-append (p ++ m) e

parse_time-between :
    (parse : Stamps) (p m e : List ℕ) (t : ℤ)
    → parse m ≡ some t
    → parse_time parse (p ++ (m ++ e)) p e ≡ ok t
unfolding parse_time
parse_time-between parse p m e t h =
    rw (has_prefix-append p (m ++ e)) (rw (ends_with p m e) (rw (slice_between p m e) (rw h)))

-- The name that a backup is given is read back as its time, under the prefix and the extension of
-- the same log file, if the time's text is read back.
pub parse_time-backup_name :
    (parse : Stamps) (name stamp : List ℕ) (t : ℤ)
    → parse stamp ≡ some t
    → let (p, e) = get_prefix_and_ext name in parse_time parse (backup_name name stamp) p e ≡ ok t
unfolding backup_name get_prefix_and_ext
parse_time-backup_name parse name stamp t h =
    let e = ext name in
    parse_time-between parse (take (length name - length e) name ++ b'-' ∷ []) stamp e t h

slice-crossed : (s : List ℕ) (i j : ℕ) → j < i → slice s i j ≡ panic
unfolding slice
slice-crossed s i j h = rw (lt→leb i j h)

-- A file whose name has the prefix and the extension, one running into the other, makes `parseTime`
-- panic: it passes both tests, and the slice between them has its ends the wrong way round.
pub parse_time-panic :
    (parse : Stamps) (a o b : List ℕ)
    → 0 < length o
    → parse_time parse (a ++ (o ++ b)) (a ++ o) (o ++ b) ≡ panic
unfolding parse_time
parse_time-panic parse a o b h =
    let starts : has_prefix (a ++ (o ++ b)) (a ++ o) ≡ true =
      ap (λ s. has_prefix s (a ++ o)) (sym (append_assoc a o b)) ∙ has_prefix-append (a ++ o) b in
    let total : length (a ++ (o ++ b)) ≡ length a + (length o + length b) =
      length-append a (o ++ b) ∙ omega (arith, length-append o b) in
    let back : length (a ++ (o ++ b)) - length (o ++ b) ≡ length a =
      omega (arith, total, length-append o b) in
    rw starts (
      rw (has_suffix-append a (o ++ b)) (
        rw (
          slice-crossed (a ++ (o ++ b)) (length (a ++ o)) (length (a ++ (o ++ b)) - length (o ++ b))
            (omega (arith, back, length-append a o)))))
