-- ===== src/Zapcore/Encoder/Standard/Truncate.antt =====
-- zapcore/encoder.go: how far the time that an encoder prints lies from the time it is given.
use nanozap.Base.{
  ℕ, ◌+◌, ◌*◌, ◌<◌, ◌≤◌, ◌≡◌, refl, false, List, [], ◌∷◌, arith, if◌then◌else◌, Bool-cases, inl,
  inr,
}
use nanozap.Base.Int.{ℤ, pos, negsuc, pos_part, neg_part}
use nanozap.Base.Bytes.{bytes}
use nanozap.Zapcore.Level.{one_of}
use nanozap.Zapcore.Encoder.{Externals, bits64, int_value}
use nanozap.Zapcore.Encoder.Standard.{quot, millisecond, second, Printing, time_encoder}

-- q is ns in units of u, with what is less than a unit cut off towards zero.
abbrev pub Truncates : ℤ → ℤ → ℕ → Type 0
Truncates q ns u =
    (pos_part q * u ≤ pos_part ns)
    × (neg_part q * u ≤ neg_part ns)
    × (pos_part ns + neg_part ns < (pos_part q + neg_part q) * u + u)

-- The unit that the name of an encoder asks for.
abbrev pub unit_named : List ℕ → ℕ
unit_named text =
    if one_of text (bytes "millis" ∷ [])
    then millisecond
    else if one_of text (bytes "nanos" ∷ [])
    then 1
    else second

quot-second : (ns : ℤ) → Truncates (quot ns second) ns second
unfolding quot
quot-second (pos n) = (omega arith, omega arith, omega arith)
quot-second (negsuc n) = ground arith

quot-millisecond : (ns : ℤ) → Truncates (quot ns millisecond) ns millisecond
unfolding quot
quot-millisecond (pos n) = (omega arith, omega arith, omega arith)
quot-millisecond (negsuc n) = ground arith

whole : (ns : ℤ) → Truncates ns ns 1
whole (pos n) = (omega arith, omega arith, omega arith)
whole (negsuc n) = (omega arith, omega arith, omega arith)

-- The time encoder chosen by a name other than those of ISO 8601 prints one integer: the time in
-- the unit that the name asks for, seconds where it is unknown, cut off towards zero, also before
-- the epoch.
pub time_encoder-Truncates :
    (ex : Externals) (pr : Printing ex) (text : List ℕ) (ns : ℤ)
    → one_of text (bytes "iso8601" ∷ bytes "ISO8601" ∷ []) ≡ false
    → (q : ℤ) × (time_encoder ex pr text ns ≡ int_value bits64 q ∷ [])
      × Truncates q ns (unit_named text)
unfolding time_encoder
time_encoder-Truncates ex pr text ns other = elim (Bool-cases (one_of text (bytes "millis" ∷ []))) [
  | inl e ↦ rw (other, e) (quot ns millisecond, refl, quot-millisecond ns)
  | inr e ↦ elim (Bool-cases (one_of text (bytes "nanos" ∷ []))) [
    | inl e' ↦ rw (other, e, e') (ns, refl, whole ns)
    | inr e' ↦ rw (other, e, e') (quot ns second, refl, quot-second ns)
  ]
]
