-- ===== src/Zapcore/WriteSyncer/Least.antt =====
-- zapcore/write_syncer.go: what a multi writer reports of its outputs.
use nanozap.Base.{
  ℕ, ◌==◌, Bool, true, false, Bool-cases, inl, inr, ◌≡◌, ◌∙◌, refl, ap, sym, ltb, List, [], ◌∷◌,
  arith, if◌then◌else◌,
}
use nanozap.Zapcore.WriteSyncer.{
  Outputs, WriteSyncers, none_left, and_then, new_multi_write_syncer, write, write_each, count_next,
}

-- The smallest of some counts, 0 of none.
abbrev pub smallest : ℕ → List ℕ → ℕ
smallest n [] = n
smallest n (m ∷ ms) = smallest (if ltb m n then m else n) ms

abbrev pub smallest_of : List ℕ → ℕ
smallest_of [] = 0
smallest_of (n ∷ ns) = smallest n ns

abbrev pub has_zero : List ℕ → Bool
has_zero [] = false
has_zero (n ∷ ns) = if n == 0 then true else has_zero ns

-- The counts behind the last 0, all of them where there is no 0.
abbrev pub behind_zero : List ℕ → List ℕ
behind_zero [] = []
behind_zero (n ∷ ns) =
    let rest = behind_zero ns in if has_zero ns then rest else if n == 0 then ns else n ∷ ns

-- The count that the loop keeps, from `n` on.
abbrev kept : ℕ → List ℕ → ℕ
kept n [] = n
kept n (m ∷ ms) = kept (count_next n m) ms

behind_zero_single : (n : ℕ) → smallest_of (behind_zero (n ∷ [])) ≡ n
behind_zero_single n = ground arith

kept_step :
    (n m : ℕ) (ms : List ℕ)
    → smallest_of (behind_zero (count_next n m ∷ ms)) ≡ smallest_of (behind_zero (n ∷ m ∷ ms))
kept_step n m ms = elim (Bool-cases (has_zero ms)) [
  | inl e ↦ rw e (ground arith)
  | inr e ↦ rw e (ground arith)
]

kept-smallest_of : (n : ℕ) (ms : List ℕ) → kept n ms ≡ smallest_of (behind_zero (n ∷ ms))
kept-smallest_of n [] = sym (behind_zero_single n)
kept-smallest_of n (m ∷ ms) = kept-smallest_of (count_next n m) ms ∙ kept_step n m ms

behind_zero_first : (ns : List ℕ) → behind_zero (0 ∷ ns) ≡ behind_zero ns
behind_zero_first [] = refl
behind_zero_first (n ∷ ns) = ground arith

module _ {S Err : Type 0} (os : Outputs S Err) (p : List ℕ) where
  -- What the outputs report one by one when each is written to, in order, whatever the others did,
  -- and the state they leave.
  unfoldable pub reports : WriteSyncers → S → List (ℕ × Err) × S
  reports none_left s = ([], s)
  reports (and_then w ws) s =
      let (n, err, s₁) = write os w p s in let (rs, s₂) = reports ws s₁ in ((n, err) ∷ rs, s₂)

  abbrev pub counts : List (ℕ × Err) → List ℕ
  counts [] = []
  counts (r ∷ rs) = r.0 ∷ counts rs

  abbrev pub joined : Err → List (ℕ × Err) → Err
  joined err [] = err
  joined err (r ∷ rs) = joined (os.append err r.1) rs

  write_each-reports :
      (ws : WriteSyncers) (n : ℕ) (err : Err) (s : S)
      → ◌≡◌ {A = ℕ × Err × S}
          (write_each os ws n err p s)
          (kept n (counts (reports ws s).0), joined err (reports ws s).0, (reports ws s).1)
  unfolding reports write_each
  write_each-reports none_left n err s = refl
  write_each-reports (and_then w ws) n err s =
      let (m, e, s₁) = write os w p s in write_each-reports ws (count_next n m) (os.append err e) s₁

  write_each-behind_zero :
      (ws : WriteSyncers) (err : Err) (s : S)
      → ◌≡◌ {A = ℕ × Err × S} (write_each os ws 0 err p s) (
        smallest_of (behind_zero (counts (reports ws s).0)),
        joined err (reports ws s).0,
        (reports ws s).1,
      )
  write_each-behind_zero ws err s =
      let cs = counts (reports ws s).0 in
      write_each-reports ws 0 err s
      ∙ ap (λ n. (n, joined err (reports ws s).0, (reports ws s).1))
          (kept-smallest_of 0 cs ∙ ap smallest_of (behind_zero_first cs))

  -- A multi writer writes to every output in order, whether or not one failed, and joins their
  -- errors. The count it returns is the smallest of those behind the last output that reported 0,
  -- thus the smallest of all where none reported 0, and 0 where the last one did or there is none.
  -- An error joined to none is that error.
  pub write-new_multi_write_syncer :
      ((err : Err) → os.append os.no_error err ≡ err)
      → (ws : WriteSyncers) (s : S)
      → ◌≡◌ {A = ℕ × Err × S} (write os (new_multi_write_syncer ws) p s) (
        smallest_of (behind_zero (counts (reports ws s).0)),
        joined os.no_error (reports ws s).0,
        (reports ws s).1,
      )
  unfolding reports write new_multi_write_syncer
  write-new_multi_write_syncer left none_left s = write_each-behind_zero none_left os.no_error s
  write-new_multi_write_syncer left (and_then w none_left) s =
      let (n, err, s₁) = write os w p s in
      rw (behind_zero_single n) (ap (λ e. (n, e, s₁)) (sym (left err)))
  write-new_multi_write_syncer left (and_then w (and_then v ws)) s =
      write_each-behind_zero (and_then w (and_then v ws)) os.no_error s
