-- ===== src/Logger/Life/Stops.antt =====
-- nanozap.go: the loop once `Close` has cancelled it, and once `Close` has returned.
use nanozap.Base.{ℕ, ◌+◌, ◌≡◌, refl, ap, ◌∙◌, true, some, [], ◌∷◌, arith, if◌then◌else◌}
use nanozap.Base.Int.{ℤ}
use nanozap.Zapcore.Core.{Encoding, WriteSyncer}
use nanozap.Zapcore.Entry.{returns}
use nanozap.Logger.{Logger, write_loop}
use nanozap.Logger.Life.{
  Phase, at_select, in_turn, over, Life, start_loop, cancel, wait, look, turn, Step, cancels, waits,
  looks, turns, logs, Steps, stays, goes, loop_steps,
}

-- How many steps of the loop are left once it is cancelled.
abbrev pub steps_left : Phase → ℕ
steps_left at_select = 1
steps_left in_turn = 2
steps_left over = 0

module _ {E F S : Type 0} (encoding : Encoding E F) (out : WriteSyncer S) where
  -- What a step of a cancelled loop leaves, and what any step leaves of a loop that is over.
  cancelled_stays :
      {l l' : Life E S} → Step encoding out l l' → l.cancelled ≡ true → l'.cancelled ≡ true
  unfolding cancel wait look turn
  cancelled_stays cancels c = refl
  cancelled_stays (waits c' q) c = c
  cancelled_stays (looks q) c = c
  cancelled_stays (turns now log s q e) c = c
  cancelled_stays (logs log old pooled lvl reqid msg e) c = c

  over_stays :
      {l l' : Life E S}
      → Step encoding out l l'
      → l.phase ≡ over
      → (l'.phase ≡ over) × (l'.out ≡ l.out)
  unfolding cancel wait look turn
  over_stays cancels h = (h, refl)
  over_stays (waits c q) h = (h, refl)
  over_stays (looks q) h = cc
  over_stays (turns now log s q e) h = cc
  over_stays (logs log old pooled lvl reqid msg e) h = (h, refl)

  closed_over :
      {l l' : Life E S}
      → Step encoding out l l'
      → (l.closed ≡ true → l.phase ≡ over)
      → l'.closed ≡ true
      → l'.phase ≡ over
  unfolding cancel wait look turn
  closed_over cancels k h = k h
  closed_over (waits c q) k h = q
  closed_over (looks q) k h = let ended = k h in cc
  closed_over (turns now log s q e) k h = let ended = k h in cc
  closed_over (logs log old pooled lvl reqid msg e) k h = k h

  -- Once the loop is over, it stays so and writes nothing.
  over_silent :
      {l l' : Life E S}
      → Steps encoding out l l'
      → l.phase ≡ over
      → (l'.phase ≡ over) × (l'.out ≡ l.out)
  over_silent stays h = (h, refl)
  over_silent (goes st p) h =
      let (h', e) = over_stays st h in let (h'', e') = over_silent p h' in (h'', e' ∙ e)

  closed-Steps :
      {l l' : Life E S}
      → Steps encoding out l l'
      → (l.closed ≡ true → l.phase ≡ over)
      → l'.closed ≡ true
      → l'.phase ≡ over
  closed-Steps stays k = k
  closed-Steps (goes st p) k = closed-Steps p (closed_over st k)

  -- From the start of the loop on: once Close has returned, nothing more is written, whatever is
  -- logged after that and whatever was logged before it.
  pub closed_silent :
      (log : Logger E) (s : S) {l l' : Life E S}
      → Steps encoding out (start_loop encoding out log s) l
      → l.closed ≡ true
      → Steps encoding out l l'
      → l'.out ≡ l.out
  closed_silent log s p c p' = (over_silent p' (closed-Steps p (λ c. cc) c)).1

  -- The steps that the loop has made and those that are left to it are as many.
  loop_steps_lem :
      {l l' : Life E S} (p : Steps encoding out l l')
      → l.cancelled ≡ true
      → loop_steps encoding out p + steps_left l'.phase ≡ steps_left l.phase
  unfolding loop_steps look turn cancel wait
  loop_steps_lem stays c = omega arith
  loop_steps_lem (goes cancels p) c = loop_steps_lem p refl
  loop_steps_lem (goes (waits c' q) p) c = loop_steps_lem p c
  loop_steps_lem (goes (looks q) p) c = omega (
    arith,
    loop_steps_lem p c,
    ap steps_left q,
    ap (λ b. steps_left (if b then over else in_turn)) c,
  )
  loop_steps_lem (goes (turns now log s q e) p) c =
      omega (arith, loop_steps_lem p c, ap steps_left q)
  loop_steps_lem (goes (logs log old pooled lvl reqid msg e) p) c = loop_steps_lem p c

  abbrev CanClose : Life E S → Type 0
  CanClose l = (l' : Life E S) × Steps encoding out l l' × (l'.closed ≡ true)

  when_over : (l : Life E S) → l.cancelled ≡ true → l.phase ≡ over → CanClose l
  unfolding wait
  when_over l c q = (wait encoding out l, goes (waits c q) stays, refl)

  when_at_select : (l : Life E S) → l.cancelled ≡ true → l.phase ≡ at_select → CanClose l
  unfolding look
  when_at_select l c q =
      let (l', p, closed) =
        when_over (look encoding out l) c (ap (λ b. if b then over else in_turn) c) in
      (l', goes (looks q) p, closed)

  when_cancelled :
      (ph : Phase) (l : Life E S) (now : ℤ) (log : Logger E) (s : S)
      → l.phase ≡ ph
      → l.cancelled ≡ true
      → write_loop encoding out (now ∷ []) l.log l.out ≡ some (returns, log, s)
      → CanClose l
  unfolding turn
  when_cancelled at_select l now log s q c e = when_at_select l c q
  when_cancelled over l now log s q c e = when_over l c q
  when_cancelled in_turn l now log s q c e =
      let (l', p, closed) = when_at_select (turn encoding out log s l) c refl in
      (l', goes (turns now log s q e) p, closed)

  -- Once Close has cancelled the context, and if a turn of the loop on what is in the ring does not
  -- end the program, the loop can come to its end and Close return. Whatever the callers do in
  -- between, the loop makes one step more if it stands before its select, two if it is in a turn,
  -- and none if it is over, so it writes at most one message more.
  pub close_ends :
      (l : Life E S) (now : ℤ) (log : Logger E) (s : S)
      → l.cancelled ≡ true
      → write_loop encoding out (now ∷ []) l.log l.out ≡ some (returns, log, s)
      → ((l' : Life E S) × Steps encoding out l l' × (l'.closed ≡ true))
        × ((l' : Life E S) (p : Steps encoding out l l')
            → loop_steps encoding out p + steps_left l'.phase ≡ steps_left l.phase)
  close_ends l now log s c e =
      (when_cancelled l.phase l now log s refl c e, λ l' p. loop_steps_lem p c)
