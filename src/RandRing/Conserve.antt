-- ===== src/RandRing/Conserve.antt =====
-- randring.go: where the items of a run of calls are. Items are counted by a weight: at the weight
-- that is 1 on one item and 0 elsewhere, it is the number of times that this item occurs.
use nanozap.Base.{
  ℕ, zero, suc, ◌+◌, ◌<◌, ◌≡◌, refl, Option, none, some, List, [], ◌∷◌, arith, leb, inl, inr,
  length, get_or, set, Bool-cases, Option-cases,
}
use nanozap.RandRing.{
  Ring, Op, put, get, Run, try_pop, take_next, reload, read_slot, write_slot, step, run, cons_some,
}
use nanozap.RandRing.Valid.{
  IsValid, reload-IsValid, slot_lt, pushed, push_lem, pushed-IsValid, next_item, taken,
  taken-IsValid, take_next-none, take_next-some,
}

-- What `TryPop` may do: nothing but reload its cache, or take the item of the reader's bucket.
pub data Outcome {ℓ} {A : Type ℓ} (r : Ring A) (out : Option A) (r' : Ring A) : Type ℓ where
  nothing :
      out ≡ none
      → r'.buckets ≡ r.buckets
      → r'.read_index ≡ r.read_index
      → r'.write_index ≡ r.write_index
      → Outcome r out r'
  took :
      (x : A)
      → next_item r ≡ some x
      → out ≡ some x
      → r'.buckets ≡ set r.buckets (read_slot r) none
      → r'.read_index ≡ (taken r).read_index
      → r'.write_index ≡ r.write_index
      → Outcome r out r'

module _ {ℓ} {A : Type ℓ} where
  abbrev Ends : ℕ → Ring A → Option (Option A × Ring A) → Type ℓ
  Ends n r res =
      (out : Option A) × (r' : Ring A) × (res ≡ some (out, r')) × IsValid n r' × Outcome r out r'

  take_next-Ends : {n : ℕ} {r : Ring A} → IsValid n r → Ends n r (take_next r)
  take_next-Ends {n} {r} v = elim (Option-cases (next_item r)) [
    | inl e ↦ (none, r, take_next-none v e, v, nothing refl refl refl refl)
    | inr (x, e) ↦
        (some x, taken r, take_next-some x v e, taken-IsValid v, took x e refl refl refl refl)
  ]

  reload-Ends :
      {n : ℕ} {r : Ring A} {res : Option (Option A × Ring A)} → Ends n (reload r) res → Ends n r res
  reload-Ends (out, r', e, v, nothing a b c d) = (out, r', e, v, nothing a b c d)
  reload-Ends (out, r', e, v, took x a b c d f) = (out, r', e, v, took x a b c d f)

  -- `TryPop` never panics on a valid ring; it keeps it valid, and changes no bucket but the one
  -- whose item it hands out.
  pub try_pop-Ends :
      {n : ℕ} {r : Ring A}
      → IsValid n r
      → (out : Option A) × (r' : Ring A) × (try_pop r ≡ some (out, r'))
        × IsValid n r'
        × Outcome r out r'
  unfolding try_pop
  try_pop-Ends {n} {r} v = elim (Bool-cases (leb r.write_index_cache r.read_index)) [
    | inr e ↦ rw e (take_next-Ends v)
    | inl e ↦ elim (Bool-cases (leb r.write_index r.read_index)) [
      | inl f ↦ rw (e, f) (none, reload r, refl, reload-IsValid v, nothing refl refl refl refl)
      | inr f ↦ rw (e, f) (reload-Ends (take_next-Ends (reload-IsValid v)))
    ]
  ]

  module _ (w : A → ℕ) where
    abbrev pub weigh_option : Option A → ℕ
    weigh_option none = 0
    weigh_option (some x) = w x

    abbrev pub weigh : List A → ℕ
    weigh [] = 0
    weigh (x ∷ xs) = w x + weigh xs

    abbrev pub weigh_buckets : List (Option A) → ℕ
    weigh_buckets [] = 0
    weigh_buckets (o ∷ xs) = weigh_option o + weigh_buckets xs

    -- Every item that a run holds, wherever it is.
    abbrev pub weigh_run : Run A → ℕ
    weigh_run s = weigh_buckets s.ring.buckets + weigh s.popped + weigh s.freed

    abbrev pub weigh_puts : List (Op A) → ℕ
    weigh_puts [] = 0
    weigh_puts (put x ∷ ops) = w x + weigh_puts ops
    weigh_puts (get ∷ ops) = weigh_puts ops

    weigh-cons_some :
        (o : Option A) (xs : List A) → weigh (cons_some o xs) ≡ weigh_option o + weigh xs
    weigh-cons_some none xs = omega arith
    weigh-cons_some (some x) xs = refl

    pub weigh-set :
        (xs : List (Option A)) (i : ℕ) (o : Option A)
        → i < length xs
        → weigh_buckets (set xs i o) + weigh_option (get_or xs i none)
          ≡ weigh_buckets xs + weigh_option o
    weigh-set [] i o h = absurd (omega arith)
    weigh-set (x ∷ xs) zero o h = omega arith
    weigh-set (x ∷ xs) (suc i) o h = omega (arith, weigh-set xs i o (omega arith))

  -- A step from a valid ring.
  abbrev Steps : ℕ → Run A → Op A → Type ℓ
  Steps n s op =
      (s' : Run A) × (step op s ≡ some s')
      × IsValid n s'.ring
      × ((w : A → ℕ) → weigh_run w s' ≡ weigh_puts w (op ∷ []) + weigh_run w s)

  put-Steps : {n : ℕ} (x : A) (s : Run A) → IsValid n s.ring → Steps n s (put x)
  unfolding step
  put-Steps x s v =
      let old = get_or s.ring.buckets (write_slot s.ring) none in
      (
        record s { ring = pushed x s.ring; freed = cons_some old s.freed },
        rw (push_lem x v, step),
        pushed-IsValid x v,
        λ w. omega (
          arith,
          weigh-cons_some w old s.freed,
          weigh-set w s.ring.buckets (write_slot s.ring) (some x) (slot_lt _ v),
        ),
      )

  get-weight :
      {n : ℕ} (s : Run A) (out : Option A) (r' : Ring A)
      → IsValid n s.ring
      → Outcome s.ring out r'
      → (w : A → ℕ)
      → weigh_run w (record s { ring = r'; popped = cons_some out s.popped }) ≡ weigh_run w s
  get-weight s out r' v (nothing e f _ _) w = rw (e, f)
  get-weight s out r' v (took x e f g _ _) w =
      rw (f, g)
        (ground (arith, e, weigh-set w s.ring.buckets (read_slot s.ring) none (slot_lt _ v)))

  get-Steps : {n : ℕ} (s : Run A) → IsValid n s.ring → Steps n s get
  unfolding step
  get-Steps s v =
      let (out, r', e, v', how) = try_pop-Ends v in
      (
        record s { ring = r'; popped = cons_some out s.popped },
        rw (e, step),
        v',
        λ w. omega (arith, get-weight s out r' v how w),
      )

  step-Steps : {n : ℕ} (op : Op A) (s : Run A) → IsValid n s.ring → Steps n s op
  step-Steps (put x) s v = put-Steps x s v
  step-Steps get s v = get-Steps s v

  weigh_puts-cons :
      (w : A → ℕ) (op : Op A) (ops : List (Op A))
      → weigh_puts w (op ∷ ops) ≡ weigh_puts w (op ∷ []) + weigh_puts w ops
  weigh_puts-cons w (put x) ops = omega arith
  weigh_puts-cons w get ops = omega arith

  -- Any sequence of calls on a valid ring runs to its end without a panic and leaves a valid ring.
  -- For every weight of the items, what is then in the buckets, with the consumer and freed weighs
  -- as much as what was there before and what the calls pushed.
  pub run_conserves :
      {n : ℕ} (ops : List (Op A)) (s : Run A)
      → IsValid n s.ring
      → (s' : Run A) × (run ops s ≡ some s')
        × IsValid n s'.ring
        × ((w : A → ℕ) → weigh_run w s' ≡ weigh_puts w ops + weigh_run w s)
  unfolding run
  run_conserves [] s v = (s, refl, v, λ w. omega arith)
  run_conserves (op ∷ ops) s v =
      let (s₁, e₁, v₁, h₁) = step-Steps op s v in
      let (s₂, e₂, v₂, h₂) = run_conserves ops s₁ v₁ in
      (s₂, rw (e₁, run) e₂, v₂, λ w. omega (arith, h₁ w, h₂ w, weigh_puts-cons w op ops))
