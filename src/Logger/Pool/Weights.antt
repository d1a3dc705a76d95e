-- ===== src/Logger/Pool/Weights.antt =====
-- How often a message stands in a list, as a weight.
use nanozap.Base.{
  ℕ, zero, suc, ◌+◌, ◌<◌, ◌≤◌, ◌≡◌, refl, ap, ◌==◌, ltb, if◌then◌else◌, List, [], ◌∷◌, ◌++◌, arith,
}
use nanozap.RandRing.Conserve.{weigh}

pub weigh-split :
    (w : ℕ → ℕ) (before : List ℕ) (b : ℕ) (after : List ℕ)
    → weigh w (before ++ b ∷ after) ≡ w b + weigh w (before ++ after)
weigh-split w [] b after = refl
weigh-split w (x ∷ before) b after = omega (arith, weigh-split w before b after)

-- All messages there are.
abbrev pub weigh_ids : (ℕ → ℕ) → ℕ → ℕ
weigh_ids w zero = 0
weigh_ids w (suc k) = w k + weigh_ids w k

-- At this weight, the weight of a place is the number of times that the message is there.
abbrev pub one : ℕ → ℕ → ℕ
one b x = if x == b then 1 else 0

one_of_ids : (b k : ℕ) → weigh_ids (one b) k ≡ (if ltb b k then 1 else 0)
one_of_ids b zero = ground arith
one_of_ids b (suc k) = ground (arith, one_of_ids b k)

pub at_most_one : (b k : ℕ) → weigh_ids (one b) k ≤ 1
at_most_one b k = ground (arith, one_of_ids b k)

pub none_yet : (k : ℕ) → weigh_ids (one k) k ≡ 0
none_yet k = ground (arith, one_of_ids k k)

here : (b : ℕ) → one b b ≡ 1
here b = ground arith

-- What was found in a list weighs something there.
pub found :
    (b : ℕ) (before after : List ℕ) (xs : List ℕ) → xs ≡ before ++ b ∷ after → 0 < weigh (one b) xs
found b before after xs e =
    omega (arith, ap (weigh (one b)) e, weigh-split (one b) before b after, here b)
