-- ===== src/Logger/Pool.antt =====
-- bodypool.go: the pool of messages, and the goroutines that share them through the ring. A message
-- is a number, its fields are in a heap; `sync.Pool` may hand out any message that was put back, or
-- a new one, and may drop those it holds.
pub mod Weights
pub mod Owned
mod Tests
use nanozap.Base.{ℕ, suc, ◌≡◌, ◌==◌, if◌then◌else◌, List, [], ◌∷◌, ◌++◌}
use nanozap.RandRing.{Ring}
use nanozap.RandRing.Interleave.{System, idle, ready, start, claim, store, check_guard, take_bucket}
use nanozap.Zapcore.Level.{info_level}
use nanozap.Logger.{LogBody, reset}

-- `New` of the pool
abbrev pub new_body : LogBody
new_body = record { lvl = info_level; msg = []; reqid = 0 }

abbrev pub update : ℕ → LogBody → (ℕ → LogBody) → ℕ → LogBody
update b lb heap i = if i == b then lb else heap i

-- The ring with the messages that goroutines are storing, have taken or pushed out; the heap; what
-- the pool holds; the messages that were got and are not pushed yet; how many there are; and what
-- was in a message when it was last pushed.
pub record Bodies : Type 0 where
  pub system : System ℕ
  pub heap : ℕ → LogBody
  pub pool : List ℕ
  pub held : List ℕ
  pub next : ℕ
  pub sent : ℕ → LogBody

-- `get`, where the pool calls `New`
unfoldable pub get_new : Bodies → Bodies
get_new s = record s {
  heap = update s.next (reset new_body) s.heap;
  held = s.next ∷ s.held;
  next = suc s.next;
}

-- `get` of a message that was put back; the others stay.
unfoldable pub get_pooled : ℕ → List ℕ → Bodies → Bodies
get_pooled b rest s = record s {
  heap = update b (reset (s.heap b)) s.heap;
  pool = rest;
  held = b ∷ s.held;
}

-- A caller sets the fields of the message it has got.
unfoldable pub fill : ℕ → LogBody → Bodies → Bodies
fill b lb s = record s { heap = update b lb s.heap }

-- `log.ring.Push` up to its claim of an index
unfoldable pub push : ℕ → List ℕ → Bodies → Bodies
push b rest s = record s {
  system = claim b s.system;
  held = rest;
  sent = update b (s.heap b) s.sent;
}

abbrev pub on_system : (System ℕ → System ℕ) → Bodies → Bodies
on_system f s = record s { system = f s.system }

abbrev pub put : ℕ → Bodies → Bodies
put b s = record s { pool = b ∷ s.pool }

-- `free` of a message that `Push` has pushed out
unfoldable pub free_old : ℕ → List ℕ → Bodies → Bodies
free_old b rest s = put b (record s { system = record (s.system) { freed = rest } })

-- `lb.free` of `writeLoop`
unfoldable pub free_written : ℕ → List ℕ → Bodies → Bodies
free_written b rest s = put b (record s { system = record (s.system) { popped = rest } })

-- `sync.Pool` drops a message.
unfoldable pub drop_pooled : List ℕ → Bodies → Bodies
drop_pooled rest s = record s { pool = rest }

pub data Move (s : Bodies) : Bodies → Type 0 where
  gets_new : Move s (get_new s)
  gets_pooled :
      (b : ℕ) (before after : List ℕ)
      → s.pool ≡ before ++ b ∷ after
      → Move s (get_pooled b (before ++ after) s)
  drops :
      (b : ℕ) (before after : List ℕ)
      → s.pool ≡ before ++ b ∷ after
      → Move s (drop_pooled (before ++ after) s)
  fills :
      (b : ℕ) (lb : LogBody) (before after : List ℕ)
      → s.held ≡ before ++ b ∷ after
      → Move s (fill b lb s)
  pushes :
      (b : ℕ) (before after : List ℕ)
      → s.held ≡ before ++ b ∷ after
      → Move s (push b (before ++ after) s)
  stores :
      (i b : ℕ) (before after : List (ℕ × ℕ))
      → s.system.pending ≡ before ++ (i, b) ∷ after
      → Move s (on_system (store i b (before ++ after)) s)
  frees_old :
      (b : ℕ) (before after : List ℕ)
      → s.system.freed ≡ before ++ b ∷ after
      → Move s (free_old b (before ++ after) s)
  checks : s.system.consumer ≡ idle → Move s (on_system check_guard s)
  takes : s.system.consumer ≡ ready → Move s (on_system take_bucket s)
  frees_written :
      (b : ℕ) (before after : List ℕ)
      → s.system.popped ≡ before ++ b ∷ after
      → Move s (free_written b (before ++ after) s)

abbrev pub start_bodies : Ring ℕ → Bodies
start_bodies r = record {
  system = start r;
  heap = λ b. new_body;
  pool = [];
  held = [];
  next = 0;
  sent = λ b. new_body;
}

pub data Reach (r : Ring ℕ) : Bodies → Type 0 where
  begins : Reach r (start_bodies r)
  later : {s t : Bodies} → Reach r s → Move s t → Reach r t
