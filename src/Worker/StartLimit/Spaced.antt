-- ===== src/Worker/StartLimit/Spaced.antt =====
-- start_limit.go: the starts are spaced.
use topo.Prelude.{ℕ, ◌+◌, ◌≤◌, ◌||◌, List, [], ◌∷◌, arith, Bool-cases, inl, inr}
use topo.Worker.StartLimit.{RemoteStartLimiter, Wait, wait, starts, timer_fires}

-- Each time is at or after the first bound, and at least the interval after the one before.
abbrev pub SpacedFrom : ℕ → ℕ → List ℕ → Type 0
SpacedFrom interval earliest [] = Unit
SpacedFrom interval earliest (time ∷ times) =
    (earliest ≤ time) × SpacedFrom interval (time + interval) times

-- Two starts that the limiter allows are its interval apart, in every row of waits.
pub starts-SpacedFrom :
    (waits : List Wait) (l : RemoteStartLimiter) → SpacedFrom l.interval l.next (starts l waits)
unfolding starts wait
starts-SpacedFrom [] l = tt
starts-SpacedFrom (w ∷ waits) l = elim (Bool-cases (w.cancelled_at_gate || w.cancelled)) [
  | inl t ↦ rw t (starts-SpacedFrom waits l)
  | inr f ↦ rw f (
    ground arith,
    starts-SpacedFrom waits (record l { next = timer_fires l w + w.read_after + l.interval }),
  )
]
