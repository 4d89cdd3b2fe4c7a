-- ===== src/Worker/StartLimit.antt =====
-- internal/worker/start_limit.go: the limiter of the starts at remote targets. Its gate lets one
-- wait through at a time, so that the waits are a sequence; a wait that is cancelled changes nothing.
pub mod Spaced
use topo.Prelude.{
  ℕ, ◌+◌, ◌-◌, ◌≡◌, Bool, true, false, not, ◌||◌, Option, none, some, List, [], ◌∷◌, leb, ltb,
  if◌then◌else◌,
}

-- remoteStartLimiter
pub record RemoteStartLimiter : Type 0 where
  pub next : ℕ
  pub interval : ℕ

-- A wait: whether it was cancelled before the gate, when it asked for its timer, how late the timer
-- was, whether it was cancelled before or as the timer fired, and how much later the time was read.
pub record Wait : Type 0 where
  pub cancelled_at_gate : Bool
  pub asked_at : ℕ
  pub late : ℕ
  pub cancelled : Bool
  pub read_after : ℕ

-- A timer of the time until `next` fires then, or at once where that is past.
abbrev timer_fires : RemoteStartLimiter → Wait → ℕ
timer_fires l w = w.asked_at + (l.next - w.asked_at) + w.late

-- `wait`: the limiter, and the time of the start it allows.
unfoldable pub wait : RemoteStartLimiter → Wait → RemoteStartLimiter × Option ℕ
wait l w = if w.cancelled_at_gate || w.cancelled then (l, none) else (
  record l { next = timer_fires l w + w.read_after + l.interval },
  some (timer_fires l w + w.read_after),
)

abbrev prepend : Option ℕ → List ℕ → List ℕ
prepend none times = times
prepend (some time) times = time ∷ times

-- The starts that a row of waits allows.
unfoldable pub starts : RemoteStartLimiter → List Wait → List ℕ
unfolding wait
starts l [] = []
starts l (w ∷ waits) = let (t, allowed) = wait l w in prepend allowed (starts t waits)
