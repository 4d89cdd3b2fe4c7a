-- ===== src/Worker/Lease.antt =====
-- internal/worker/run.go: `maintainLease`, which renews the lease of an attempt until it ends.
pub mod Renewals
use topo.Prelude.{
  ℕ, ◌+◌, ◌-◌, ◌*◌, ◌/◌, ◌≡◌, Bool, true, false, not, ◌&&◌, ◌||◌, Option, none, some, List, [], ◌∷◌,
  leb, ltb, if◌then◌else◌,
}

-- Times and durations are in nanoseconds.
abbrev pub thirty_seconds : ℕ
thirty_seconds = 30000000000

abbrev pub ten_milliseconds : ℕ
ten_milliseconds = 10000000

abbrev capped : ℕ → ℕ
capped delay = if ltb thirty_seconds delay then thirty_seconds else delay

abbrev raised : ℕ → ℕ
raised delay = if ltb delay ten_milliseconds then ten_milliseconds else delay

-- How long the loop waits before it renews a lease with some time remaining.
unfoldable pub renewal_delay : ℕ → ℕ
renewal_delay remaining =
    let delay = raised (capped (remaining / 2)) in
    if leb remaining delay then remaining / 2 else delay

-- RenewResponse
pub record Renewal : Type 0 where
  pub lease_expires_at : ℕ
  pub cancelled : Bool

-- A round of the loop: the time at its start, whether the task was done while it waited, the answer
-- (`none` for an error), whether the task was done then, and the time of the answer.
pub record Round : Type 0 where
  pub now : ℕ
  pub done_waiting : Bool
  pub answer : Option Renewal
  pub done_calling : Bool
  pub answered_at : ℕ

pub data LeaseEnd : Type 0 where
  -- The loop still runs, with the time at which the lease expires.
  held_until : ℕ → LeaseEnd
  stopped lost task_cancelled : LeaseEnd

abbrev after_answer : ℕ → Round → ℕ → Option Renewal → LeaseEnd
after_answer deadline round expires none =
    if round.done_calling then stopped else held_until expires
after_answer deadline round expires (some renewal) =
    if renewal.cancelled
    then task_cancelled
    else if leb renewal.lease_expires_at round.answered_at || ltb deadline renewal.lease_expires_at
    then lost
    else held_until renewal.lease_expires_at

-- One round with a lease that expires at a time.
unfoldable pub lease_round : ℕ → ℕ → Round → LeaseEnd
lease_round deadline expires round =
    if leb expires round.now
    then lost
    else if round.done_waiting
    then stopped
    else after_answer deadline round expires round.answer

-- The loop, for the rounds up to some time.
unfoldable pub maintain_lease : ℕ → LeaseEnd → List Round → LeaseEnd
maintain_lease deadline (held_until expires) (round ∷ rounds) =
    maintain_lease deadline (lease_round deadline expires round) rounds
maintain_lease deadline (held_until expires) [] = held_until expires
maintain_lease deadline stopped rounds = stopped
maintain_lease deadline lost rounds = lost
maintain_lease deadline task_cancelled rounds = task_cancelled

-- Whether `cancelTask` was called.
abbrev pub cancels : LeaseEnd → Bool
cancels lost = true
cancels task_cancelled = true
cancels stopped = false
cancels (held_until expires) = false
