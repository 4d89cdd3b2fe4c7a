-- ===== src/Worker/Lease/Renewals.antt =====
-- run.go: a lease is renewed before it expires, and never held beyond the deadline of its task.
use topo.Prelude.{ℕ, ◌+◌, ◌-◌, subst, ◌≤◌, ◌<◌, ◌≡◌, true, ◌||◌, List, [], ◌∷◌, leb, ltb, arith}
use topo.Worker.Lease.{
  thirty_seconds, ten_milliseconds, renewal_delay, Round, LeaseEnd, held_until, stopped, lost,
  task_cancelled, lease_round, maintain_lease,
}

renewal_delay-bounds :
    (remaining : ℕ)
    → 0 < remaining
    → (renewal_delay remaining < remaining)
      × (renewal_delay remaining ≤ thirty_seconds)
      × ((ltb remaining (ten_milliseconds + ten_milliseconds)
            || leb ten_milliseconds (renewal_delay remaining))
          ≡ true)
unfolding renewal_delay
renewal_delay-bounds remaining h = (ground arith, ground arith, ground arith)

-- What holds of a lease while the loop runs, and when it ends.
abbrev Within : ℕ → LeaseEnd → Type 0
Within deadline (held_until expires) = expires ≤ deadline
Within deadline stopped = Unit
Within deadline lost = Unit
Within deadline task_cancelled = Unit

lease_round-Within :
    (deadline expires : ℕ) (round : Round)
    → expires ≤ deadline
    → Within deadline (lease_round deadline expires round)
unfolding lease_round
lease_round-Within deadline expires round h = ground arith

maintain_lease-Within :
    (deadline : ℕ) (rounds : List Round) (state : LeaseEnd)
    → Within deadline state
    → Within deadline (maintain_lease deadline state rounds)
unfolding maintain_lease
maintain_lease-Within deadline [] (held_until expires) h = h
maintain_lease-Within deadline (round ∷ rounds) (held_until expires) h =
    maintain_lease-Within deadline rounds _ (lease_round-Within deadline expires round h)
maintain_lease-Within deadline rounds stopped h = tt
maintain_lease-Within deadline rounds lost h = tt
maintain_lease-Within deadline rounds task_cancelled h = tt

-- However the renewals are answered, while the loop holds a lease that has not expired, its next
-- renewal is before the lease expires and before the deadline of the task, at most 30 seconds from
-- now, and not within 10 milliseconds unless less than 20 milliseconds remain.
pub maintain_lease-renews :
    (deadline start expires now : ℕ) (rounds : List Round)
    → start ≤ deadline
    → maintain_lease deadline (held_until start) rounds ≡ held_until expires
    → now < expires
    → (now + renewal_delay (expires - now) < expires)
      × (expires ≤ deadline)
      × (renewal_delay (expires - now) ≤ thirty_seconds)
      × ((ltb (expires - now) (ten_milliseconds + ten_milliseconds)
            || leb ten_milliseconds (renewal_delay (expires - now)))
          ≡ true)
maintain_lease-renews deadline start expires now rounds h held early =
    let (soon, bounded, spaced) = renewal_delay-bounds (expires - now) (ground arith) in
    let within =
      subst (Within deadline) held (maintain_lease-Within deadline rounds (held_until start) h) in
    (ground (arith, soon), within, bounded, spaced)
