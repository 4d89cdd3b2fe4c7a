-- ===== src/Relay/Cycle/Retained.antt =====
-- run.go: no delivery is lost.
use topo.Prelude.{
  ◌≡◌, ◌⊎◌, refl, Bool, true, false, String, str_eq, eq_iff, Option, none, some, List, [], ◌∷◌,
  lookup, inl, inr, Bool-cases, ◌∙◌, subst, sym,
}
use topo.Relay.Spool.{PendingDelivery, SpoolText, pending_names}
use topo.Relay.Cycle.{Outside, Relay, called, drain_one, drain_entries, drain}
use topo.Relay.Cycle.Steps.{RoundSpec, SameJob, was_reported, drain_one-RoundSpec}

-- A delivery is safe: its entry is still in the spool, for the same job, or the control plane has
-- acknowledged a result of the job.
abbrev pub IsSafe : String → PendingDelivery → Relay → Type 0
IsSafe name d r =
    SameJob (some d) (lookup r.spool.entries name) ⊎ (was_reported d.job.job_id r.reported ≡ true)

kept_here :
    (t : Relay) (goes_on : Bool) (o : Option PendingDelivery) (name : String)
    → (d now : PendingDelivery) → o ≡ some now
    → now.job ≡ d.job
    → (goes_on ≡ true)
        × (lookup t.spool.entries name ≡ none)
        × ((x : PendingDelivery) × (o ≡ some x) × (was_reported x.job.job_id t.reported ≡ true))
      ⊎ (goes_on ≡ false) × SameJob o (lookup t.spool.entries name)
    → IsSafe name d t
kept_here t goes_on none name d now e job outcome = cc
kept_here t goes_on (some x) name d now e job (inl (gone, empty, (y, same, told))) =
    let y_is_d : y.job ≡ d.job = cc in
    inr (subst (λ j. was_reported j.job_id t.reported ≡ true) y_is_d told)
kept_here t goes_on (some x) name d now e job (inr (stops, (later, found, same))) =
    let later_is_d : later.job ≡ d.job = cc in inl (later, found, later_is_d)

module _ (text : SpoolText) (world : Outside) where
  round_keeps :
      (r : Relay) (round : String) (t : Relay × Bool) (o : Option PendingDelivery) (name : String)
      → (d : PendingDelivery) → lookup r.spool.entries round ≡ o
      → RoundSpec r round o t
      → IsSafe name d r
      → IsSafe name d t.0
  round_keeps r round (t, goes_on) o name d e (others, outcome) (inr told) =
      inr (others.1 d.job.job_id told)
  round_keeps r round (t, goes_on) o name d e (others, outcome) (inl (now, found, job)) =
      elim (Bool-cases (str_eq name round)) [
        | inr differs ↦ inl (now, others.0 name differs ∙ found, job)
        | inl same ↦
            let here = (eq_iff name round).0 same in
            subst (λ n. IsSafe n d t) (sym here)
              (kept_here t goes_on o round d now
                (sym e ∙ subst (λ n. lookup r.spool.entries n ≡ some now) here found) job outcome)
      ]

  drain_entries_keeps :
      (r : Relay) (names : List String) (name : String) (d : PendingDelivery)
      → IsSafe name d r
      → IsSafe name d (drain_entries text world r names).0
  unfolding drain_entries
  drain_entries_keeps r [] name d h = h
  drain_entries_keeps r (first ∷ rest) name d h =
      let round = drain_one text world r first in
      let kept =
        round_keeps r first round (lookup r.spool.entries first) name d refl
          (drain_one-RoundSpec text world r first) h in
      elim (Bool-cases round.1) [
        | inr stops ↦ rw (stops, drain_entries) kept
        | inl goes_on ↦ rw (goes_on, drain_entries) (drain_entries_keeps round.0 rest name d kept)
      ]

  -- Whatever the control plane, the publisher and the disk answer, and wherever `drain` stops, each
  -- delivery of the spool is then still in it, for the same job, or the control plane has
  -- acknowledged a result of its job.
  pub drain-IsSafe :
      (r : Relay) (name : String) (d : PendingDelivery)
      → lookup r.spool.entries name ≡ some d
      → IsSafe name d (drain text world r).0
  unfolding drain
  drain-IsSafe r name d e = elim (Bool-cases (world.listed r.calls)) [
    | inr unlisted ↦ rw (unlisted, drain) (inl (d, e, refl))
    | inl listed ↦
        rw (listed, drain)
          (drain_entries_keeps (called r) (pending_names r.spool) name d (inl (d, e, refl)))
  ]
