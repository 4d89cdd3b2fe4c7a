-- ===== src/Relay/Cycle/Steps.antt =====
-- run.go: what one round of the loop of `drain` does to the spool and to the results.
use topo.Prelude.{
  ◌+◌, lookup-store_self, ◌≡◌, ◌⊎◌, refl, Bool, true, false, not, ◌&&◌, ◌||◌, String, str_eq,
  eq_iff, Option, none, some, List, [], ◌∷◌, ◌++◌, any, arith, if◌then◌else◌, leb, lookup,
  lookup-store, lookup-delete, inl, inr, Bool-cases, Result, ok, err, sym, ap, subst, ◌∙◌,
}
use topo.Store.Model.{ObservationEnvelope}
use topo.Relay.Spool.RelayJob.{job_id}
use topo.Relay.Spool.{PendingDelivery, SpoolText, Spool, Failure, replace_delivery, remove_entry}
use topo.Relay.Spool.Writes.{WriteSpec, replace_delivery-WriteSpec}
use topo.Relay.Cycle.{
  Outside, Relay, RelayResult, PublishOutcome, accepted, refused, is_refused, is_empty, attempted,
  called, result_for, after_replace, publish_one, publish_phase, report_phase, drain_read,
  drain_one, max_publish_attempts,
}

-- Whether the control plane has acknowledged a result of the job.
abbrev pub was_reported : String → List RelayResult → Bool
was_reported id = any (λ result. str_eq result.job_id id)

-- An entry is still there, for the same job, where there was one.
abbrev pub SameJob : Option PendingDelivery → Option PendingDelivery → Type 0
SameJob none o = o ≡ none
SameJob (some d) o = (later : PendingDelivery) × (o ≡ some later) × (later.job ≡ d.job)

-- The other entries are as they were, and no acknowledged result is forgotten.
abbrev pub OthersKept : String → Relay → Relay → Type 0
OthersKept name r t =
    ((k : String) → str_eq k name ≡ false → lookup t.spool.entries k ≡ lookup r.spool.entries k)
    × ((id : String) → was_reported id r.reported ≡ true → was_reported id t.reported ≡ true)

-- A round that goes on has reported the delivery of its entry and removed it; another keeps it.
abbrev pub RoundSpec : Relay → String → Option PendingDelivery → Relay × Bool → Type 0
RoundSpec r name o (t, goes_on) =
    OthersKept name r t
    × ((goes_on ≡ true)
          × (lookup t.spool.entries name ≡ none)
          × ((d : PendingDelivery) × (o ≡ some d) × (was_reported d.job.job_id t.reported ≡ true))
        ⊎ (goes_on ≡ false) × SameJob o (lookup t.spool.entries name))

pub any-append {ℓ} :
    {A : Type ℓ} (p : A → Bool) (xs ys : List A) → any p (xs ++ ys) ≡ (any p xs || any p ys)
any-append p [] ys = refl
any-append p (x ∷ xs) ys = ground (arith, any-append p xs ys)

some_injective : {a b : PendingDelivery} → some a ≡ some b → a ≡ b
some_injective e = cc

SameJob-refl : (o : Option PendingDelivery) → SameJob o o
SameJob-refl none = refl
SameJob-refl (some d) = (d, refl, refl)

round_after :
    (r t : Relay) (name : String) (o : Option PendingDelivery) (u : Relay × Bool)
    → OthersKept name r t
    → RoundSpec t name o u
    → RoundSpec r name o u
round_after r t name o (u, goes_on) first (second, outcome) =
    ((λ k h. second.0 k h ∙ first.0 k h, λ id h. second.1 id (first.1 id h)), outcome)

kept_reported :
    (id : String) (results : List RelayResult) (result : RelayResult)
    → was_reported id results ≡ true
    → was_reported id (results ++ result ∷ []) ≡ true
kept_reported id results result h =
    ground (arith, any-append (λ other. str_eq other.job_id id) results (result ∷ []))

new_reported :
    (d later : PendingDelivery) (results : List RelayResult)
    → later.job ≡ d.job
    → was_reported d.job.job_id (results ++ result_for later none ∷ []) ≡ true
unfolding result_for
new_reported d later results job = ground (
  arith,
  any-append (λ other. str_eq other.job_id d.job.job_id) results (result_for later none ∷ []),
  eq_iff later.job.job_id d.job.job_id,
  ap job_id job,
)

attempted-job : (d : PendingDelivery) (outcome : PublishOutcome) → (attempted d outcome).job ≡ d.job
unfolding attempted
attempted-job d accepted = refl
attempted-job d (refused retryable message) =
    elim (Bool-cases (not retryable || leb max_publish_attempts (d.publish_attempts + 1))) [
      | inl last ↦ rw last refl
      | inr again ↦ rw again refl
    ]

module _ (text : SpoolText) where
  module _ (world : Outside) where
    report_phase-RoundSpec :
        (r : Relay) (name : String) (d later : PendingDelivery)
        → later.job ≡ d.job
        → SameJob (some d) (lookup r.spool.entries name)
        → RoundSpec r name (some d) (report_phase text world r name (some later))
    unfolding report_phase remove_entry
    report_phase-RoundSpec r name d later job kept =
        elim (Bool-cases (world.report r.calls (result_for later none))) [
          | inr unsent ↦ rw unsent ((λ k h. refl, λ id h. h), inr (refl, kept))
          | inl sent ↦ elim (Bool-cases (world.removed (r.calls + 1))) [
            | inr stuck ↦
                rw (sent, stuck)
                  (
                    (λ k h. refl, λ id h. kept_reported id r.reported (result_for later none) h),
                    inr (refl, kept),
                  )
            | inl gone ↦
                rw (sent, gone)
                  (
                    (
                      λ k h. ground (arith, lookup-delete r.spool.entries name k),
                      λ id h. kept_reported id r.reported (result_for later none) h,
                    ),
                    inl (
                      refl,
                      ground (arith, lookup-delete r.spool.entries name name, eq_iff name name),
                      (d, refl, new_reported d later r.reported job),
                    ),
                  )
          ]
        ]

    -- The entry of a delivery after its publication, and the delivery that is to be reported.
    abbrev PublishSpec : Relay → String → PendingDelivery → Relay × Option PendingDelivery → Type 0
    PublishSpec r name d (t, state) =
        OthersKept name r t
        × SameJob (some d) (lookup t.spool.entries name)
        × ((state ≡ none)
            ⊎ ((later : PendingDelivery) × (state ≡ some later) × (later.job ≡ d.job)))

    kept_or_not :
        (stops : Bool) (d later : PendingDelivery)
        → later.job ≡ d.job
        → ((if stops then none else some later) ≡ none)
          ⊎ ((x : PendingDelivery) × ((if stops then none else some later) ≡ some x)
              × (x.job ≡ d.job))
    kept_or_not true d later job = inl refl
    kept_or_not false d later job = inr (later, refl, job)

    after_replace-PublishSpec :
        (r : Relay) (name : String) (d later : PendingDelivery) (outcome : PublishOutcome)
        → (o : Result Failure Spool) → WriteSpec r.spool name later o
        → later.job ≡ d.job
        → lookup r.spool.entries name ≡ some d
        → PublishSpec r name d (after_replace text world r later outcome o)
    unfolding after_replace
    after_replace-PublishSpec r name d later outcome (err (e, spool)) h job found =
        ((λ k differs. rw h refl, λ id g. g), (d, rw h found, refl), inl refl)
    after_replace-PublishSpec r name d later outcome (ok spool) h job found = (
      (λ k differs. rw h (ground (arith, lookup-store r.spool.entries name k later)), λ id g. g),
      (later, rw h (lookup-store_self r.spool.entries name later), job),
      kept_or_not (is_refused outcome && is_empty later.publication_error) d later job,
    )

    publish_phase-PublishSpec :
        (r : Relay) (name : String) (d : PendingDelivery) (o : Option ObservationEnvelope)
        → d.observation ≡ o
        → lookup r.spool.entries name ≡ some d
        → PublishSpec r name d (publish_phase text world r name d)
    unfolding publish_phase publish_one
    publish_phase-PublishSpec r name d none e found =
        rw (e, publish_phase) ((λ k h. refl, λ id h. h), (d, found, refl), inr (d, refl, refl))
    publish_phase-PublishSpec r name d (some observation) e found =
        let outcome = world.publish r.calls observation in
        elim (Bool-cases (not d.published && is_empty d.publication_error)) [
          | inr settled ↦
              rw (e, publish_phase)
                (rw settled ((λ k h. refl, λ id h. h), (d, found, refl), inr (d, refl, refl)))
          | inl due ↦
              rw (e, publish_phase)
                (rw due (
                  after_replace-PublishSpec (called (called r)) name d (attempted d outcome) outcome
                    (replace_delivery text r.spool name (attempted d outcome)
                      (world.write_end (r.calls + 1)))
                    (replace_delivery-WriteSpec text r.spool name (attempted d outcome)
                      (world.write_end (r.calls + 1)))
                    (attempted-job d outcome) found))
        ]

    reported_job :
        (d later : PendingDelivery)
        → (◌≡◌ {A = Option PendingDelivery} (some later) none)
          ⊎ ((x : PendingDelivery) × (some later ≡ some x) × (x.job ≡ d.job))
        → later.job ≡ d.job
    reported_job d later (inl e) = cc
    reported_job d later (inr (x, e, job)) = subst (λ y. y.job ≡ d.job) (sym (some_injective e)) job

    then_reported :
        (r t : Relay) (name : String) (d : PendingDelivery) (state : Option PendingDelivery)
        → PublishSpec r name d (t, state)
        → RoundSpec r name (some d) (report_phase text world t name state)
    unfolding report_phase
    then_reported r t name d none (others, kept, s) = (others, inr (refl, kept))
    then_reported r t name d (some later) (others, kept, s) =
        round_after r t name (some d) (report_phase text world t name (some later)) others
          (report_phase-RoundSpec t name d later (reported_job d later s) kept)

    readable-RoundSpec :
        (r : Relay) (name : String) (o : Option PendingDelivery)
        → lookup r.spool.entries name ≡ o
        → RoundSpec r name o (drain_read text world (called r) name o)
    unfolding drain_read
    readable-RoundSpec r name none e = ((λ k h. refl, λ id h. h), inr (refl, e))
    readable-RoundSpec r name (some d) e =
        let phase = publish_phase text world (called r) name d in
        then_reported (called r) phase.0 name d phase.1
          (publish_phase-PublishSpec (called r) name d d.observation refl e)

    pub drain_one-RoundSpec :
        (r : Relay) (name : String)
        → RoundSpec r name (lookup r.spool.entries name) (drain_one text world r name)
    unfolding drain_one
    drain_one-RoundSpec r name = elim (Bool-cases (world.readable r.calls name)) [
      | inr unread ↦
          rw unread
            ((λ k h. refl, λ id h. h), inr (refl, SameJob-refl (lookup r.spool.entries name)))
      | inl read ↦ rw read (readable-RoundSpec r name (lookup r.spool.entries name) refl)
    ]
