-- ===== src/Controller/Jobs/Delivery.antt =====
-- jobs.go: what a poll delivers.
use topo.Prelude.{
  ℕ, ◌≡◌, refl, String, str_eq, eq_iff, none, some, List, [], ◌∷◌, count, to_count,
  count-sort_slice, sort_slice-Sorted, sort_slice, Sorted, IsLess, arith, GoMap, lookup, Distinct,
}
use topo.Controller.Jobs.{Job, JobRecord, JobStore, is_polled, poll_loop, poll, created_before}

-- How often a job is in a list of deliveries.
abbrev pub times : String → List Job → ℕ
times id = count (λ j. str_eq j.job_id id)

absent_times :
    (m : GoMap JobRecord) (collector id : String)
    → lookup m id ≡ none
    → times id (poll_loop m collector).1 ≡ 0
unfolding poll_loop lookup
absent_times [] collector id h = refl
absent_times ((k, r) ∷ rest) collector id h =
    ground (arith, absent_times rest collector id, eq_iff k id, eq_iff id k)

poll_loop-times :
    (m : GoMap JobRecord) (collector id : String)
    → Distinct m
    → times id (poll_loop m collector).1
      ≡ elim (lookup m id) [ none ↦ 0 | some r ↦ to_count (is_polled collector r) ]
unfolding poll_loop lookup
poll_loop-times [] collector id d = refl
poll_loop-times ((k, r) ∷ rest) collector id d = ground (
  arith,
  poll_loop-times rest collector id,
  absent_times rest collector id,
  eq_iff k id,
  eq_iff id k,
)

-- A poll delivers each pending job of the collector once, and no other job, where the map has each
-- ID once.
pub poll-times :
    (s : JobStore) (collector id : String)
    → Distinct s.jobs
    → times id (poll s collector).1
      ≡ elim (lookup s.jobs id) [ none ↦ 0 | some r ↦ to_count (is_polled collector r) ]
unfolding poll
poll-times s collector id d =
    rw (count-sort_slice created_before (λ j. str_eq j.job_id id) (poll_loop s.jobs collector).1)
      (poll_loop-times s.jobs collector id d)

poll_loop_again :
    (m : GoMap JobRecord) (collector : String)
    → (poll_loop (poll_loop m collector).0 collector).1 ≡ []
unfolding poll_loop
poll_loop_again [] collector = refl
poll_loop_again ((k, r) ∷ rest) collector = ground (arith, poll_loop_again rest collector)

-- A second poll of the same collector, with nothing queued in between, delivers nothing.
pub poll_again : (s : JobStore) (collector : String) → (poll (poll s collector).0 collector).1 ≡ []
unfolding poll sort_slice
poll_again s collector = rw (poll_loop_again s.jobs collector)

created_before-IsLess : IsLess created_before
created_before-IsLess = record { asym = λ a b h. ground arith; trans = λ a b c h k. ground arith }

-- The jobs of a poll are in the order of their creation.
pub poll-Sorted : (s : JobStore) (collector : String) → Sorted created_before (poll s collector).1
unfolding poll
poll-Sorted s collector = sort_slice-Sorted created_before created_before-IsLess _
