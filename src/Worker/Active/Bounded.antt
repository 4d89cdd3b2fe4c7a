-- ===== src/Worker/Active/Bounded.antt =====
-- run.go: no more attempts run than the policy allows, each under its own entry.
use topo.Prelude.{
  ℕ, suc, ◌≤◌, ◌≡◌, refl, ap, ◌∙◌, subst, Bool, true, false, String, str_eq, eq_iff, Option, none,
  some, List, [], ◌∷◌, ◌++◌, any, length, leb, arith, GoMap, lookup, store, delete, Distinct,
  store-Distinct, delete-Distinct, length-store, to_ℕ, Bool-cases, Option-cases, inl, inr,
}
use topo.Worker.Policy.{Policy, concurrency}
use topo.Worker.Active.{
  ActiveTasks, count, add, cancel_one, cancel_attempts, cancel_all, remove_first, finish,
  ClaimEvent, claim_failed, no_task, claimed, finished, started, claim_tasks, run_cycle, Step,
  cycles, ends, stops, Reachable, at_start, after,
}

abbrev keys : GoMap Bool → List String
keys [] = []
keys ((key, v) ∷ rest) = key ∷ keys rest

-- The map has an entry for each attempt that runs and no other, and there are not too many.
pub record IsBounded (maximum : ℕ) (s : ActiveTasks) : Type 0 where
  pub distinct : Distinct s.cancel
  pub bounded : length s.cancel ≤ maximum
  pub own_entries : keys s.cancel ≡ s.running

keys-store_new :
    (m : GoMap Bool) (key : String) (v : Bool)
    → lookup m key ≡ none
    → keys (store m key v) ≡ keys m ++ key ∷ []
unfolding lookup store
keys-store_new [] key v h = refl
keys-store_new ((k, w) ∷ rest) key v h = ground (arith, keys-store_new rest key v)

keys-store_old :
    (m : GoMap Bool) (key : String) (v w : Bool)
    → lookup m key ≡ some w
    → keys (store m key v) ≡ keys m
unfolding lookup store
keys-store_old [] key v w h = ground arith
keys-store_old ((k, x) ∷ rest) key v w h = ground (arith, keys-store_old rest key v w, eq_iff key k)

delete_absent : (m : GoMap Bool) (key : String) → lookup m key ≡ none → delete m key ≡ m
unfolding lookup delete
delete_absent [] key h = refl
delete_absent ((k, w) ∷ rest) key h = ground (arith, delete_absent rest key)

keys-delete :
    (m : GoMap Bool) (key : String) → Distinct m → keys (delete m key) ≡ remove_first key (keys m)
unfolding lookup delete
keys-delete [] key d = refl
keys-delete ((k, w) ∷ rest) key d =
    ground (arith, keys-delete rest key, delete_absent rest key, eq_iff key k)

length-delete : (m : GoMap Bool) (key : String) → length (delete m key) ≤ length m
unfolding delete
length-delete [] key = ground arith
length-delete ((k, w) ∷ rest) key = ground (arith, length-delete rest key)

keys-cancel_all : (m : GoMap Bool) → keys (cancel_all m) ≡ keys m
unfolding cancel_all
keys-cancel_all [] = refl
keys-cancel_all ((k, w) ∷ rest) = ap (λ l. k ∷ l) (keys-cancel_all rest)

lookup-cancel_all :
    (m : GoMap Bool) (key : String) → lookup m key ≡ none → lookup (cancel_all m) key ≡ none
unfolding lookup cancel_all
lookup-cancel_all [] key h = refl
lookup-cancel_all ((k, w) ∷ rest) key h = ground (arith, lookup-cancel_all rest key)

cancel_all-Distinct : (m : GoMap Bool) → Distinct m → Distinct (cancel_all m)
unfolding cancel_all
cancel_all-Distinct [] d = tt
cancel_all-Distinct ((k, w) ∷ rest) d = (lookup-cancel_all rest k d.0, cancel_all-Distinct rest d.1)

length-keys : (m : GoMap Bool) → length (keys m) ≡ length m
length-keys [] = refl
length-keys ((k, w) ∷ rest) = ap suc (length-keys rest)

-- A change of the map that keeps its keys.
recast :
    (maximum : ℕ) (s : ActiveTasks) (m : GoMap Bool)
    → IsBounded maximum s
    → Distinct m
    → keys m ≡ keys s.cancel
    → IsBounded maximum (record s { cancel = m })
recast maximum s m h d same = record {
  distinct = d;
  bounded = ground (arith, h.bounded, length-keys m, length-keys s.cancel, ap length same);
  own_entries = same ∙ h.own_entries;
}

cancel_one_lem :
    (m : GoMap Bool) (key : String)
    → Distinct m
    → Distinct (cancel_one m key) × (keys (cancel_one m key) ≡ keys m)
unfolding cancel_one
cancel_one_lem m key d = elim (Option-cases (lookup m key)) [
  | inl e ↦ rw (e, cancel_one) (d, refl)
  | inr (v, e) ↦ rw (e, cancel_one) (store-Distinct m key true d, keys-store_old m key true v e)
]

cancel_attempts_lem :
    (m : GoMap Bool) (attempts : List String)
    → Distinct m
    → Distinct (cancel_attempts m attempts) × (keys (cancel_attempts m attempts) ≡ keys m)
unfolding cancel_attempts
cancel_attempts_lem m [] d = (d, refl)
cancel_attempts_lem m (attempt ∷ rest) d =
    let (d', same) = cancel_one_lem m attempt d in
    let (d'', same') = cancel_attempts_lem (cancel_one m attempt) rest d' in (d'', same' ∙ same)

finish-IsBounded :
    (maximum : ℕ) (s : ActiveTasks) (attempt : String)
    → IsBounded maximum s
    → IsBounded maximum (finish s attempt)
unfolding finish
finish-IsBounded maximum s attempt h = elim (Bool-cases (any (str_eq attempt) s.running)) [
  | inr f ↦ rw f h
  | inl t ↦ rw t (record {
    distinct = delete-Distinct s.cancel attempt h.distinct;
    bounded = ground (arith, h.bounded, length-delete s.cancel attempt);
    own_entries = keys-delete s.cancel attempt h.distinct ∙ ap (remove_first attempt) h.own_entries;
  })
]

abbrev AddSpec : ℕ → ActiveTasks → Option ActiveTasks → Type 0
AddSpec maximum s none = Unit
AddSpec maximum s (some t) = IsBounded maximum t

started-IsBounded :
    (maximum : ℕ) (s : ActiveTasks) (attempt : String)
    → IsBounded maximum s
    → AddSpec maximum s (started s attempt (add s.cancel attempt maximum))
unfolding add started
started-IsBounded maximum s attempt h = elim (Bool-cases (leb maximum (length s.cancel))) [
  | inl t ↦ rw (t, add) tt
  | inr f ↦ elim (Option-cases (lookup s.cancel attempt)) [
    | inr (v, e) ↦ rw (f, e, add) tt
    | inl e ↦
        rw (f, e, add)
          (record {
            distinct = store-Distinct s.cancel attempt false h.distinct;
            bounded = ground (arith, length-store s.cancel attempt false);
            own_entries =
                keys-store_new s.cancel attempt false e ∙ ap (λ l. l ++ attempt ∷ []) h.own_entries;
          })
  ]
]

claim_tasks-IsBounded :
    (maximum : ℕ) (events : List ClaimEvent) (s : ActiveTasks)
    → IsBounded maximum s
    → IsBounded maximum (claim_tasks maximum events s)
unfolding claim_tasks
claim_tasks-IsBounded maximum [] s h = h
claim_tasks-IsBounded maximum (claim_failed ∷ events) s h = h
claim_tasks-IsBounded maximum (no_task ∷ events) s h = h
claim_tasks-IsBounded maximum (finished attempt ∷ events) s h =
    claim_tasks-IsBounded maximum events (finish s attempt) (finish-IsBounded maximum s attempt h)
claim_tasks-IsBounded maximum (claimed task ∷ events) s h =
    elim (Bool-cases (leb maximum (count s.cancel))) [
      | inl t ↦ rw (t, claim_tasks) h
      | inr f ↦
          elim (Option-cases (started s task.attempt_id (add s.cancel task.attempt_id maximum))) [
            | inl e ↦ rw (f, e, claim_tasks) h
            | inr (t, e) ↦
                rw (f, e, claim_tasks)
                  (claim_tasks-IsBounded maximum events t
                    (subst (AddSpec maximum s) e (started-IsBounded maximum s task.attempt_id h)))
          ]
    ]

step-IsBounded :
    (policy : Policy) (s t : ActiveTasks)
    → Step policy s t
    → IsBounded (to_ℕ (concurrency policy)) s
    → IsBounded (to_ℕ (concurrency policy)) t
unfolding run_cycle
step-IsBounded policy s _ (cycles _ none events) h = h
step-IsBounded policy s _ (cycles _ (some cancelled) events) h =
    let (d, same) = cancel_attempts_lem s.cancel cancelled h.distinct in
    claim_tasks-IsBounded _ events _ (recast _ s _ h d same)
step-IsBounded policy s _ (ends _ attempt) h = finish-IsBounded _ s attempt h
step-IsBounded policy s _ (stops _) h =
    recast _ s _ h (cancel_all-Distinct s.cancel h.distinct) (keys-cancel_all s.cancel)

-- Whatever the control plane answers and whenever attempts end, no more attempts of a worker run
-- than its policy allows, no two with one ID, and each under an entry of its own, by which it is
-- cancelled.
pub Reachable-IsBounded :
    (policy : Policy) (s : ActiveTasks)
    → Reachable policy s
    → IsBounded (to_ℕ (concurrency policy)) s
Reachable-IsBounded policy _ at_start = record {
  distinct = tt;
  bounded = ground arith;
  own_entries = refl;
}
Reachable-IsBounded policy _ (after s t r step) =
    step-IsBounded policy s t step (Reachable-IsBounded policy s r)
