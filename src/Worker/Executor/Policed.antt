-- ===== src/Worker/Executor/Policed.antt =====
-- executor.go: what is discovered is within the policy of the worker.
use topo.Prelude.{
  ℕ, ◌+◌, ◌<◌, ◌≤◌, ◌≡◌, refl, Bool, true, false, not, ◌&&◌, Option, none, some, leb, to_ℕ, Result,
  ok, err, refuse_if, ◌>>=◌, ◌>>◌, arith, subst, Option-cases, inl, inr,
}
use topo.Worker.Plan.{TargetPartition, PrefixText}
use topo.Worker.Policy.{
  Policy, local_v1, ssh_linux_v1, winrm_windows_v1, validate, task_duration, target_allowed,
}
use topo.Worker.Task.{Task, validate_task}
use topo.Worker.Executor.{
  Credentials, Target, local_host, ssh_host, winrm_host, Request, ExecuteError, Executor,
  local_target, ssh_address, ssh_target, winrm_address, winrm_target, target_of, prepare,
}

-- What is known of the value of a success.
abbrev OnOk : {A : Type 0} → (A → Type 0) → Result ExecuteError A → Type 0
OnOk P (err e) = Unit
OnOk P (ok a) = P a

OnOk-bind :
    {A B : Type 0} (m : Result ExecuteError A) (k : A → Result ExecuteError B) (Q : A → Type 0)
    (P : B → Type 0)
    → OnOk Q m
    → ((a : A) → Q a → OnOk P (k a))
    → OnOk P (m >>= k)
OnOk-bind (err e) k Q P q f = tt
OnOk-bind (ok a) k Q P q f = f a q

OnOk-guard :
    {B : Type 0} (b : Bool) (e : ExecuteError) (n : Result ExecuteError B) (P : B → Type 0)
    → (b ≡ false → OnOk P n)
    → OnOk P (refuse_if b e >> n)
OnOk-guard true e n P f = tt
OnOk-guard false e n P f = f refl

OnOk-unit : {A : Type 0} (m : Result ExecuteError A) → OnOk (λ _. Unit {0}) m
OnOk-unit (err e) = tt
OnOk-unit (ok a) = tt

-- The policy allows the target.
abbrev pub Allows : Policy → Target → Type 0
Allows policy local_host = policy.allow_local ≡ true
Allows policy (ssh_host credential address) =
    (policy.allow_ssh_linux ≡ true) × (target_allowed address policy.ssh_allowlist ≡ true)
Allows policy (winrm_host credential address) =
    (policy.allow_winrm_windows ≡ true) × (target_allowed address policy.winrm_allowlist ≡ true)

-- A valid policy gives a task some time.
valid_duration : (p : Policy) → validate p ≡ true → 1 ≤ to_ℕ (task_duration p)
unfolding validate task_duration
valid_duration p v = ground arith

module _ (text : PrefixText) (executor : Executor) where
  local_target-Allows :
      (task : Task) → OnOk (Allows executor.policy) (local_target text executor task)
  unfolding local_target
  local_target-Allows task = ground arith

  ssh_address-allowed :
      (partition : Option TargetPartition)
      → OnOk
          (λ a. target_allowed a executor.policy.ssh_allowlist ≡ true)
          (ssh_address text executor partition)
  unfolding ssh_address
  ssh_address-allowed none = tt
  ssh_address-allowed (some partition) = ground arith

  winrm_address-allowed :
      (partition : Option TargetPartition)
      → OnOk
          (λ a. target_allowed a executor.policy.winrm_allowlist ≡ true)
          (winrm_address text executor partition)
  unfolding winrm_address
  winrm_address-allowed none = tt
  winrm_address-allowed (some partition) = ground arith

  ssh_target-Allows :
      (task : Task) (credentials : Credentials)
      → OnOk (Allows executor.policy) (ssh_target text executor task credentials)
  unfolding ssh_target
  ssh_target-Allows task credentials =
      OnOk-guard (not (executor.policy.allow_ssh_linux && executor.has_host_keys)) _ _ _ λ on.
        OnOk-bind _ _ (λ a. target_allowed a executor.policy.ssh_allowlist ≡ true) _
          (ssh_address-allowed task.target_partition)
          λ a allowed.
            OnOk-bind _ (λ c. ok (ssh_host c a)) (λ _. Unit) (Allows executor.policy) (OnOk-unit _)
              λ c _. (ground arith, allowed)

  winrm_target-Allows :
      (task : Task) (credentials : Credentials)
      → OnOk (Allows executor.policy) (winrm_target text executor task credentials)
  unfolding winrm_target
  winrm_target-Allows task credentials =
      OnOk-guard (not (executor.policy.allow_winrm_windows && executor.has_roots)) _ _ _ λ on.
        OnOk-bind _ _ (λ a. target_allowed a executor.policy.winrm_allowlist ≡ true) _
          (winrm_address-allowed task.target_partition)
          λ a allowed.
            OnOk-bind _ (λ c. ok (winrm_host c a)) (λ _. Unit) (Allows executor.policy)
              (OnOk-unit _) λ c _. (ground arith, allowed)

  target_of-Allows :
      (task : Task) (credentials : Credentials)
      → OnOk (Allows executor.policy) (target_of text executor task credentials)
  unfolding target_of
  target_of-Allows task credentials = elim (Option-cases task.operation) [
    | inl e ↦ rw (e, target_of) tt
    | inr (local_v1, e) ↦ rw (e, target_of) (local_target-Allows task)
    | inr (ssh_linux_v1, e) ↦ rw (e, target_of) (ssh_target-Allows task credentials)
    | inr (winrm_windows_v1, e) ↦ rw (e, target_of) (winrm_target-Allows task credentials)
  ]

  -- What is known of the request that a plugin is given for a task.
  record Policed (checked current : ℕ) (task : Task) (request : Request) : Type 0 where
    allowed : Allows executor.policy request.target
    valid_policy : validate executor.policy ≡ true
    valid_task : validate_task text checked task ≡ true
    in_lease : current < task.lease_expires_at
    before_deadline : current < request.deadline
    by_task : request.deadline ≤ task.deadline
    by_policy : request.deadline ≤ current + to_ℕ (task_duration executor.policy)

  prepare-OnOk :
      (checked current : ℕ) (task : Task) (credentials : Credentials)
      → OnOk (Policed checked current task) (prepare text executor checked current task credentials)
  unfolding prepare
  prepare-OnOk checked current task credentials =
      OnOk-guard (not (validate executor.policy)) _ _ _ λ p.
        OnOk-guard (not (validate_task text checked task)) _ _ _ λ t.
          OnOk-guard (leb task.lease_expires_at current) _ _ _ λ l.
            OnOk-guard (leb task.deadline current) _ _ _ λ d.
              OnOk-bind _ _ (Allows executor.policy) _ (target_of-Allows task credentials)
                λ target allowed. record {
                  allowed = allowed;
                  valid_policy = ground arith;
                  valid_task = ground arith;
                  in_lease = ground arith;
                  before_deadline = ground (arith, valid_duration executor.policy (ground arith));
                  by_task = ground arith;
                  by_policy = ground arith;
                }

  -- A task is discovered only where the policy allows it: a remote host only where its operation is
  -- enabled and an allowlist contains its address, before the lease of the task ends, and with a
  -- deadline in the future that neither the task's nor the policy's is before.
  pub prepare-Policed :
      (checked current : ℕ) (task : Task) (credentials : Credentials) (request : Request)
      → prepare text executor checked current task credentials ≡ ok request
      → Allows executor.policy request.target
        × (validate executor.policy ≡ true)
        × (validate_task text checked task ≡ true)
        × (current < task.lease_expires_at)
        × (current < request.deadline)
        × (request.deadline ≤ task.deadline)
        × (request.deadline ≤ current + to_ℕ (task_duration executor.policy))
  prepare-Policed checked current task credentials request e =
      let h =
        subst (OnOk (Policed checked current task)) e
          (prepare-OnOk checked current task credentials) in
      (
        h.allowed, h.valid_policy, h.valid_task, h.in_lease, h.before_deadline, h.by_task,
        h.by_policy,
      )
