-- ===== src/Worker.antt =====
-- internal/worker: the stateless worker of the ServiceNow control plane.
pub mod Ids
pub mod Prefix
pub mod Partition
pub mod Plan
pub mod Policy
pub mod Task
pub mod Executor
pub mod Active
pub mod Lease
pub mod StartLimit
pub mod Attempt
mod Examples
