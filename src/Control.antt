-- ===== src/Control.antt =====
-- internal/worker/controlsim/server.go: the control plane that workers are tested against.
pub mod Records
pub mod Leases
pub mod Runs
pub mod Handlers
pub mod Attempts
pub mod Completion
pub mod Steps
pub mod Counts
pub mod Calm
pub mod CalmCompletion
pub mod CalmRuns
pub mod Bounded
pub mod Claims
pub mod Limits
pub mod Honoured
mod Examples
