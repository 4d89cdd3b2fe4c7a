-- ===== src/Controller.antt =====
-- internal/controller: the hub that queues jobs for collectors, keeps their schedules and heartbeats,
-- and takes in their observations.
pub mod Jobs
pub mod Heartbeats
pub mod Server
pub mod Authorization
pub mod Schedules
pub mod Handlers
pub mod Certificates
