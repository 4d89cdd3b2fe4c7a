-- ===== src/Agent.antt =====
-- internal/agent: the collector that observes its own host.
pub mod Spool
pub mod Run
