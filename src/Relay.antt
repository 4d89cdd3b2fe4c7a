-- ===== src/Relay.antt =====
-- internal/relay: the relay that runs discovery jobs for ServiceNow and delivers their results.
pub mod Spool
pub mod Cycle
