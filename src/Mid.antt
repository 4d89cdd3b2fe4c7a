-- ===== src/Mid.antt =====
-- internal/mid: the runtime that answers records of the ECC queue of ServiceNow.
pub mod Records
pub mod Journal
pub mod Transport
pub mod Cycle
