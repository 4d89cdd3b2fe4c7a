-- ===== src/Store.antt =====
-- internal/store: the repository of observations, asset claims, audit entries and schedules.
pub mod Model
pub mod Memory
pub mod Resolution
pub mod Sqlite
