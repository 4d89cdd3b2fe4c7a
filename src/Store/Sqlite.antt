-- ===== src/Store/Sqlite.antt =====
-- internal/store/sqlite/sqlite.go: the repository in an SQLite database.
pub mod Rows
pub mod Database
pub mod Saves
pub mod Reads
pub mod Migration
pub mod Leads
pub mod ClaimRows
pub mod Claims
pub mod Tables
pub mod Represents
pub mod Appends
pub mod Saved
pub mod Refines
pub mod Agrees
pub mod Backfill
mod Examples
