-- ===== src/Store.antt =====
-- The database of the connector (internal/store/ctops.go).
pub mod Tables
pub mod Upsert
pub mod Findings
pub mod Status
pub mod Snapshots
pub mod Cves
pub mod Sources
pub mod Accounts
pub mod Migrations
mod Tests
