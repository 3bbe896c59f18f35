-- ===== src/CtOps.antt =====
-- The connector to CT Ops (internal/ctops, internal/store/ctops.go).
pub mod Time
pub mod Types
pub mod Snapshot
pub mod Nonces
pub mod Auth
pub mod Delivery
pub mod Handler
mod Tests
