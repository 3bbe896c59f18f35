-- ===== src/Feed.antt =====
-- The feeds of advisories (internal/feed).
pub mod Types
pub mod Clean
pub mod Records
pub mod Debian
pub mod Alpine
pub mod Ubuntu
pub mod RedHat
pub mod Kev
pub mod Nvd
pub mod Syncer
mod Tests
