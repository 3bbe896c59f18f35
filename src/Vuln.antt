-- ===== src/Vuln.antt =====
-- Package versions and the matching of packages to advisories (internal/vuln).
pub mod Numeric
pub mod Debian
pub mod Natural
pub mod Rpm
pub mod Version
pub mod Types
pub mod Matcher
mod Tests
