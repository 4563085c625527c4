-- ===== src/Bridge/Config.antt =====
-- latticeshield-bridge/src/config.rs.
pub mod Sections
pub mod Checks
pub mod Validate
pub mod Accepted
pub mod Bounds
pub mod Separate
pub mod Paths
