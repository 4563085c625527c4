-- ===== src/Bridge/Ws.antt =====
-- latticeshield-bridge/src/ws.rs.
pub mod Origin
pub mod Matching
pub mod Stream
