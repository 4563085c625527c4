-- ===== src/Crypto.antt =====
-- The crate latticeshield-crypto.
pub mod Primitives
pub mod Stream
pub mod Channel
pub mod Signing
pub mod Handshake
