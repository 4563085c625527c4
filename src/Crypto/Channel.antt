-- ===== src/Crypto/Channel.antt =====
-- latticeshield-crypto/src/channel.rs: the encrypted channel.
pub mod Link
pub mod State
pub mod Ops
pub mod Wire
pub mod Reading
pub mod Replay
pub mod Writing
pub mod Nonces
pub mod Directions
pub mod Keys
