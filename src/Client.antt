-- ===== src/Client.antt =====
-- The crate latticeshield-client.
pub mod Receive
pub mod Relay
pub mod Backoff
pub mod Handshake
pub mod Reconnect
pub mod Pool
pub mod Config
