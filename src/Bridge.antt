-- ===== src/Bridge.antt =====
-- The crate latticeshield-bridge.
pub mod Rotate
pub mod VkShare
pub mod Ws
pub mod Config
pub mod IpLimit
pub mod Session
pub mod Handshake
pub mod ControlPlane
pub mod Admin
pub mod Tls
pub mod Relay
pub mod Acceptor
pub mod Server
