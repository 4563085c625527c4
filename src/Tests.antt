-- ===== src/Tests.antt =====
-- Concrete instances of the parameters, and the theorems applied to concrete inputs.
mod Cipher
mod Channel
mod Tokens
mod Config
mod Origins
mod Limits
mod Relay
mod Keys
mod Delays
mod Exchange
mod Sessions
mod Reconnects
mod Commands
mod Admin
mod Messages
mod Heads
mod Identities
mod VkShares
mod Browser
mod Relaying
mod Shutdown
mod Overlapping
