-- ===== src/Bridge/VkShare.antt =====
-- latticeshield-bridge/src/vk_share.rs: one-time tokens for the download of the verifying key.
pub mod Hex
pub mod Store
pub mod Tokens
pub mod History
