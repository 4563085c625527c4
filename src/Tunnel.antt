-- ===== src/Tunnel.antt =====
-- From the server's channel to the client's: `write_frame` and `do_rotate` of
-- latticeshield-bridge/src/session.rs against the read arm of `run_relay` in
-- latticeshield-client/src/client_session.rs, over one connection.
pub mod Sync
pub mod Deliver
pub mod EndToEnd
pub mod Established
pub mod Reaches
pub mod Authentic
