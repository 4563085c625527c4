-- ===== src/Lib.antt =====
-- Verification library of LatticeShield, a tunnel whose two ends agree on a session key in a hybrid
-- post-quantum handshake and then exchange AES-256-GCM frames, with key rotations in between.
--
-- Crypto models the crate latticeshield-crypto. Crypto/Channel is
-- latticeshield-crypto/src/channel.rs: State has its types and constants, Link the two halves of a
-- connection and the operations of tokio on them, Ops every method of `EncryptedChannel` under its own
-- name (`read_frame` is cut into its arms `read_data`, `read_key_rotate` and the tail
-- `read_payload`). A method is a function from a link, which is the channel with its input and output, to
-- a result and the link afterwards, so what a failure leaves behind is visible. `+= 1` on a counter
-- wraps, as in the release profile. Wire has the layout of frames; Reading, Writing, Keys, Replay,
-- Nonces and Directions prove what the methods do. Crypto/Signing is latticeshield-crypto/src/signing.rs, Crypto/Handshake
-- latticeshield-crypto/src/handshake.rs, each function under its own name, with Sizes, Agreement and Signed as its theory.
-- Crypto/Stream is a connection before it has a channel.
--
-- Bridge models the crate latticeshield-bridge: Bridge/Rotate is `do_rotate` of
-- latticeshield-bridge/src/session.rs and Bridge/Session its relay loop (a round is one event, which is what
-- `select!` gives, and the rotation that may follow), Bridge/VkShare the token store of
-- latticeshield-bridge/src/vk_share.rs (Store its operations, Hex its encoding, Tokens one call, History
-- any sequence of calls), Bridge/Ws/Origin the check of the Origin header of
-- latticeshield-bridge/src/ws.rs, and Bridge/Config latticeshield-bridge/src/config.rs: Sections has the
-- structs and their defaults, Checks the conditions that refuse a configuration, Validate the function
-- `validate` in its stages, Accepted what an accepted configuration has passed. Bridge/IpLimit is the
-- limit on connections of one address in latticeshield-bridge/src/server.rs with `IpCountGuard` of
-- latticeshield-bridge/src/ws.rs. Bridge/Handshake is the part of `handle_with_handshake_timeout` before the relay loop,
-- Bridge/ControlPlane latticeshield-bridge/src/control_plane.rs (Drift its arithmetic of times, Verified one reply, Loop a
-- whole run of `start`), Bridge/Admin latticeshield-bridge/src/admin.rs (Sequence its connections, Overlap those that overlap, Rate the limit of its
-- listener), Bridge/Ws/Stream the `WsStream` of latticeshield-bridge/src/ws.rs, and Bridge/Tls a connection to the TLS listener
-- of latticeshield-bridge/src/server.rs with the start of the relay of latticeshield-bridge/src/http_relay.rs. Bridge/Relay has
-- the two relays that copy bytes, that file (Verbatim) and `QuicRelay` of latticeshield-bridge/src/quic.rs (Streams). Bridge/Server is
-- the `run` of latticeshield-bridge/src/server.rs with its consumer of commands and its drain phase (Startup on an accepted
-- configuration, Drain its time), Bridge/Acceptor latticeshield-bridge/src/tls.rs. Client/Receive is the arm of `run_relay` of
-- latticeshield-client/src/client_session.rs that reads from the bridge, Client/Relay its loop, Client/Handshake,
-- Client/Reconnect and Client/Backoff the `do_handshake`, `handle` and `backoff` of the same file. Client/Pool is
-- latticeshield-client/src/pool.rs and Client/Config latticeshield-client/src/config.rs. Tunnel joins the two ends: the handshake of
-- the bridge against that of the client (Established, Reaches, Authentic), and the sender of the bridge against the
-- receiver of the client, up to the socket of the user.
-- Identity is the files of the keys, of latticeshield-bridge/src/identity.rs and
-- latticeshield-client/src/identity.rs, which are the same code with other names (Reload: what is saved is loaded).
-- Wasm is latticeshield-wasm/src, the client of the browser (Native compares it with the crypto crate, Served has the server
-- answer it). Cli is `vk-share` of latticeshield-cli/src/main.rs (Exchange, VkShare: its request against Bridge/Admin).
-- Tests has concrete instances and runs.
--
-- Third-party code is a parameter: AES-256-GCM and HKDF are the records of Crypto/Primitives with their
-- laws, X25519, ML-KEM-768 and ML-DSA-65 those of Crypto/Handshake and Crypto/Signing; SHA-256, the clock, what the generator
-- draws, the HTTP client, JSON, base64, the file system and the URL parser are arguments. No law states
-- that a forged frame or signature fails. A loop over frames, reads, heartbeats or connections is a list or an indexed data type of steps. The
-- reconnect loop runs on a number of attempts, for which `max_retries` and one are enough.
--
-- Not modelled: the cancellation of `read_frame` inside `select!`, the zeroing and locking of keys, logging and
-- most metrics, the reading of the configuration files, the accept loops but for their limits, and the set-up of QUIC.
pub mod Prelude
pub mod Crypto
pub mod Identity
pub mod Cli
pub mod Bridge
pub mod Client
pub mod Tunnel
pub mod Wasm
mod Tests
