-- ===== src/Bridge/Handshake.antt =====
-- The handshake of `handle_with_handshake_timeout` in latticeshield-bridge/src/session.rs, up to the session
-- of the relay loop. Whether the timeout elapses and whether the backend answers are arguments.
use latticeshield.Prelude.{
  ℕ, Bool, if◌then◌else◌, Option, none, some, Result, ok, err, ok_or, map_err, ◌>>=?◌,
}
use latticeshield.Prelude.Bytes.{Bytes}
use latticeshield.Crypto.Primitives.{Hkdf}
use latticeshield.Crypto.Signing.{MlDsa}
use latticeshield.Crypto.Stream.{Stream, read_exact, write_all, flush}
use latticeshield.Crypto.Handshake.{
  HandshakeError, X25519, MlKem, ServerHandshake, ServerDraws, new, server_hello_signed_bytes,
  complete_from_wire, complete_from_wire_signed, client_response_len, client_response_signed_len,
}
use latticeshield.Crypto.Channel.State
use latticeshield.Crypto.Channel.Link.{Writer}
use latticeshield.Bridge.Session.{Session, MetricsState}

pub data HandshakeFailure : Type 0 where
  signing : HandshakeError → HandshakeFailure
  hello_write hello_flush response_read : HandshakeFailure
  client_authentication : HandshakeError → HandshakeFailure
  handshake : HandshakeError → HandshakeFailure

-- How the part before the relay loop ends.
pub data Start : Type 0 where
  timed_out : Start
  fails : HandshakeFailure → Start
  no_backend : Start
  relays : Session → Start

module _ {Dk Ek : Type 0} (dsa : MlDsa) (x : X25519) (kem : MlKem Dk Ek) (hkdf : Hkdf) where
  -- Where clients authenticate, the response is signed and `client_auth` is the client's key.
  unfoldable pub read_response :
      (client_auth : Option Bytes)
      → ServerHandshake Dk Ek
      → Stream
      → Result HandshakeFailure (Bytes × Stream)
  read_response none server s = ok_or (read_exact client_response_len s) response_read >>=? λ r.
      map_err handshake (complete_from_wire dsa x kem hkdf server r.0) >>=? λ session_key.
      ok (session_key, r.1)
  read_response (some client_vk) server s =
      ok_or (read_exact client_response_signed_len s) response_read >>=? λ r.
      map_err client_authentication (complete_from_wire_signed dsa x kem hkdf server r.0 client_vk)
      >>=? λ session_key. ok (session_key, r.1)

  unfoldable pub handshake_with :
      (draws : ServerDraws) (randomness signing_key : Bytes) (client_auth : Option Bytes)
      → Stream
      → Result HandshakeFailure (Bytes × Stream)
  handshake_with draws randomness signing_key client_auth s =
      map_err signing
        (server_hello_signed_bytes dsa x kem hkdf (new dsa x kem hkdf draws) signing_key randomness)
      >>=? λ hello_bytes. ok_or (write_all hello_bytes s) hello_write >>=? λ s1.
          ok_or (flush s1) hello_flush >>=? λ s2.
          read_response client_auth (new dsa x kem hkdf draws) s2

  -- A new session: a fresh channel over the rest of the connection, and nothing counted for its key.
  unfoldable pub session_of :
      (max_frame_size : ℕ) → MetricsState → (session_key : Bytes) → Stream → Writer → Session
  session_of max_frame_size metrics_state session_key s backend_w = record {
    link = record {
      channel = State.new session_key max_frame_size;
      input = s.input;
      output = s.output;
    };
    backend_w = backend_w;
    bytes_this_epoch = 0;
    metrics_state = metrics_state;
  }

  -- `backend` is the writing half of the connection to the backend, where there is one.
  unfoldable pub connect :
      (max_frame_size : ℕ)
      → MetricsState
      → Option Writer
      → Result HandshakeFailure (Bytes × Stream)
      → Start
  connect max_frame_size metrics_state backend (err e) = fails e
  connect max_frame_size metrics_state none (ok r) = no_backend
  connect max_frame_size metrics_state (some w) (ok r) =
      relays (session_of max_frame_size metrics_state r.0 r.1 w)

  unfoldable pub start :
      (elapsed : Bool) (max_frame_size : ℕ)
      → MetricsState
      → Option Writer
      → (draws : ServerDraws) (randomness signing_key : Bytes) (client_auth : Option Bytes) → Stream
      → Start
  start elapsed max_frame_size metrics_state backend draws randomness signing_key client_auth s =
      if elapsed
      then timed_out
      else connect max_frame_size metrics_state backend
          (handshake_with draws randomness signing_key client_auth s)
