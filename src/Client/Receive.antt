-- ===== src/Client/Receive.antt =====
-- The arm of `run_relay` in latticeshield-client/src/client_session.rs that reads from the bridge.
use latticeshield.Prelude.{Option, none, some}
use latticeshield.Prelude.Bytes.{Bytes}
use latticeshield.Crypto.Primitives.{Aead, Hkdf}
use latticeshield.Crypto.Channel.State.{FrameError, FrameResult, plain, key_rotate}
use latticeshield.Crypto.Channel.Link.{
  M, Fault, faulting, some_or_panic, ◌>>=◌, ◌>>◌, pure, get_channel, put_channel,
}
use latticeshield.Crypto.Channel.Ops.{read_frame, rotate_key}

module _ (aead : Aead) (hkdf : Hkdf) where
  handle_frame : FrameResult → M (Fault FrameError) (Option Bytes)
  handle_frame (plain text) = pure (some text)
  handle_frame (key_rotate nonce) = do
    c ← get_channel
    some_or_panic (rotate_key hkdf c nonce) >>= put_channel
    pure none

  -- The bytes for the user, or none where the frame was a rotation.
  unfoldable pub receive : M (Fault FrameError) (Option Bytes)
  unfolding handle_frame
  receive = faulting (read_frame aead) >>= handle_frame
