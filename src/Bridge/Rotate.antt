-- ===== src/Bridge/Rotate.antt =====
-- `do_rotate` of latticeshield-bridge/src/session.rs over the channel and the client's connection.
-- Its counter of rotations is in Bridge/Session.
use latticeshield.Prelude.Bytes.{Bytes}
use latticeshield.Crypto.Primitives.{Aead, Hkdf}
use latticeshield.Crypto.Channel.State.{RotateError}
use latticeshield.Crypto.Channel.Link.{
  M, Fault, faulting, some_or_panic, ◌>>=◌, ◌>>◌, get_channel, put_channel,
}
use latticeshield.Crypto.Channel.Ops.{send_key_rotate, rotate_key}

module _ (aead : Aead) (hkdf : Hkdf) where
  -- What `OsRng` draws, for the frame and for the rotation, are arguments.
  unfoldable pub do_rotate : Bytes → Bytes → M (Fault RotateError) (Unit {0})
  do_rotate gcm_nonce nonce = do
    faulting (send_key_rotate aead gcm_nonce nonce)
    c ← get_channel
    some_or_panic (rotate_key hkdf c nonce) >>= put_channel
