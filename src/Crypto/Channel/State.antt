-- ===== src/Crypto/Channel/State.antt =====
-- The state, the errors and the constants of latticeshield-crypto/src/channel.rs.
use latticeshield.Prelude.{ℕ, ◌+◌, Bool, false, [], ◌∷◌}
use latticeshield.Prelude.Bytes.{Bytes}

abbrev pub nonce_len : ℕ
nonce_len = 12

abbrev pub tag_len : ℕ
tag_len = 16

abbrev pub seq_len : ℕ
seq_len = 8

abbrev pub rotation_nonce_len : ℕ
rotation_nonce_len = 32

abbrev pub frame_data : ℕ
frame_data = 0x01

abbrev pub frame_key_rotate : ℕ
frame_key_rotate = 0x02

-- The bytes of "latticeshield-v1-key-rotation".
abbrev pub rotation_hkdf_info : Bytes
rotation_hkdf_info =
    b'l' ∷ b'a' ∷ b't' ∷ b't' ∷ b'i' ∷ b'c' ∷ b'e' ∷ b's' ∷ b'h' ∷ b'i' ∷ b'e' ∷ b'l' ∷ b'd' ∷ b'-'
    ∷ b'v' ∷ b'1' ∷ b'-' ∷ b'k' ∷ b'e' ∷ b'y' ∷ b'-' ∷ b'r' ∷ b'o' ∷ b't' ∷ b'a' ∷ b't' ∷ b'i'
    ∷ b'o' ∷ b'n' ∷ []

abbrev pub key_rotate_frame_len : ℕ
key_rotate_frame_len = 1 + nonce_len + rotation_nonce_len + tag_len

-- The two messages of `FrameError::Invalid`.
pub data InvalidFrame : Type 0 where
  bad_len : ℕ → InvalidFrame
  unknown_type : ℕ → InvalidFrame

pub data FrameError : Type 0 where
  replay : (received last_seen : ℕ) → FrameError
  aead_failure : FrameError
  invalid : InvalidFrame → FrameError
  io : FrameError

-- The errors of `send_key_rotate`, which are `anyhow` messages in the source.
pub data RotateError : Type 0 where
  encrypt_failed : RotateError
  write_failed : RotateError

pub data FrameResult : Type 0 where
  plain : Bytes → FrameResult
  key_rotate : Bytes → FrameResult

-- The cipher is a function of the key, so `key_bytes` stands for both fields of the source.
pub record EncryptedChannel : Type 0 where
  pub key_bytes : Bytes
  pub max_frame_size : ℕ
  pub send_seq : ℕ
  pub recv_seq : ℕ
  pub recv_initialized : Bool
  pub key_rotate_send_seq : ℕ
  pub key_rotate_recv_seq : ℕ
  pub epoch : ℕ

unfoldable pub new : Bytes → ℕ → EncryptedChannel
new session_key max_frame_size = record {
  key_bytes = session_key;
  max_frame_size = max_frame_size;
  send_seq = 0;
  recv_seq = 0;
  recv_initialized = false;
  key_rotate_send_seq = 0;
  key_rotate_recv_seq = 0;
  epoch = 0;
}
