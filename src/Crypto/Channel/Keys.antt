-- ===== src/Crypto/Channel/Keys.antt =====
-- `rotate_key` of latticeshield-crypto/src/channel.rs.
use latticeshield.Prelude.{◌+◌, ◌%◌, ◌^◌, ◌≡◌, refl, false, length, some, arith}
use latticeshield.Prelude.Bytes.{Bytes}
use latticeshield.Crypto.Primitives.{Hkdf, HkdfLaws}
use latticeshield.Crypto.Channel.State.{EncryptedChannel, rotation_hkdf_info}
use latticeshield.Crypto.Channel.Ops.{rotate_key, rotated}

-- A new epoch with a key of 32 bytes. The counters of rotations go on.
pub record NewEpoch (c d : EncryptedChannel) : Type 0 where
  pub key_length : length d.key_bytes ≡ 32
  pub next_epoch : d.epoch ≡ (c.epoch + 1) % 2 ^ 32
  pub nothing_sent : d.send_seq ≡ 0
  pub nothing_received : d.recv_initialized ≡ false
  pub same_send_rotations : d.key_rotate_send_seq ≡ c.key_rotate_send_seq
  pub same_recv_rotations : d.key_rotate_recv_seq ≡ c.key_rotate_recv_seq
  pub same_size : d.max_frame_size ≡ c.max_frame_size

module _ (hkdf : Hkdf) (laws : HkdfLaws hkdf) where
  -- `rotate_key` never panics, and two channels with one key that rotate with the same nonce begin new
  -- epochs with one key of 32 bytes: their DATA counters start again, and their rotation counters and
  -- frame sizes stay as they are.
  pub rotate_key-NewEpoch :
      (nonce : Bytes) (c c' : EncryptedChannel)
      → c.key_bytes ≡ c'.key_bytes
      → (d : EncryptedChannel) × (d' : EncryptedChannel) × (rotate_key hkdf c nonce ≡ some d)
        × (rotate_key hkdf c' nonce ≡ some d')
        × (d.key_bytes ≡ d'.key_bytes)
        × NewEpoch c d
        × NewEpoch c' d'
  unfolding rotate_key
  rotate_key-NewEpoch nonce c c' same =
      let (okm, e, n) = laws.expands nonce c'.key_bytes rotation_hkdf_info 32 (omega arith) in
      (
        rotated hkdf c okm,
        rotated hkdf c' okm,
        rw (same, e) refl,
        rw e refl,
        refl,
        record {
          key_length = n;
          next_epoch = refl;
          nothing_sent = refl;
          nothing_received = refl;
          same_send_rotations = refl;
          same_recv_rotations = refl;
          same_size = refl;
        },
        record {
          key_length = n;
          next_epoch = refl;
          nothing_sent = refl;
          nothing_received = refl;
          same_send_rotations = refl;
          same_recv_rotations = refl;
          same_size = refl;
        },
      )
