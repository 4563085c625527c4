-- ===== src/Crypto/Channel/Ops.antt =====
-- The operations of `EncryptedChannel` in latticeshield-crypto/src/channel.rs. What `OsRng` draws is
-- an argument; `+=` on a counter wraps, as in the release profile.
use latticeshield.Prelude.{
  ℕ, ◌+◌, ◌-◌, ◌%◌, ◌^◌, true, false, ◌&&◌, [], ◌∷◌, ◌++◌, length, take, drop, ltb, leb, ◌==◌,
  if◌then◌else◌, Option,
}
use latticeshield.Prelude.Bytes.{Bytes, to_be_bytes, from_be_bytes}
use latticeshield.Crypto.Primitives.{Aead, Hkdf}
use latticeshield.Crypto.Channel.State.{
  EncryptedChannel, FrameError, FrameResult, RotateError, replay, aead_failure, invalid, io,
  bad_len, unknown_type, encrypt_failed, write_failed, plain, key_rotate, tag_len, nonce_len,
  seq_len, rotation_nonce_len, frame_data, frame_key_rotate, rotation_hkdf_info,
}
use latticeshield.Crypto.Channel.Link.{
  M, ◌>>=◌, ◌>>◌, pure, fail, get_channel, put_channel, or_fail, assert, read_exact, write_all,
  flush,
}
use mathlib.Core.Option

-- Bytes 0..8 of the nonce are the sequence number, bytes 8..12 the epoch.
unfoldable pub data_nonce : EncryptedChannel → Bytes
data_nonce c = to_be_bytes 8 c.send_seq ++ to_be_bytes 4 c.epoch

module _ (aead : Aead) where
  unfoldable pub write_frame : Bytes → M FrameError (Unit {0})
  write_frame text = do
    c ← get_channel
    let seq_be = to_be_bytes 8 c.send_seq
    let nonce = data_nonce c
    (ct, tag) ← or_fail aead_failure (aead.encrypt c.key_bytes nonce seq_be text)
    write_all io (frame_data ∷ [])
    write_all io (to_be_bytes 4 ((length ct + tag_len) % 2 ^ 32))
    write_all io seq_be
    write_all io nonce
    write_all io ct
    write_all io tag
    flush io
    put_channel (record c { send_seq = (c.send_seq + 1) % 2 ^ 64 })

  -- The arm of `read_frame` for DATA from the check of the sequence number on.
  unfoldable pub read_payload : ℕ → ℕ → M FrameError FrameResult
  read_payload len wire_seq = do
    c ← get_channel
    assert (if c.recv_initialized then ltb c.recv_seq wire_seq else true)
        (replay wire_seq c.recv_seq)
    nonce ← read_exact io nonce_len
    ct_and_tag ← read_exact io len
    let ct = take (len - tag_len) ct_and_tag
    let tag = drop (len - tag_len) ct_and_tag
    text ← or_fail aead_failure (aead.decrypt c.key_bytes nonce (to_be_bytes 8 wire_seq) ct tag)
    put_channel (record c { recv_seq = wire_seq; recv_initialized = true })
    pure (plain text)

  -- The whole arm for DATA.
  unfoldable pub read_data : M FrameError FrameResult
  read_data = do
    len_buf ← read_exact io 4
    let len = from_be_bytes len_buf
    c ← get_channel
    assert (leb tag_len len && leb len (c.max_frame_size + tag_len)) (invalid (bad_len len))
    seq_buf ← read_exact io seq_len
    read_payload len (from_be_bytes seq_buf)

  -- The arm of `read_frame` for KEY_ROTATE.
  unfoldable pub read_key_rotate : M FrameError FrameResult
  read_key_rotate = do
    gcm_nonce ← read_exact io nonce_len
    ct_and_tag ← read_exact io (rotation_nonce_len + tag_len)
    let ct = take rotation_nonce_len ct_and_tag
    let tag = drop rotation_nonce_len ct_and_tag
    c ← get_channel
    rotation_nonce ←
        or_fail aead_failure
          (aead.decrypt c.key_bytes gcm_nonce (to_be_bytes 8 c.key_rotate_recv_seq) ct tag)
    put_channel (record c { key_rotate_recv_seq = (c.key_rotate_recv_seq + 1) % 2 ^ 64 })
    pure (key_rotate rotation_nonce)

  unfoldable pub frame_arm : ℕ → M FrameError FrameResult
  frame_arm type =
      if type == frame_data
      then read_data
      else if type == frame_key_rotate
      then read_key_rotate
      else fail (invalid (unknown_type type))

  unfoldable pub read_frame : M FrameError FrameResult
  read_frame = do type_buf ← read_exact io 1; frame_arm (from_be_bytes type_buf)

  -- `gcm_nonce` is what `OsRng` draws.
  unfoldable pub send_key_rotate : Bytes → Bytes → M RotateError (Unit {0})
  send_key_rotate gcm_nonce nonce = do
    c ← get_channel
    (ct, tag) ←
        or_fail encrypt_failed
          (aead.encrypt c.key_bytes gcm_nonce (to_be_bytes 8 c.key_rotate_send_seq) nonce)
    write_all write_failed (frame_key_rotate ∷ [])
    write_all write_failed gcm_nonce
    write_all write_failed ct
    write_all write_failed tag
    flush write_failed
    put_channel (record c { key_rotate_send_seq = (c.key_rotate_send_seq + 1) % 2 ^ 64 })

-- `none` is the panic of `expect("HKDF expand")`.
module _ (hkdf : Hkdf) where
  abbrev pub rotated : EncryptedChannel → Bytes → EncryptedChannel
  rotated c new_key = record c {
    key_bytes = new_key;
    send_seq = 0;
    recv_seq = 0;
    recv_initialized = false;
    epoch = (c.epoch + 1) % 2 ^ 32;
  }

  unfoldable pub rotate_key : EncryptedChannel → Bytes → Option EncryptedChannel
  rotate_key c nonce = Option.map (rotated c) (hkdf.expand nonce c.key_bytes rotation_hkdf_info 32)
