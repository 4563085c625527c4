-- ===== src/Crypto/Channel/Writing.antt =====
-- `write_frame` and `send_key_rotate` of latticeshield-crypto/src/channel.rs on any connection, also
-- one that breaks.
use latticeshield.Prelude.{
  ◌+◌, ◌%◌, ◌^◌, ◌≡◌, refl, List, [], inl, inr, some, Option-cases, Result, ok, err,
}
use latticeshield.Prelude.Bytes.{Bytes, to_be_bytes}
use latticeshield.Crypto.Primitives.{Aead}
use latticeshield.Crypto.Channel.State.{EncryptedChannel, io, write_failed}
use latticeshield.Crypto.Channel.Link.{
  Link, put_channel, or_fail, wrote, joined, write_pieces, write_pieces-cases, write_pieces_ok,
}
use latticeshield.Crypto.Channel.Wire.{data_pieces, data_frame, rotate_pieces, sent_one}
use latticeshield.Crypto.Channel.Ops.{data_nonce, write_frame, send_key_rotate}

-- The channel moves on only if the whole frame was written, and the input is never touched.
abbrev pub Writes : {E : Type 0} → Link → EncryptedChannel → Result E (Unit {0}) × Link → Type 0
Writes l next (ok _, m) = (m.channel ≡ next) × (m.input ≡ l.input)
Writes l next (err _, m) = (m.channel ≡ l.channel) × (m.input ≡ l.input)

abbrev pub sent_rotate : EncryptedChannel → EncryptedChannel
sent_rotate c = record c { key_rotate_send_seq = (c.key_rotate_send_seq + 1) % 2 ^ 64 }

write_pieces-Writes :
    {E : Type 0} (e : E) (ps : List Bytes) (next : EncryptedChannel) (l : Link)
    → Writes l next (write_pieces e ps (put_channel next) l)
write_pieces-Writes e ps next l =
    let (w, d) = write_pieces-cases e ps (put_channel next) l in
    elim d [ inl h ↦ rw h (refl, refl) | inr h ↦ rw h (refl, refl) ]

module _ (aead : Aead) where
  -- `write_frame` raises the sequence number by one where it succeeds and leaves the channel as it
  -- was where it fails, also where the connection breaks in the middle of a frame. It never touches
  -- the input.
  pub write_frame-Writes :
      (text : Bytes) (l : Link) → Writes l (sent_one l.channel) (write_frame aead text l)
  unfolding write_frame
  write_frame-Writes text l =
      elim (Option-cases (
        aead.encrypt l.channel.key_bytes (data_nonce l.channel) (to_be_bytes 8 l.channel.send_seq)
          text)) [
            | inl e ↦ rw e (refl, refl)
            | inr ((ct, tag), e) ↦
                rw e (write_pieces-Writes io (data_pieces l.channel ct tag) (sent_one l.channel) l)
          ]

  pub send_key_rotate-Writes :
      (gcm_nonce nonce : Bytes) (l : Link)
      → Writes l (sent_rotate l.channel) (send_key_rotate aead gcm_nonce nonce l)
  unfolding send_key_rotate
  send_key_rotate-Writes gcm_nonce nonce l =
      elim (Option-cases (
        aead.encrypt l.channel.key_bytes gcm_nonce (to_be_bytes 8 l.channel.key_rotate_send_seq)
          nonce)) [
            | inl e ↦ rw e (refl, refl)
            | inr ((ct, tag), e) ↦ rw e (
                write_pieces-Writes write_failed (rotate_pieces gcm_nonce ct tag)
                  (sent_rotate l.channel) l)
          ]

  -- A frame that was written stands at the end of the output, encrypted.
  pub write_frame_sent :
      (text : Bytes) (l m : Link)
      → write_frame aead text l ≡ (ok tt, m)
      → (ct : Bytes) × (tag : Bytes) × (aead.encrypt l.channel.key_bytes
            (data_nonce l.channel)
            (to_be_bytes 8 l.channel.send_seq)
            text
          ≡ some (ct, tag))
        × (m ≡ record l {
          channel = sent_one l.channel;
          output = wrote (data_frame l.channel ct tag) l.output;
        })
  unfolding write_frame
  write_frame_sent text l m h =
      elim (Option-cases (
        aead.encrypt l.channel.key_bytes (data_nonce l.channel) (to_be_bytes 8 l.channel.send_seq)
          text)) [
            | inl e ↦ cc (rw (e, or_fail) at h)
            | inr ((ct, tag), e) ↦ (
              ct,
              tag,
              e,
              write_pieces_ok io (data_pieces l.channel ct tag) (sent_one l.channel) l m
                  (rw (e, or_fail) at h),
            )
          ]

  pub send_key_rotate_sent :
      (gcm_nonce nonce : Bytes) (l m : Link)
      → send_key_rotate aead gcm_nonce nonce l ≡ (ok tt, m)
      → (ct : Bytes) × (tag : Bytes) × (aead.encrypt l.channel.key_bytes gcm_nonce
            (to_be_bytes 8 l.channel.key_rotate_send_seq)
            nonce
          ≡ some (ct, tag))
        × (m ≡ record l {
          channel = sent_rotate l.channel;
          output = wrote (joined (rotate_pieces gcm_nonce ct tag) []) l.output;
        })
  unfolding send_key_rotate
  send_key_rotate_sent gcm_nonce nonce l m h =
      elim (Option-cases (
        aead.encrypt l.channel.key_bytes gcm_nonce (to_be_bytes 8 l.channel.key_rotate_send_seq)
          nonce)) [
            | inl e ↦ cc (rw (e, or_fail) at h)
            | inr ((ct, tag), e) ↦ (
              ct,
              tag,
              e,
              write_pieces_ok write_failed (rotate_pieces gcm_nonce ct tag) (sent_rotate l.channel)
                  l m (rw (e, or_fail) at h),
            )
          ]
