-- ===== src/Crypto/Channel/Directions.antt =====
-- The two endpoints of a session make their channels from one session key, and nothing in
-- latticeshield-crypto/src/channel.rs tells one direction from the other.
use latticeshield.Prelude.{
  ℕ, suc, ◌+◌, ◌^◌, ◌<◌, ◌≡◌, refl, ap, subst, ◌∙◌, ◌++◌, length, ok, arith,
}
use latticeshield.Prelude.Bytes.{Bytes}
use latticeshield.Crypto.Primitives.{Aead, AeadLaws}
use latticeshield.Crypto.Channel.State.{new, plain}
use latticeshield.Crypto.Channel.Link.{Link, fed, wrote, joined-append}
use latticeshield.Crypto.Channel.Wire.{
  Acceptable, data_pieces, data_frame, sent_one, received_one, read_frame_wire,
}
use latticeshield.Crypto.Channel.Writing.{Writes, write_frame-Writes, write_frame_sent}
use latticeshield.Crypto.Channel.Ops.{data_nonce, write_frame, read_frame}

-- A number of frames written one after the other.
module _ (aead : Aead) where
  pub data Frames (l : Link) : ℕ → Link → Type 0 where
    start : Frames l 0 l
    more :
        {n : ℕ} {m : Link}
        → Frames l n m
        → (text : Bytes) (k : Link) → write_frame aead text m ≡ (ok tt, k)
        → Frames l (suc n) k

  Frames-channel :
      {l m : Link} {n : ℕ}
      → Frames l n m
      → l.channel.send_seq + n < 2 ^ 64
      → m.channel ≡ record l.channel { send_seq = l.channel.send_seq + n }
  Frames-channel {l} start h = ap (λ n. record l.channel { send_seq = n }) (omega arith)
  Frames-channel {l} (more {n} {m} f text k e) h =
      let before : m.channel ≡ record l.channel { send_seq = l.channel.send_seq + n } =
        Frames-channel f (omega arith) in
      (subst (Writes m (sent_one m.channel)) e (write_frame-Writes aead text m)).0
      ∙ ap sent_one before
      ∙ ap (λ s. record l.channel { send_seq = s }) (omega arith)

  -- Two endpoints with fresh channels of one session key that have each written `n` frames, with
  -- `n` below 2^64, encrypt their next frames under the same key with the same nonce.
  pub shared_nonces :
      (key : Bytes) (size size' n : ℕ) {l m k j : Link}
      → l.channel ≡ new key size
      → k.channel ≡ new key size'
      → n < 2 ^ 64
      → Frames l n m
      → Frames k n j
      → (m.channel.key_bytes ≡ j.channel.key_bytes) × (data_nonce m.channel ≡ data_nonce j.channel)
  unfolding data_nonce new
  shared_nonces key size size' n {l} {m} {k} {j} a b h f g = rw (here, there) (refl, refl)
    where
      here : m.channel ≡ record (new key size) { send_seq = n }
      here =
          Frames-channel f (rw a (omega arith))
          ∙ rw a (ap (λ s. record (new key size) { send_seq = s }) (omega arith))

      there : j.channel ≡ record (new key size') { send_seq = n }
      there =
          Frames-channel g (rw b (omega arith))
          ∙ rw b (ap (λ s. record (new key size') { send_seq = s }) (omega arith))

  -- An endpoint that is sent its own frame back accepts it: where `write_frame` succeeds and the
  -- endpoint's own checks admit the frame's sequence number and size, reading the written bytes
  -- with the channel that wrote them returns the text.
  pub reflected :
      AeadLaws aead
      → (text rest : Bytes) (l m : Link) → Acceptable l.channel l.channel.send_seq (length text)
      → write_frame aead text l ≡ (ok tt, m)
      → (w : Bytes) × (m.output.sent ≡ l.output.sent ++ w)
        × (read_frame aead (fed (w ++ rest) m) ≡ (
          ok (plain text),
          record m { channel = received_one m.channel l.channel.send_seq; input = rest },
        ))
  reflected laws text rest l m a e =
      let (ct, tag, c, moved) = write_frame_sent aead text l m e in
      rw moved (
        data_frame l.channel ct tag,
        refl,
        rw (joined-append (data_pieces l.channel ct tag) rest) (
            read_frame_wire aead laws l.channel
              (record l {
                channel = sent_one l.channel;
                output = wrote (data_frame l.channel ct tag) l.output;
              })
              text ct tag rest c refl
              (record { newer = a.newer; fits = a.fits; u32 = a.u32; u64 = a.u64 })),
      )
