-- ===== src/Tunnel/Sync.antt =====
-- What a sender and a receiver agree on while no frame is under way, and how one frame keeps it.
use latticeshield.Prelude.{
  ◌+◌, ◌%◌, ◌^◌, ◌<◌, ◌≤◌, ◌≡◌, refl, sym, ap, ap₂, subst, ◌∙◌, [], ◌++◌, length, lt→ltb, Option,
  none, some, Option-cases, inl, inr, Result, ok, err, arith,
}
use latticeshield.Prelude.Bytes.{Bytes, to_be_bytes}
use latticeshield.Crypto.Primitives.{Aead, AeadLaws, Hkdf}
use latticeshield.Crypto.Channel.State.{rotation_hkdf_info, EncryptedChannel, RotateError, tag_len}
use latticeshield.Crypto.Channel.Link.{Link, fed, wrote, joined, joined-append}
use latticeshield.Crypto.Channel.Wire.{
  data_pieces, data_frame, rotate_pieces, received_one, read_frame_wire, read_frame_rotate,
}
use latticeshield.Crypto.Channel.Reading.{IsNewer}
use latticeshield.Crypto.Channel.Writing.{sent_rotate, write_frame_sent, send_key_rotate_sent}
use latticeshield.Crypto.Channel.Ops.{write_frame, send_key_rotate, rotate_key, rotated}
use latticeshield.Bridge.Rotate.{do_rotate}
use latticeshield.Client.Receive.{receive}

-- One key, one epoch, equal rotation counters, and a next frame that the receiver takes.
pub record Synced (s r : EncryptedChannel) : Type 0 where
  pub same_key : r.key_bytes ≡ s.key_bytes
  pub same_epoch : r.epoch ≡ s.epoch
  pub same_rotations : r.key_rotate_recv_seq ≡ s.key_rotate_send_seq
  pub newer : IsNewer r s.send_seq
  pub u32 : r.max_frame_size + tag_len < 2 ^ 32

module _ (aead : Aead) (hkdf : Hkdf) (laws : AeadLaws aead) where
  -- The bytes that a step of the sender wrote, and what the receiver makes of them.
  abbrev pub Carries : Option Bytes → Link → Link → Link → Type 0
  Carries item s s' r =
      (w : Bytes) × (s'.output.sent ≡ s.output.sent ++ w)
      × (r' : EncryptedChannel) × Synced s'.channel r'
      × (r'.max_frame_size ≡ r.channel.max_frame_size)
      × (s'.channel.send_seq ≤ s.channel.send_seq + 1)
      × ((rest : Bytes)
          → receive aead hkdf (fed (w ++ rest) r)
            ≡ (ok item, record r { channel = r'; input = rest }))

  pub frame_carried :
      (text : Bytes) (s s' r : Link)
      → Synced s.channel r.channel
      → length text ≤ r.channel.max_frame_size
      → s.channel.send_seq + 1 < 2 ^ 64
      → write_frame aead text s ≡ (ok tt, s')
      → Carries (some text) s s' r
  unfolding receive
  frame_carried text s s' r sync fits u64 e =
      let (ct, tag, c, moved) = write_frame_sent aead text s s' e in
      rw moved (
        data_frame s.channel ct tag,
        refl,
        received_one r.channel s.channel.send_seq,
        record {
          same_key = sync.same_key;
          same_epoch = sync.same_epoch;
          same_rotations = sync.same_rotations;
          newer = lt→ltb s.channel.send_seq ((s.channel.send_seq + 1) % 2 ^ 64) (omega arith);
          u32 = sync.u32;
        },
        refl,
        omega arith,
        λ rest. rw (
          joined-append (data_pieces s.channel ct tag) rest,
          read_frame_wire aead laws s.channel r text ct tag rest c sync.same_key
              (record { newer = sync.newer; fits = fits; u32 = sync.u32; u64 = omega arith }),
        ),
      )

  rotate_key-some :
      (c : EncryptedChannel) (nonce : Bytes) (d : EncryptedChannel)
      → rotate_key hkdf c nonce ≡ some d
      → (key : Bytes) × (hkdf.expand nonce c.key_bytes rotation_hkdf_info 32 ≡ some key)
        × (d ≡ rotated hkdf c key)
  unfolding rotate_key
  rotate_key-some c nonce d e =
      elim (Option-cases (hkdf.expand nonce c.key_bytes rotation_hkdf_info 32)) [
        | inl h ↦ cc (rw h at e)
        | inr (key, h) ↦ (key, h, cc (rw h at e))
      ]

  do_rotate_ok :
      (gcm_nonce nonce : Bytes) (s s' : Link)
      → do_rotate aead hkdf gcm_nonce nonce s ≡ (ok tt, s')
      → (m : Link) × (send_key_rotate aead gcm_nonce nonce s ≡ (ok tt, m))
        × (d : EncryptedChannel) × (rotate_key hkdf m.channel nonce ≡ some d)
        × (s' ≡ record m { channel = d })
  unfolding do_rotate
  do_rotate_ok gcm_nonce nonce s s' e = go (send_key_rotate aead gcm_nonce nonce s) refl
    where
      go :
          (x : Result RotateError (Unit {0}) × Link)
          → send_key_rotate aead gcm_nonce nonce s ≡ x
          → (m : Link) × (send_key_rotate aead gcm_nonce nonce s ≡ (ok tt, m))
            × (d : EncryptedChannel) × (rotate_key hkdf m.channel nonce ≡ some d)
            × (s' ≡ record m { channel = d })
      go (err x, m) h = cc (rw h at e)
      go (ok _, m) h = elim (Option-cases (rotate_key hkdf m.channel nonce)) [
        | inl k ↦ cc (rw (h, k) at e)
        | inr (d, k) ↦ (m, h, d, k, sym (ap (λ x. x.1) (rw (h, k) at e)))
      ]

  do_rotate_sent :
      (gcm_nonce nonce : Bytes) (s s' : Link)
      → do_rotate aead hkdf gcm_nonce nonce s ≡ (ok tt, s')
      → (ct : Bytes) × (tag : Bytes) × (key : Bytes) × (aead.encrypt s.channel.key_bytes gcm_nonce
            (to_be_bytes 8 s.channel.key_rotate_send_seq)
            nonce
          ≡ some (ct, tag))
        × (hkdf.expand nonce s.channel.key_bytes rotation_hkdf_info 32 ≡ some key)
        × (s' ≡ record s {
          channel = rotated hkdf (sent_rotate s.channel) key;
          output = wrote (joined (rotate_pieces gcm_nonce ct tag) []) s.output;
        })
  do_rotate_sent gcm_nonce nonce s s' e =
      let (m, sent, d, turned, moved) = do_rotate_ok gcm_nonce nonce s s' e in
      let (ct, tag, c, announced) = send_key_rotate_sent aead gcm_nonce nonce s m sent in
      let (key, k, fresh) = rotate_key-some m.channel nonce d turned in
      (
        ct,
        tag,
        key,
        c,
        subst (λ l. hkdf.expand nonce l.channel.key_bytes rotation_hkdf_info 32 ≡ some key)
            announced k,
        moved
            ∙ ap₂ {A = Link} (λ l x. record l { channel = x }) announced
                (fresh ∙ ap (λ l. rotated hkdf l.channel key) announced),
      )

  pub rotation_carried :
      (gcm_nonce nonce : Bytes) (s s' r : Link)
      → Synced s.channel r.channel
      → length gcm_nonce ≡ 12
      → length nonce ≡ 32
      → do_rotate aead hkdf gcm_nonce nonce s ≡ (ok tt, s')
      → Carries none s s' r
  unfolding receive rotate_key
  rotation_carried gcm_nonce nonce s s' r sync hg hn e =
      let (ct, tag, key, c, k, moved) = do_rotate_sent gcm_nonce nonce s s' e in
      rw moved (
        joined (rotate_pieces gcm_nonce ct tag) [],
        refl,
        rotated hkdf
            (record r.channel {
              key_rotate_recv_seq = (r.channel.key_rotate_recv_seq + 1) % 2 ^ 64;
            })
            key,
        record {
          same_key = refl;
          same_epoch = ap (λ n. (n + 1) % 2 ^ 32) sync.same_epoch;
          same_rotations = ap (λ n. (n + 1) % 2 ^ 64) sync.same_rotations;
          newer = refl;
          u32 = sync.u32;
        },
        refl,
        omega arith,
        λ rest. rw (
          joined-append (rotate_pieces gcm_nonce ct tag) rest,
          read_frame_rotate aead laws s.channel.key_rotate_send_seq r gcm_nonce nonce ct tag rest
              (rw sync.same_key c) sync.same_rotations hg hn,
          sync.same_key,
          k,
        ),
      )
