-- ===== src/Crypto/Channel/Wire.antt =====
-- The bytes of the two kinds of frame: what the writers of latticeshield-crypto/src/channel.rs put on
-- the wire, and what `read_frame` makes of them.
use latticeshield.Prelude.{
  ℕ, ◌+◌, ◌-◌, ◌%◌, ◌^◌, ◌<◌, ◌≤◌, ◌≡◌, refl, ◌∙◌, true, List, [], ◌∷◌, ◌++◌, length, take, drop,
  append_assoc, length-append, take-append, drop-append, ltb, le→leb, if◌then◌else◌, some, ok,
  arith,
}
use latticeshield.Prelude.Bytes.{
  Bytes, to_be_bytes, from_be_bytes, length-to_be_bytes, from_be_bytes-to_be_bytes,
}
use latticeshield.Crypto.Primitives.{Aead, AeadLaws}
use latticeshield.Crypto.Channel.State.{
  EncryptedChannel, plain, key_rotate, tag_len, frame_data, frame_key_rotate, io,
}
use latticeshield.Crypto.Channel.Link.{
  Link, joined, put_channel, write_pieces_then, read_then, wrote, fed,
}
use latticeshield.Crypto.Channel.Ops.{
  data_nonce, write_frame, read_payload, read_data, read_key_rotate, frame_arm, read_frame,
}

-- The fields of a DATA frame in their order.
abbrev pub data_pieces : EncryptedChannel → Bytes → Bytes → List Bytes
data_pieces c ct tag =
    (frame_data ∷ [])
    ∷ to_be_bytes 4 ((length ct + tag_len) % 2 ^ 32)
    ∷ to_be_bytes 8 c.send_seq
    ∷ data_nonce c
    ∷ ct
    ∷ tag
    ∷ []

-- The fields of a KEY_ROTATE frame in their order.
abbrev pub rotate_pieces : Bytes → Bytes → Bytes → List Bytes
rotate_pieces gcm_nonce ct tag = (frame_key_rotate ∷ []) ∷ gcm_nonce ∷ ct ∷ tag ∷ []

abbrev pub data_frame : EncryptedChannel → Bytes → Bytes → Bytes
data_frame c ct tag = joined (data_pieces c ct tag) []

pub length-data_nonce : (c : EncryptedChannel) → length (data_nonce c) ≡ 12
unfolding data_nonce
length-data_nonce c = omega (
  arith,
  length-append (to_be_bytes 8 c.send_seq) (to_be_bytes 4 c.epoch),
  length-to_be_bytes 8 c.send_seq,
  length-to_be_bytes 4 c.epoch,
)

abbrev pub sent_one : EncryptedChannel → EncryptedChannel
sent_one c = record c { send_seq = (c.send_seq + 1) % 2 ^ 64 }

pub length-data_frame :
    (c : EncryptedChannel) (ct tag : Bytes)
    → length (data_frame c ct tag) ≡ 25 + length ct + length tag
length-data_frame c ct tag = omega (
  arith,
  length-append {0},
  length-data_nonce c,
  length-to_be_bytes 8 c.send_seq,
  length-to_be_bytes 4 ((length ct + tag_len) % 2 ^ 32),
)

module _ (aead : Aead) where
  pub write_frame_wire :
      (l : Link) (text ct tag : Bytes)
      → aead.encrypt l.channel.key_bytes
          (data_nonce l.channel)
          (to_be_bytes 8 l.channel.send_seq)
          text
        ≡ some (ct, tag)
      → 25 + length ct + length tag ≤ l.output.room
      → l.output.flushes ≡ true
      → write_frame aead text l ≡ (
        ok tt,
        record l {
          channel = sent_one l.channel;
          output = wrote (data_frame l.channel ct tag) l.output;
        },
      )
  unfolding write_frame
  write_frame_wire l text ct tag e room f = rw e (
      write_pieces_then io (data_pieces l.channel ct tag) (put_channel (sent_one l.channel)) l
        (omega (arith, length-data_frame l.channel ct tag)) f)

-- What the receiver's checks ask of a frame with sequence number `seq` and a text of `n` bytes.
pub record Acceptable (c : EncryptedChannel) (seq n : ℕ) : Type 0 where
  pub newer : (if c.recv_initialized then ltb c.recv_seq seq else true) ≡ true
  pub fits : n ≤ c.max_frame_size
  pub u32 : c.max_frame_size + tag_len < 2 ^ 32
  pub u64 : seq < 2 ^ 64

abbrev pub received_one : EncryptedChannel → ℕ → EncryptedChannel
received_one c seq = record c { recv_seq = seq; recv_initialized = true }

module _ (aead : Aead) where
  -- The length and the sequence number of a frame whose length passes the check.
  pub read_data_header :
      (len seq : ℕ) (ys : Bytes) (l : Link)
      → tag_len ≤ len
      → len ≤ l.channel.max_frame_size + tag_len
      → len < 2 ^ 32
      → seq < 2 ^ 64
      → read_data aead (fed (to_be_bytes 4 len ++ (to_be_bytes 8 seq ++ ys)) l)
        ≡ read_payload aead len seq (fed ys l)
  unfolding read_data
  read_data_header len seq ys l lo hi u32 u64 =
      read_then io 4 (to_be_bytes 4 len) _ _ l (length-to_be_bytes 4 len)
      ∙ rw
          (
            from_be_bytes-to_be_bytes 4 len u32,
            le→leb tag_len len lo,
            le→leb len (l.channel.max_frame_size + tag_len) hi,
          )
          (read_then io 8 (to_be_bytes 8 seq) ys _ l (length-to_be_bytes 8 seq)
            ∙ rw (from_be_bytes-to_be_bytes 8 seq u64))

  pub read_frame_header :
      (len seq : ℕ) (ys : Bytes) (l : Link)
      → tag_len ≤ len
      → len ≤ l.channel.max_frame_size + tag_len
      → len < 2 ^ 32
      → seq < 2 ^ 64
      → read_frame aead (fed (frame_data ∷ (to_be_bytes 4 len ++ (to_be_bytes 8 seq ++ ys))) l)
        ≡ read_payload aead len seq (fed ys l)
  unfolding read_frame frame_arm from_be_bytes
  read_frame_header len seq ys l lo hi u32 u64 =
      read_then io 1 (frame_data ∷ []) (to_be_bytes 4 len ++ (to_be_bytes 8 seq ++ ys)) _ l refl
      ∙ read_data_header len seq ys l lo hi u32 u64

  pub read_payload_ok :
      (seq : ℕ) (nonce ct tag text rest : Bytes) (l : Link)
      → (if l.channel.recv_initialized then ltb l.channel.recv_seq seq else true) ≡ true
      → length nonce ≡ 12
      → length tag ≡ tag_len
      → aead.decrypt l.channel.key_bytes nonce (to_be_bytes 8 seq) ct tag ≡ some text
      → read_payload aead (length ct + tag_len) seq (fed (nonce ++ (ct ++ (tag ++ rest))) l)
        ≡ (ok (plain text), record l { channel = received_one l.channel seq; input = rest })
  unfolding read_payload
  read_payload_ok seq nonce ct tag text rest l newer hn ht d = rw newer (
      read_then io 12 nonce (ct ++ (tag ++ rest)) _ l hn
      ∙ rw (← append_assoc ct tag rest) (
          read_then io (length ct + tag_len) (ct ++ tag) rest _ l
            (omega (arith, length-append ct tag))
          ∙ rw (split.0, split.1, d)))
    where
      size : length ct + tag_len - tag_len ≡ length ct
      size = omega arith

      split :
          (take (length ct + tag_len - tag_len) (ct ++ tag) ≡ ct)
          × (drop (length ct + tag_len - tag_len) (ct ++ tag) ≡ tag)
      split = rw size (take-append (length ct) ct tag refl, drop-append (length ct) ct tag refl)

module _ (aead : Aead) (laws : AeadLaws aead) where
  -- The receiver `l.channel` shares the key of the sender `c`.
  pub read_frame_wire :
      (c : EncryptedChannel) (l : Link) (text ct tag rest : Bytes)
      → aead.encrypt c.key_bytes (data_nonce c) (to_be_bytes 8 c.send_seq) text ≡ some (ct, tag)
      → l.channel.key_bytes ≡ c.key_bytes
      → Acceptable l.channel c.send_seq (length text)
      → read_frame aead (fed (joined (data_pieces c ct tag) rest) l)
        ≡ (ok (plain text), record l { channel = received_one l.channel c.send_seq; input = rest })
  read_frame_wire c l text ct tag rest e key a = rw small (
      read_frame_header aead (length ct + tag_len) c.send_seq _ l (omega arith)
        (omega (arith, same)) (omega (arith, same)) a.u64
      ∙ read_payload_ok aead c.send_seq (data_nonce c) ct tag text rest l a.newer
          (length-data_nonce c) (laws.length-tag _ _ _ _ _ _ e)
          (rw key (laws.decrypt-encrypt _ _ _ _ _ _ e)))
    where
      same : length ct ≡ length text
      same = laws.length-ct _ _ _ _ _ _ e

      small : (length ct + tag_len) % 2 ^ 32 ≡ length ct + tag_len
      small = omega (arith, same, a.fits, a.u32)

  -- A KEY_ROTATE frame whose counter is the one that the receiver expects.
  pub read_frame_rotate :
      (counter : ℕ) (l : Link) (gcm_nonce nonce ct tag rest : Bytes)
      → aead.encrypt l.channel.key_bytes gcm_nonce (to_be_bytes 8 counter) nonce ≡ some (ct, tag)
      → l.channel.key_rotate_recv_seq ≡ counter
      → length gcm_nonce ≡ 12
      → length nonce ≡ 32
      → read_frame aead (fed (joined (rotate_pieces gcm_nonce ct tag) rest) l) ≡ (
        ok (key_rotate nonce),
        record l {
          channel = record l.channel {
            key_rotate_recv_seq = (l.channel.key_rotate_recv_seq + 1) % 2 ^ 64;
          };
          input = rest;
        },
      )
  unfolding read_frame frame_arm read_key_rotate from_be_bytes
  read_frame_rotate counter l gcm_nonce nonce ct tag rest e same hg hn =
      read_then io 1 (frame_key_rotate ∷ []) (gcm_nonce ++ (ct ++ (tag ++ rest))) _ l refl
      ∙ read_then io 12 gcm_nonce (ct ++ (tag ++ rest)) _ l hg
      ∙ rw (← append_assoc ct tag rest) (
          read_then io 48 (ct ++ tag) rest _ l
            (omega (arith, length-append ct tag, size, laws.length-tag _ _ _ _ _ _ e))
          ∙ rw (
            take-append 32 ct tag size,
            drop-append 32 ct tag size,
            same,
            laws.decrypt-encrypt _ _ _ _ _ _ e,
          ))
    where
      size : length ct ≡ 32
      size = laws.length-ct _ _ _ _ _ _ e ∙ hn
