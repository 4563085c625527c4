-- ===== src/Crypto/Channel/Nonces.antt =====
-- The nonces under which `write_frame` of latticeshield-crypto/src/channel.rs encrypts data frames, over what one
-- endpoint does with its channel.
use latticeshield.Prelude.{
  ℕ, suc, ◌+◌, ◌%◌, ◌^◌, ◌<◌, ◌≤◌, ◌≡◌, refl, ap, subst, ◌≢◌, ◌⊎◌, inl, take, drop, take-append,
  drop-append, some, Result, ok, err, arith,
}
use latticeshield.Prelude.Bytes.{
  Bytes, to_be_bytes, from_be_bytes, length-to_be_bytes, from_be_bytes-to_be_bytes,
}
use latticeshield.Crypto.Primitives.{Aead, AeadLaws, Hkdf}
use latticeshield.Crypto.Channel.State.{
  EncryptedChannel, FrameError, FrameResult, plain, key_rotate,
}
use latticeshield.Crypto.Channel.Link.{Link}
use latticeshield.Crypto.Channel.Wire.{sent_one}
use latticeshield.Crypto.Channel.Writing.{
  Writes, sent_rotate, write_frame-Writes, send_key_rotate-Writes,
}
use latticeshield.Crypto.Channel.Reading.{Reads, read_frame-Reads}
use latticeshield.Crypto.Channel.Ops.{
  data_nonce, write_frame, read_frame, send_key_rotate, rotate_key,
}

-- Both fields can be read back from a nonce.
data_nonce-seq :
    (c : EncryptedChannel)
    → c.send_seq < 2 ^ 64
    → from_be_bytes (take 8 (data_nonce c)) ≡ c.send_seq
unfolding data_nonce
data_nonce-seq c h =
    rw (take-append 8 (to_be_bytes 8 c.send_seq) (to_be_bytes 4 c.epoch) (length-to_be_bytes 8 _))
      (from_be_bytes-to_be_bytes 8 c.send_seq h)

data_nonce-epoch :
    (c : EncryptedChannel) → c.epoch < 2 ^ 32 → from_be_bytes (drop 8 (data_nonce c)) ≡ c.epoch
unfolding data_nonce
data_nonce-epoch c h =
    rw (drop-append 8 (to_be_bytes 8 c.send_seq) (to_be_bytes 4 c.epoch) (length-to_be_bytes 8 _))
      (from_be_bytes-to_be_bytes 4 c.epoch h)

-- After `n` steps the epoch or the sequence number has moved on, and neither by more than `n`.
abbrev pub Ahead : EncryptedChannel → ℕ → EncryptedChannel → Type 0
Ahead c n d =
    ((d.epoch ≡ c.epoch) × (c.send_seq ≤ d.send_seq) × (d.send_seq ≤ c.send_seq + n))
    ⊎ ((c.epoch < d.epoch) × (d.epoch ≤ c.epoch + n) × (d.send_seq ≤ n))

-- How one step may move the epoch and the sequence number.
abbrev pub Moves : EncryptedChannel → EncryptedChannel → Type 0
Moves d e =
    ((e.epoch ≡ d.epoch) × (e.send_seq ≡ d.send_seq))
    ⊎ ((e.epoch ≡ d.epoch) × (e.send_seq ≡ (d.send_seq + 1) % 2 ^ 64))
    ⊎ ((e.epoch ≡ (d.epoch + 1) % 2 ^ 32) × (e.send_seq ≡ 0))

Moves-Ahead :
    (c : EncryptedChannel) (n : ℕ) (d e : EncryptedChannel)
    → c.epoch + suc n < 2 ^ 32
    → c.send_seq + suc n < 2 ^ 64
    → Ahead c n d
    → Moves d e
    → Ahead c (suc n) e
Moves-Ahead c n d e h k a m = ground arith

-- What one endpoint does with its channel: it writes and reads frames, announces a rotation and
-- rotates the key. A write, a read or an announcement may fail, and the session may go on.
module _ (aead : Aead) (hkdf : Hkdf) where
  pub data Uses : EncryptedChannel → EncryptedChannel → Type 0 where
    frame : (text : Bytes) (l : Link) → Uses l.channel (write_frame aead text l).1.channel
    read : (l : Link) → Uses l.channel (read_frame aead l).1.channel
    announce :
        (gcm_nonce nonce : Bytes) (l : Link)
        → Uses l.channel (send_key_rotate aead gcm_nonce nonce l).1.channel
    rotate : (nonce : Bytes) (c d : EncryptedChannel) → rotate_key hkdf c nonce ≡ some d → Uses c d

  pub data Run (c : EncryptedChannel) : ℕ → EncryptedChannel → Type 0 where
    here : Run c 0 c
    next : {n : ℕ} {d e : EncryptedChannel} → Run c n d → Uses d e → Run c (suc n) e

  rotated_one :
      (c : EncryptedChannel) (nonce : Bytes) (d : EncryptedChannel)
      → rotate_key hkdf c nonce ≡ some d
      → Moves c d
  unfolding rotate_key
  rotated_one c nonce d e = ground arith

  Reads-Moves :
      (c : EncryptedChannel) (r : Result FrameError FrameResult × Link)
      → Reads c r
      → Moves c r.1.channel
  Reads-Moves c (ok (plain text), l) h = ground arith
  Reads-Moves c (ok (key_rotate nonce), l) h = ground arith
  Reads-Moves c (err e, l) h = ground arith

  wrote_one :
      (text : Bytes) (l m : Link)
      → write_frame aead text l ≡ (ok tt, m)
      → m.channel ≡ sent_one l.channel
  wrote_one text l m e =
      (subst (Writes l (sent_one l.channel)) e (write_frame-Writes aead text l)).0

  frame-Moves :
      {E : Type 0} (l : Link) (r : Result E (Unit {0}) × Link)
      → Writes l (sent_one l.channel) r
      → Moves l.channel r.1.channel
  frame-Moves l (ok u, m) w = ground arith
  frame-Moves l (err e, m) w = ground arith

  announce-Moves :
      {E : Type 0} (l : Link) (r : Result E (Unit {0}) × Link)
      → Writes l (sent_rotate l.channel) r
      → Moves l.channel r.1.channel
  announce-Moves l (ok u, m) w = ground arith
  announce-Moves l (err e, m) w = ground arith

  Uses-Moves : AeadLaws aead → {c d : EncryptedChannel} → Uses c d → Moves c d
  Uses-Moves laws (frame text l) = frame-Moves l _ (write_frame-Writes aead text l)
  Uses-Moves laws (read l) = Reads-Moves l.channel _ (read_frame-Reads aead laws l)
  Uses-Moves laws (announce gcm_nonce nonce l) =
      announce-Moves l _ (send_key_rotate-Writes aead gcm_nonce nonce l)
  Uses-Moves laws (rotate nonce c d e) = rotated_one c nonce d e

  Run-Ahead :
      AeadLaws aead
      → {c d : EncryptedChannel} {n : ℕ} → c.epoch + n < 2 ^ 32
      → c.send_seq + n < 2 ^ 64
      → Run c n d
      → Ahead c n d
  Run-Ahead laws h k here = inl (refl, omega arith, omega arith)
  Run-Ahead laws {c} h k (next {n} {d} {e} r u) =
      Moves-Ahead c n d e h k (Run-Ahead laws (omega arith) (omega arith) r) (Uses-Moves laws u)

  -- After an endpoint has written a data frame in full, whatever it does in `n` further steps
  -- (frames written, frames read, rotations announced, each of which may also fail, and keys
  -- rotated), the nonce under which `write_frame` would encrypt next differs from the one of that
  -- frame, as long as the epoch plus `n` is below 2^32 and the sequence number of the frame plus
  -- `n` plus one is below 2^64. This is not said of a frame whose write failed, nor of the frames
  -- that announce a rotation, whose nonces are drawn at random.
  pub data_nonce_fresh :
      AeadLaws aead
      → (text : Bytes) (l m : Link) (n : ℕ) (d : EncryptedChannel)
      → write_frame aead text l ≡ (ok tt, m)
      → Run m.channel n d
      → l.channel.epoch + n < 2 ^ 32
      → l.channel.send_seq + 1 + n < 2 ^ 64
      → data_nonce l.channel ≢ data_nonce d
  data_nonce_fresh laws text l m n d e r h k same = omega (
    arith,
    w,
    ahead,
    data_nonce-seq l.channel,
    data_nonce-seq d,
    data_nonce-epoch l.channel,
    data_nonce-epoch d,
    ap (λ bs. from_be_bytes (take 8 bs)) same,
    ap (λ bs. from_be_bytes (drop 8 bs)) same,
  )
    where
      w :
          (m.channel.send_seq ≡ (l.channel.send_seq + 1) % 2 ^ 64)
          × (m.channel.epoch ≡ l.channel.epoch)
      w = let c = wrote_one text l m e in (ap (λ x. x.send_seq) c, ap (λ x. x.epoch) c)

      ahead : Ahead m.channel n d
      ahead = Run-Ahead laws (omega (arith, w)) (omega (arith, w)) r
