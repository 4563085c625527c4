-- ===== src/Crypto/Channel/Replay.antt =====
-- The replay protection of `read_frame` in latticeshield-crypto/src/channel.rs, over any history of
-- reads in one key epoch.
use latticeshield.Prelude.{
  ℕ, ◌+◌, ◌^◌, ◌<◌, ◌≤◌, ◌≡◌, refl, sym, ap, subst, ◌∙◌, true, ◌∷◌, ◌++◌, le→ltb, Result, ok, err,
  arith,
}
use latticeshield.Prelude.Bytes.{Bytes, to_be_bytes}
use latticeshield.Crypto.Primitives.{Aead, AeadLaws}
use latticeshield.Crypto.Channel.State.{
  EncryptedChannel, FrameError, FrameResult, plain, key_rotate, replay, tag_len, frame_data,
}
use latticeshield.Crypto.Channel.Link.{Link, fed}
use latticeshield.Crypto.Channel.Wire.{read_frame_header}
use latticeshield.Crypto.Channel.Reading.{Reads, read_frame-Reads}
use latticeshield.Crypto.Channel.Ops.{read_frame, read_payload}

module _ (aead : Aead) where
  -- Reads one after the other, each from whatever has arrived, whether they succeed or not.
  pub data Later (c : EncryptedChannel) : EncryptedChannel → Type 0 where
    here : Later c c
    next :
        {d : EncryptedChannel}
        → Later c d
        → (l : Link) → l.channel ≡ d
        → (e : EncryptedChannel) → (read_frame aead l).1.channel ≡ e
        → Later c e

-- Something was received, `seq` at the latest is the newest, and the frame size is `size`.
pub record Past (seq size : ℕ) (c : EncryptedChannel) : Type 0 where
  pub initialized : c.recv_initialized ≡ true
  pub newest : seq ≤ c.recv_seq
  pub same_size : c.max_frame_size ≡ size

Reads-Past :
    (seq size : ℕ) (c : EncryptedChannel) (r : Result FrameError FrameResult × Link)
    → Past seq size c
    → Reads c r
    → Past seq size r.1.channel
Reads-Past seq size c (ok (plain text), l) p h = ground arith
Reads-Past seq size c (ok (key_rotate nonce), l) p h = ground arith
Reads-Past seq size c (err e, l) p h = ground arith

module _ (aead : Aead) (laws : AeadLaws aead) where
  Later-Past :
      {c d : EncryptedChannel} (seq size : ℕ) → Past seq size c → Later aead c d → Past seq size d
  Later-Past seq size p here = p
  Later-Past seq size p (next r l at e moved) = subst (Past seq size) moved (
      Reads-Past seq size l.channel (read_frame aead l)
        (subst (Past seq size) (sym at) (Later-Past seq size p r)) (read_frame-Reads aead laws l))

  -- The check of the sequence number stands before the rest of the frame is read.
  read_payload_old :
      (len seq : ℕ) (ys : Bytes) (l : Link)
      → l.channel.recv_initialized ≡ true
      → seq ≤ l.channel.recv_seq
      → read_payload aead len seq (fed ys l) ≡ (err (replay seq l.channel.recv_seq), fed ys l)
  unfolding read_payload
  read_payload_old len seq ys l i old = rw (i, le→ltb l.channel.recv_seq seq old)

  -- Once `read_frame` has returned data, after any reads that follow in the same key epoch,
  -- successful or not, a DATA frame whose sequence number is at most the one accepted then, and
  -- whose length passes the length check, is refused with `replay`; the channel does not change,
  -- and nothing after the sequence number is read.
  pub replayed :
      (l : Link) (text : Bytes) (l' : Link) (m : Link) (len seq : ℕ) (ys : Bytes)
      → read_frame aead l ≡ (ok (plain text), l')
      → Later aead l'.channel m.channel
      → seq ≤ l'.channel.recv_seq
      → tag_len ≤ len
      → len ≤ l'.channel.max_frame_size + tag_len
      → len < 2 ^ 32
      → seq < 2 ^ 64
      → read_frame aead (fed (frame_data ∷ (to_be_bytes 4 len ++ (to_be_bytes 8 seq ++ ys))) m)
        ≡ (err (replay seq m.channel.recv_seq), fed ys m)
  replayed l text l' m len seq ys e later old lo hi u32 u64 =
      read_frame_header aead len seq ys m lo (omega (arith, past.same_size)) u32 u64
      ∙ read_payload_old len seq ys m past.initialized (omega (arith, past.newest))
    where
      read : Reads l.channel (ok (plain text), l')
      read = subst (Reads l.channel) e (read_frame-Reads aead laws l)

      past : Past l'.channel.recv_seq l'.channel.max_frame_size m.channel
      past =
          Later-Past l'.channel.recv_seq l'.channel.max_frame_size
            (record {
              initialized = ap (λ c. c.recv_initialized) read.3;
              newest = omega arith;
              same_size = refl;
            })
            later
