-- ===== src/Crypto/Channel/Reading.antt =====
-- `read_frame` of latticeshield-crypto/src/channel.rs on any input, well formed or not.
use latticeshield.Prelude.{
  ℕ, ◌+◌, ◌-◌, ◌%◌, ◌^◌, ◌≤◌, ◌≡◌, refl, Bool, true, ◌&&◌, Bool-cases, inl, inr, length,
  length-take, take, drop, ltb, leb, leb→le, ◌==◌, if◌then◌else◌, Option, none, some, Option-cases,
  Result, ok, err, arith,
}
use latticeshield.Prelude.Bytes.{Bytes, from_be_bytes, to_be_bytes}
use latticeshield.Crypto.Primitives.{Aead, AeadLaws}
use latticeshield.Crypto.Channel.State.{
  EncryptedChannel, FrameError, FrameResult, plain, key_rotate, io, aead_failure, tag_len,
  frame_data, frame_key_rotate,
}
use latticeshield.Crypto.Channel.Link.{
  Link, fed, ◌>>=◌, ◌>>◌, or_fail, put_channel, pure, read_exact-cases,
}
use latticeshield.Crypto.Channel.Wire.{received_one}
use latticeshield.Crypto.Channel.Ops.{
  read_payload, read_data, read_key_rotate, frame_arm, read_frame,
}

-- Nothing of this epoch has been received, or only older frames.
abbrev pub IsNewer : EncryptedChannel → ℕ → Type 0
IsNewer c seq = (if c.recv_initialized then ltb c.recv_seq seq else true) ≡ true

-- How a read may change the channel.
abbrev pub Reads : EncryptedChannel → Result FrameError FrameResult × Link → Type 0
Reads c (ok (plain text), l) =
    (seq : ℕ) × IsNewer c seq × (length text ≤ c.max_frame_size) × (l.channel ≡ received_one c seq)
Reads c (ok (key_rotate nonce), l) =
    (length nonce ≡ 32)
    × (l.channel ≡ record c { key_rotate_recv_seq = (c.key_rotate_recv_seq + 1) % 2 ^ 64 })
Reads c (err e, l) = l.channel ≡ c

and_right : (a b : Bool) → (a && b) ≡ true → b ≡ true
and_right a b h = ground arith

module _ (aead : Aead) (laws : AeadLaws aead) where
  decrypted-Reads :
      (l : Link) (len seq : ℕ) (nonce body : Bytes)
      → IsNewer l.channel seq
      → len ≤ l.channel.max_frame_size + tag_len
      → length body ≡ len
      → (o : Option Bytes)
      → aead.decrypt l.channel.key_bytes nonce
          (to_be_bytes 8 seq)
          (take (len - tag_len) body)
          (drop (len - tag_len) body)
        ≡ o
      → Reads l.channel (
          (or_fail aead_failure o >>= λ text.
          put_channel (received_one l.channel seq) >> pure (plain text))
            l)
  decrypted-Reads l len seq nonce body newer fits hb none d = refl
  decrypted-Reads l len seq nonce body newer fits hb (some text) d = (
    seq,
    newer,
    omega (arith, laws.length-text _ _ _ _ _ _ d, length-take (len - tag_len) body),
    refl,
  )

  read_payload-Reads :
      (l : Link) (len seq : ℕ)
      → len ≤ l.channel.max_frame_size + tag_len
      → Reads l.channel (read_payload aead len seq l)
  unfolding read_payload
  read_payload-Reads l len seq fits =
      elim (Bool-cases (if l.channel.recv_initialized then ltb l.channel.recv_seq seq else true)) [
        | inr old ↦ rw old refl
        | inl newer ↦ rw newer (elim (read_exact-cases io 12 l) [
          | inr e ↦ rw e refl
          | inl (nonce, ys, hn, e) ↦ rw e (elim (read_exact-cases io len (fed ys l)) [
            | inr e' ↦ rw e' refl
            | inl (body, zs, hb, e') ↦
                rw e' (decrypted-Reads (fed zs l) len seq nonce body newer fits hb _ refl)
          ])
        ])
      ]

  read_data-Reads : (l : Link) → Reads l.channel (read_data aead l)
  unfolding read_data
  read_data-Reads l = elim (read_exact-cases io 4 l) [
    | inr e ↦ rw e refl
    | inl (len_buf, ys, hn, e) ↦
        let len : ℕ = from_be_bytes len_buf in
        rw e (elim (Bool-cases (leb tag_len len && leb len (l.channel.max_frame_size + tag_len))) [
          | inr bad ↦ rw bad refl
          | inl good ↦ rw good (elim (read_exact-cases io 8 (fed ys l)) [
            | inr e' ↦ rw e' refl
            | inl (seq_buf, zs, hs, e') ↦ rw e' (
                read_payload-Reads (fed zs l) len (from_be_bytes seq_buf)
                  (leb→le _ _ (and_right _ _ good)))
          ])
        ])
  ]

  read_key_rotate-Reads : (l : Link) → Reads l.channel (read_key_rotate aead l)
  unfolding read_key_rotate
  read_key_rotate-Reads l = elim (read_exact-cases io 12 l) [
    | inr e ↦ rw e refl
    | inl (gcm_nonce, ys, hn, e) ↦ rw e (elim (read_exact-cases io 48 (fed ys l)) [
      | inr e' ↦ rw e' refl
      | inl (body, zs, hb, e') ↦
          rw e'
            (elim (Option-cases (
              aead.decrypt l.channel.key_bytes gcm_nonce
                (to_be_bytes 8 l.channel.key_rotate_recv_seq) (take 32 body) (drop 32 body))) [
                  | inl d ↦ rw d refl
                  | inr (nonce, d) ↦
                      rw d
                        (omega (arith, laws.length-text _ _ _ _ _ _ d, length-take 32 body), refl)
                ])
    ])
  ]

  -- On every input `read_frame` does one of three things. It returns data that is at most the frame
  -- size, and the channel then holds a sequence number newer than before and nothing else has
  -- changed; it returns a rotation nonce of 32 bytes, and only the counter of received rotations
  -- has gone up by one; or it fails, and the channel is as before.
  pub read_frame-Reads : (l : Link) → Reads l.channel (read_frame aead l)
  unfolding read_frame frame_arm
  read_frame-Reads l = elim (read_exact-cases io 1 l) [
    | inr e ↦ rw e refl
    | inl (type_buf, ys, hn, e) ↦ rw e (elim (Bool-cases (from_be_bytes type_buf == frame_data)) [
      | inl h ↦ rw h (read_data-Reads (fed ys l))
      | inr h ↦ rw h (elim (Bool-cases (from_be_bytes type_buf == frame_key_rotate)) [
        | inl k ↦ rw k (read_key_rotate-Reads (fed ys l))
        | inr k ↦ rw k refl
      ])
    ])
  ]
