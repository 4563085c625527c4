-- ===== src/Tunnel/Deliver.antt =====
-- A whole stream: the frames and rotations that the server sends come out at the client, in order.
use latticeshield.Prelude.{
  ℕ, suc, zero, ◌+◌, ◌^◌, ◌<◌, ◌≤◌, ◌≡◌, refl, sym, ap, subst, ◌∙◌, List, [], ◌∷◌, ◌++◌, append-nil,
  append_assoc, length, Option, none, some, ok, arith,
}
use latticeshield.Prelude.Bytes.{Bytes}
use latticeshield.Crypto.Primitives.{Aead, AeadLaws, Hkdf}
use latticeshield.Crypto.Channel.State.{EncryptedChannel, FrameError}
use latticeshield.Crypto.Channel.Link.{Link, M, Fault, pure, ◌>>=◌, fed}
use latticeshield.Crypto.Channel.Ops.{write_frame}
use latticeshield.Bridge.Rotate.{do_rotate}
use latticeshield.Client.Receive.{receive}
use latticeshield.Tunnel.Sync.{Synced, Carries, frame_carried, rotation_carried}

-- What the server's loop does with the channel to the client.
pub data Op : Type 0 where
  data_op : Bytes → Op
  rotate_op : (gcm_nonce nonce : Bytes) → Op

-- What the client's user sees of it.
abbrev pub item : Op → Option Bytes
item (data_op text) = some text
item (rotate_op _ _) = none

abbrev pub items : List Op → List (Option Bytes)
items [] = []
items (o ∷ os) = item o ∷ items os

abbrev pub Fits : ℕ → List Op → Type 0
Fits size [] = Unit {0}
Fits size (data_op text ∷ os) = (length text ≤ size) × Fits size os
Fits size (rotate_op g n ∷ os) = (length g ≡ 12) × (length n ≡ 32) × Fits size os

module _ (aead : Aead) (hkdf : Hkdf) where
  pub data Sent : Link → List Op → Link → Type 0 where
    here : (l : Link) → Sent l [] l
    data_sent :
        (text : Bytes) {os : List Op} (l m : Link) {k : Link}
        → write_frame aead text l ≡ (ok tt, m)
        → Sent m os k
        → Sent l (data_op text ∷ os) k
    rotate_sent :
        (gcm_nonce nonce : Bytes) {os : List Op} (l m : Link) {k : Link}
        → do_rotate aead hkdf gcm_nonce nonce l ≡ (ok tt, m)
        → Sent m os k
        → Sent l (rotate_op gcm_nonce nonce ∷ os) k

  -- `count` rounds of the client's read arm.
  unfoldable pub receive_all : ℕ → M (Fault FrameError) (List (Option Bytes))
  receive_all zero = pure []
  receive_all (suc count) = do
    one ← receive aead hkdf
    others ← receive_all count
    pure (one ∷ others)

module _ (aead : Aead) (hkdf : Hkdf) (laws : AeadLaws aead) where
  -- The bytes of a whole run, and what the client makes of them.
  abbrev pub Delivers : List Op → Link → Link → Link → Type 0
  Delivers os s s' r =
      (w : Bytes) × (s'.output.sent ≡ s.output.sent ++ w)
      × (r' : EncryptedChannel) × Synced s'.channel r'
      × ((rest : Bytes)
          → receive_all aead hkdf (length os) (fed (w ++ rest) r)
            ≡ (ok (items os), record r { channel = r'; input = rest }))

  -- One step, and what follows it.
  cons-Delivers :
      (o : Op) (os : List Op) (s m s' r : Link)
      → (c : Carries aead hkdf laws (item o) s m r) → Delivers os m s' (record r { channel = c.2 })
      → Delivers (o ∷ os) s s' r
  unfolding receive_all
  cons-Delivers o os s m s' r (w, sent, r', sync, size, near, got) (v, sent', r'', sync', got') = (
    w ++ v,
    sent' ∙ ap (λ bs. bs ++ v) sent ∙ append_assoc s.output.sent w v,
    r'',
    sync',
    λ rest. rw (append_assoc w v rest, got (v ++ rest), got' rest),
  )

  -- A server and a client whose channels are in step (`Synced`: one key, one epoch, equal rotation
  -- counters, the client takes the server's next sequence number, and its frame size plus the tag
  -- is below 2^32). When all of the server's frames and rotations `os` succeed, every text is at
  -- most the client's frame size, the nonces have their lengths and the sequence number stays below
  -- 2^64, then the server's output has grown by bytes `w` such that the client, reading `w` with
  -- anything behind it, returns exactly the texts of `os` in order with each rotation applied in
  -- its place, leaves what stands behind `w` unread, and the two channels are in step again.
  pub Sent-Delivers :
      {s s' : Link} (os : List Op) (r : Link)
      → Sent aead hkdf s os s'
      → Synced s.channel r.channel
      → Fits r.channel.max_frame_size os
      → s.channel.send_seq + length os < 2 ^ 64
      → Delivers os s s' r
  unfolding receive_all
  Sent-Delivers os r (here l) sync fits bound =
      ([], sym (append-nil l.output.sent), r.channel, sync, λ rest. refl)
  Sent-Delivers os r (data_sent text {os = tail} l m {k = k} e more) sync fits bound =
      let c = frame_carried aead hkdf laws text l m r sync fits.0 (omega arith) e in
      cons-Delivers (data_op text) tail l m k r c (
        Sent-Delivers tail (record r { channel = c.2 }) more c.3
          (subst (λ n. Fits n tail) (sym c.4) fits.1) (omega (arith, c.5)))
  Sent-Delivers os r (rotate_sent gcm_nonce nonce {os = tail} l m {k = k} e more) sync fits bound =
      let c = rotation_carried aead hkdf laws gcm_nonce nonce l m r sync fits.0 fits.1 e in
      cons-Delivers (rotate_op gcm_nonce nonce) tail l m k r c (
        Sent-Delivers tail (record r { channel = c.2 }) more c.3
          (subst (λ n. Fits n tail) (sym c.4) fits.2) (omega (arith, c.5)))
