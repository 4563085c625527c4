-- ===== src/Tunnel/EndToEnd.antt =====
-- From the server's frames to the socket of the client's user: the stream of Deliver read by the rounds of
-- `run_relay` in latticeshield-client/src/client_session.rs.
use latticeshield.Prelude.{
  ℕ, zero, suc, ◌+◌, ◌^◌, ◌<◌, ◌≤◌, ◌≡◌, refl, sym, ap, subst, ◌∙◌, List, [], ◌∷◌, ◌++◌, length,
  length-append, Option, none, some, Result, ok_injective, ok, err, arith,
}
use latticeshield.Prelude.Bytes.{Bytes}
use latticeshield.Crypto.Primitives.{Aead, AeadLaws, Hkdf}
use latticeshield.Crypto.Channel.State.{EncryptedChannel, FrameError}
use latticeshield.Crypto.Channel.Link.{
  Link, Fault, fed, wrote, wrote-nil, wrote-wrote, write_all_fits,
}
use latticeshield.Client.Receive.{receive}
use latticeshield.Client.Relay.{
  Relay, continues, received, and_then, round, bridge_frame, bridge_rounds,
}
use latticeshield.Tunnel.Sync.{Synced}
use latticeshield.Tunnel.Deliver.{Op, items, Fits, Sent, receive_all, Sent-Delivers}

abbrev pub item_bytes : Option Bytes → Bytes
item_bytes none = []
item_bytes (some text) = text

-- The bytes of the texts, one after the other.
abbrev pub texts : List (Option Bytes) → Bytes
texts [] = []
texts (i ∷ rest) = item_bytes i ++ texts rest

module _ (aead : Aead) (hkdf : Hkdf) where
  item_written :
      (i : Option Bytes) (r : Relay) (l : Link)
      → receive aead hkdf r.link ≡ (ok i, l)
      → length (item_bytes i) ≤ r.user_w.room
      → round aead hkdf bridge_frame r
        ≡ continues (record r { link = l; user_w = wrote (item_bytes i) r.user_w })
  unfolding round
  item_written none r l h fits =
      rw (h, received)
        (ap (λ w. continues (record r { link = l; user_w = w })) (sym (wrote-nil r.user_w)))
  item_written (some text) r l h fits =
      rw (h, received, write_all_fits tt text (record l { output = r.user_w }) fits) refl

  -- A run of `receive` that succeeds is a run of rounds that go on.
  abbrev Written : ℕ → Type 0
  Written n =
      (r : Relay) (is : List (Option Bytes)) (l : Link)
      → receive_all aead hkdf n r.link ≡ (ok is, l)
      → length (texts is) ≤ r.user_w.room
      → bridge_rounds aead hkdf n r
        ≡ continues (record r { link = l; user_w = wrote (texts is) r.user_w })

  all-Written : (n : ℕ) → Written n
  unfolding receive_all bridge_rounds
  all-Written zero r is l h fits =
      let a : [] ≡ is = ok_injective (ap (λ x. x.0) h) in
      let b : r.link ≡ l = ap (λ x. x.1) h in
      rw (← a, ← b) (ap (λ w. continues (record r { user_w = w })) (sym (wrote-nil r.user_w)))
  all-Written (suc n) r is l h fits = go (all-Written n) (receive aead hkdf r.link) refl
    where
      later :
          Written n
          → (i : Option Bytes) (k : Link) → receive aead hkdf r.link ≡ (ok i, k)
          → (x : Result (Fault FrameError) (List (Option Bytes)) × Link)
          → receive_all aead hkdf n k ≡ x
          → bridge_rounds aead hkdf (suc n) r
            ≡ continues (record r { link = l; user_w = wrote (texts is) r.user_w })
      later ih i k e (err x, m) e' = cc (rw (e, e') at h)
      later ih i k e (ok rest, m) e' =
          let a : i ∷ rest ≡ is = ok_injective (ap (λ x. x.0) (rw (e, e') at h)) in
          let b : m ≡ l = ap (λ x. x.1) (rw (e, e') at h) in
          let f : length (item_bytes i ++ texts rest) ≤ r.user_w.room =
            subst (λ x. length (texts x) ≤ r.user_w.room) (sym a) fits in
          rw (← a, ← b)
            (ap (and_then aead hkdf (bridge_rounds aead hkdf n))
                (item_written i r k e (omega (arith, f, length-append (item_bytes i) (texts rest))))
              ∙ ih (record r { link = k; user_w = wrote (item_bytes i) r.user_w }) rest m e'
                  (omega (arith, f, length-append (item_bytes i) (texts rest)))
              ∙ ap (λ w. continues (record r { link = m; user_w = w }))
                  (wrote-wrote (item_bytes i) (texts rest) r.user_w))

      go :
          Written n
          → (x : Result (Fault FrameError) (Option Bytes) × Link) → receive aead hkdf r.link ≡ x
          → bridge_rounds aead hkdf (suc n) r
            ≡ continues (record r { link = l; user_w = wrote (texts is) r.user_w })
      go ih (err x, k) e = cc (rw e at h)
      go ih (ok i, k) e = later ih i k e (receive_all aead hkdf n k) refl

module _ (aead : Aead) (hkdf : Hkdf) (laws : AeadLaws aead) where
  -- Under the conditions of `Sent-Delivers`, where the user's socket takes the bytes of all texts and the
  -- client's input is what the server wrote with anything behind it, as many rounds of the client's
  -- relay loop that read from the bridge as the server made steps all go on: the user's socket has got
  -- the texts of the frames one after the other and nothing else, what stands behind is unread, and
  -- the two channels are in step again.
  pub Sent-bridge_rounds :
      {s s' : Link} (os : List Op) (r : Relay) (rest : Bytes)
      → Sent aead hkdf s os s'
      → Synced s.channel r.link.channel
      → Fits r.link.channel.max_frame_size os
      → s.channel.send_seq + length os < 2 ^ 64
      → length (texts (items os)) ≤ r.user_w.room
      → (w : Bytes) × (s'.output.sent ≡ s.output.sent ++ w)
        × (c : EncryptedChannel) × Synced s'.channel c
        × (bridge_rounds aead hkdf (length os) (record r { link = fed (w ++ rest) r.link })
            ≡ continues (record r {
              link = record r.link { channel = c; input = rest };
              user_w = wrote (texts (items os)) r.user_w;
            }))
  Sent-bridge_rounds os r rest sent sync fits bound room =
      let (w, grown, c, near, got) = Sent-Delivers aead hkdf laws os r.link sent sync fits bound in
      (
        w,
        grown,
        c,
        near,
        all-Written aead hkdf (length os) (record r { link = fed (w ++ rest) r.link }) (items os) _
            (got rest) room,
      )
