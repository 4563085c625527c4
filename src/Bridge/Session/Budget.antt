-- ===== src/Bridge/Session/Budget.antt =====
-- How much one key encrypts for the client in the relay loop of latticeshield-bridge/src/session.rs.
use latticeshield.Prelude.{
  ℕ, ◌+◌, ◌%◌, ◌^◌, ◌≤◌, ◌<◌, ◌≡◌, ◌≢◌, refl, sym, ap, subst, ◌∙◌, ◌⊎◌, inl, inr, true, false, List,
  [], ◌∷◌, All, length, leb, some, Option-cases, Bool-cases, Result, ok, err, arith,
}
use latticeshield.Prelude.Bytes.{Bytes}
use latticeshield.Crypto.Primitives.{Aead, AeadLaws, Hkdf}
use latticeshield.Crypto.Channel.State.{
  EncryptedChannel, FrameError, FrameResult, RotateError, plain, key_rotate,
}
use latticeshield.Crypto.Channel.Link.{Link, Fault, write_all-cases}
use latticeshield.Crypto.Channel.Ops.{write_frame, read_frame, send_key_rotate, rotate_key}
use latticeshield.Crypto.Channel.Reading.{Reads, read_frame-Reads}
use latticeshield.Crypto.Channel.Wire.{sent_one}
use latticeshield.Crypto.Channel.Writing.{
  Writes, sent_rotate, write_frame-Writes, send_key_rotate-Writes,
}
use latticeshield.Bridge.Rotate.{do_rotate}
use latticeshield.Bridge.Session.{
  RelayConfig, Session, Event, client_frame, backend_read, backend_failed, timer_tick,
  rotate_changed, continues, Arm, value, break, bail, round, finish, arm, client_arm,
  backend_written, frame_written, rotation_done,
}

-- The plaintext that a round encrypts.
abbrev pub chunk : Event → Bytes
chunk (backend_read bs) = bs
chunk _ = []

-- A round that goes on has either kept the key and counted its bytes, which stay below the limit, or
-- changed the key and counts from 0.
abbrev pub Goes : ℕ → Session → Bytes → Session → Type 0
Goes limit s bs t =
    ((t.link.channel.epoch ≡ s.link.channel.epoch)
      × (t.bytes_this_epoch ≡ s.bytes_this_epoch + length bs)
      × (t.bytes_this_epoch < limit))
    ⊎ ((t.link.channel.epoch ≡ (s.link.channel.epoch + 1) % 2 ^ 32) × (t.bytes_this_epoch ≡ 0))

-- What an arm has done before a rotation, where it ends in a value.
abbrev pub ArmDone : ℕ → Session → Bytes → Arm → Type 0
ArmDone limit s bs (value rotates t) =
    (t.link.channel.epoch ≡ s.link.channel.epoch)
    × (t.bytes_this_epoch ≡ s.bytes_this_epoch + length bs)
    × ((rotates ≡ true) ⊎ (t.bytes_this_epoch < limit))
ArmDone limit s bs (break t) = Unit {0}
ArmDone limit s bs (bail e t) = Unit {0}

Reads-epoch :
    (c : EncryptedChannel) (r : Result FrameError FrameResult × Link)
    → Reads c r
    → r.1.channel.epoch ≡ c.epoch
Reads-epoch c (ok (plain text), l) h = ground arith
Reads-epoch c (ok (key_rotate nonce), l) h = ground arith
Reads-epoch c (err e, l) h = ground arith

client_arm-ArmDone :
    (limit : ℕ) (s : Session) (r : Result FrameError FrameResult × Link)
    → s.bytes_this_epoch < limit
    → r.1.channel.epoch ≡ s.link.channel.epoch
    → ArmDone limit s [] (client_arm s r)
unfolding client_arm backend_written
client_arm-ArmDone limit s (ok (plain []), l) low h = tt
client_arm-ArmDone limit s (ok (plain (b ∷ bs)), l) low h =
    elim (write_all-cases tt (b ∷ bs) (record l { output = s.backend_w })) [
      | inl e ↦ rw e (h, omega arith, inr low)
      | inr e ↦ rw e tt
    ]
client_arm-ArmDone limit s (ok (key_rotate nonce), l) low h = tt
client_arm-ArmDone limit s (err e, l) low h = tt

module _ (config : RelayConfig) where
  frame_written-ArmDone :
      (s : Session) (bs : Bytes) (next : EncryptedChannel) (r : Result FrameError (Unit {0}) × Link)
      → config.key_rotation_enabled ≡ true
      → s.bytes_this_epoch + length bs < 2 ^ 64
      → next.epoch ≡ s.link.channel.epoch
      → Writes s.link next r
      → ArmDone config.max_bytes_per_key s bs (frame_written config s (length bs) r)
  unfolding frame_written
  frame_written-ArmDone s bs next (err e, l) on small same w = tt
  frame_written-ArmDone s bs next (ok u, l) on small same w = (
    ap (λ c. c.epoch) w.0 ∙ same,
    omega arith,
    elim (Bool-cases (leb config.max_bytes_per_key ((s.bytes_this_epoch + length bs) % 2 ^ 64))) [
      | inl h ↦ inl (rw (on, h) refl)
      | inr h ↦ inr (ground arith)
    ],
  )

module _ (aead : Aead) (hkdf : Hkdf) where
  rotate_key-epoch :
      (c : EncryptedChannel) (nonce : Bytes) (d : EncryptedChannel)
      → rotate_key hkdf c nonce ≡ some d
      → d.epoch ≡ (c.epoch + 1) % 2 ^ 32
  unfolding rotate_key
  rotate_key-epoch c nonce d e = ground arith

  -- A rotation that succeeds moves the epoch on by one.
  pub do_rotate-epoch :
      (gcm_nonce nonce : Bytes) (l m : Link)
      → do_rotate aead hkdf gcm_nonce nonce l ≡ (ok tt, m)
      → m.channel.epoch ≡ (l.channel.epoch + 1) % 2 ^ 32
  unfolding do_rotate
  do_rotate-epoch gcm_nonce nonce l m e = go (send_key_rotate aead gcm_nonce nonce l) refl
    where
      go :
          (x : Result RotateError (Unit {0}) × Link)
          → send_key_rotate aead gcm_nonce nonce l ≡ x
          → m.channel.epoch ≡ (l.channel.epoch + 1) % 2 ^ 32
      go (err x, k) h = cc (rw h at e)
      go (ok _, k) h = elim (Option-cases (rotate_key hkdf k.channel nonce)) [
        | inl n ↦ cc (rw (h, n) at e)
        | inr (d, n) ↦
            let same =
              (subst (Writes l (sent_rotate l.channel)) h
                (send_key_rotate-Writes aead gcm_nonce nonce l)).0 in
            let moved = ap (λ x. x.1.channel.epoch) (rw (h, n) at e) in
            sym moved ∙ rotate_key-epoch k.channel nonce d n ∙ ap (λ c. (c.epoch + 1) % 2 ^ 32) same
      ]

module _ (aead : Aead) (hkdf : Hkdf) (laws : AeadLaws aead) (config : RelayConfig) where
  arm-ArmDone :
      (event : Event) (s : Session)
      → config.key_rotation_enabled ≡ true
      → s.bytes_this_epoch < config.max_bytes_per_key
      → s.bytes_this_epoch + length (chunk event) < 2 ^ 64
      → ArmDone config.max_bytes_per_key s (chunk event) (arm aead hkdf config event s)
  unfolding arm
  arm-ArmDone client_frame s on low small =
      client_arm-ArmDone config.max_bytes_per_key s (read_frame aead s.link) low
        (Reads-epoch s.link.channel (read_frame aead s.link) (read_frame-Reads aead laws s.link))
  arm-ArmDone (backend_read []) s on low small = tt
  arm-ArmDone (backend_read (b ∷ bs)) s on low small =
      frame_written-ArmDone config s (b ∷ bs) (sent_one s.link.channel)
        (write_frame aead (b ∷ bs) s.link) on small refl (write_frame-Writes aead (b ∷ bs) s.link)
  arm-ArmDone backend_failed s on low small = tt
  arm-ArmDone timer_tick s on low small = (refl, omega arith, inl on)
  arm-ArmDone (rotate_changed is_ok) s on low small = (refl, omega arith, inr low)

  rotation-Goes :
      (s t : Session) (bs : Bytes) (r : Result (Fault RotateError) (Unit {0}) × Link) (u : Session)
      → t.link.channel.epoch ≡ s.link.channel.epoch
      → ((m : Link) → r ≡ (ok tt, m) → m.channel.epoch ≡ (t.link.channel.epoch + 1) % 2 ^ 32)
      → rotation_done aead hkdf config t r ≡ continues u
      → Goes config.max_bytes_per_key s bs u
  unfolding rotation_done
  rotation-Goes s t bs (ok w, l) u same turned e = let gone = turned l refl in inr (ground arith)
  rotation-Goes s t bs (err x, l) u same turned e = cc

  finish-Goes :
      (gcm_nonce nonce : Bytes) (s : Session) (bs : Bytes) (a : Arm) (u : Session)
      → ArmDone config.max_bytes_per_key s bs a
      → finish aead hkdf config gcm_nonce nonce a ≡ continues u
      → Goes config.max_bytes_per_key s bs u
  unfolding finish
  finish-Goes gcm_nonce nonce s bs (value false t) u d e = inl (ground arith)
  finish-Goes gcm_nonce nonce s bs (value true t) u d e =
      rotation-Goes s t bs (do_rotate aead hkdf gcm_nonce nonce t.link) u d.0
        (λ m. do_rotate-epoch aead hkdf gcm_nonce nonce t.link m) e
  finish-Goes gcm_nonce nonce s bs (break t) u d e = cc
  finish-Goes gcm_nonce nonce s bs (bail x t) u d e = cc

  -- Rounds that go on. `n` counts the plaintext encrypted for the client since the epoch of the key last changed, and
  -- `retired` holds the counts of the keys before, the last one first. No read of the backend gives more than `size` bytes.
  pub data Relays (size : ℕ) (s : Session) : List ℕ → ℕ → Session → Type 0 where
    start : Relays size s [] 0 s
    kept :
        {retired : List ℕ} {n : ℕ} {t : Session}
        → Relays size s retired n t
        → (gcm_nonce nonce : Bytes) (event : Event) (u : Session) → length (chunk event) ≤ size
        → round aead hkdf config gcm_nonce nonce event t ≡ continues u
        → u.link.channel.epoch ≡ t.link.channel.epoch
        → Relays size s retired (n + length (chunk event)) u
    turned :
        {retired : List ℕ} {n : ℕ} {t : Session}
        → Relays size s retired n t
        → (gcm_nonce nonce : Bytes) (event : Event) (u : Session) → length (chunk event) ≤ size
        → round aead hkdf config gcm_nonce nonce event t ≡ continues u
        → u.link.channel.epoch ≢ t.link.channel.epoch
        → Relays size s ((n + length (chunk event)) ∷ retired) 0 u

  round-Goes :
      (gcm_nonce nonce : Bytes) (event : Event) (s u : Session)
      → config.key_rotation_enabled ≡ true
      → s.bytes_this_epoch < config.max_bytes_per_key
      → s.bytes_this_epoch + length (chunk event) < 2 ^ 64
      → round aead hkdf config gcm_nonce nonce event s ≡ continues u
      → Goes config.max_bytes_per_key s (chunk event) u
  unfolding round
  round-Goes gcm_nonce nonce event s u on low small e =
      finish-Goes gcm_nonce nonce s (chunk event) (arm aead hkdf config event s) u
        (arm-ArmDone event s on low small) e

  -- With key rotation on, a limit of at least 1, limit plus `size` below 2^64 and the count at 0 at
  -- the start: after any number of rounds that go on, where no read of the backend gives more than
  -- `size` bytes, the session's count of bytes is the plaintext that the bridge has encrypted for
  -- the client since the key last changed, and it is below the limit; and under each of the keys
  -- before, the bridge has encrypted less plaintext for the client than the limit plus `size`. What
  -- the client encrypts under these keys, and the frames that announce a rotation, are not counted.
  pub Relays-budget :
      (size : ℕ) (s : Session)
      → config.key_rotation_enabled ≡ true
      → 1 ≤ config.max_bytes_per_key
      → config.max_bytes_per_key + size < 2 ^ 64
      → s.bytes_this_epoch ≡ 0
      → {retired : List ℕ} {n : ℕ} {t : Session} → Relays size s retired n t
      → (t.bytes_this_epoch ≡ n)
        × (n < config.max_bytes_per_key)
        × All (λ k. k < config.max_bytes_per_key + size) retired
  Relays-budget size s on one u64 zero_at start = (zero_at, one, tt)
  Relays-budget size s on one u64 zero_at
        (kept {retired} {n} {t} r gcm_nonce nonce event u few e same) =
      let (b, low, before) = Relays-budget size s on one u64 zero_at r in
      let g = round-Goes gcm_nonce nonce event t u on (omega arith) (omega arith) e in
      elim g [
        | inl k ↦ (omega (arith, k.1, b), omega (arith, k.1, k.2, b), before)
        | inr k ↦ absurd (omega (arith, k.0, same))
      ]
  Relays-budget size s on one u64 zero_at
        (turned {retired} {n} {t} r gcm_nonce nonce event u few e moved) =
      let (b, low, before) = Relays-budget size s on one u64 zero_at r in
      let g = round-Goes gcm_nonce nonce event t u on (omega arith) (omega arith) e in
      elim g [ inl k ↦ absurd (moved k.0) | inr k ↦ (k.1, one, (omega arith, before)) ]
