-- ===== src/Bridge/ControlPlane/Verified.antt =====
-- When the bridge follows commands of a heartbeat's reply (latticeshield-bridge/src/control_plane.rs).
use latticeshield.Prelude.{
  ℕ, ◌^◌, ◌<◌, ◌≡◌, refl, ap, ◌∙◌, ◌↔◌, inl, inr, Bool, true, false, Bool-cases, List, length, ◌==◌,
  ==_iff, if◌then◌else◌, Option, none, some, Result, ok, err, arith,
}
use latticeshield.Prelude.Bytes.{Bytes}
use latticeshield.Prelude.Text.{Text}
use latticeshield.Crypto.Signing.{
  MlDsa, signing_context, signature_len, verify, signature_from_bytes,
}
use latticeshield.Bridge.ControlPlane.Drift.{is_fresh, Near, is_fresh-Near}
use latticeshield.Bridge.ControlPlane.{
  BridgeCommand, HeartbeatResponse, default_response, SignedResponsePayload, Codecs, default_or,
  ok_or_default, verify_response,
}

-- A chain of `default_response` that gives commands has not stopped.
default_or-some :
    {A : Type 0} (o : Option A) (f : A → HeartbeatResponse) (cs : List BridgeCommand)
    → (default_or o f).pending_commands ≡ some cs
    → (a : A) × (o ≡ some a) × ((f a).pending_commands ≡ some cs)
default_or-some none f cs h = cc
default_or-some (some a) f cs h = (a, refl, h)

ok_or_default-some :
    {E A : Type 0} (r : Result E A) (f : A → HeartbeatResponse) (cs : List BridgeCommand)
    → (ok_or_default r f).pending_commands ≡ some cs
    → (a : A) × (r ≡ ok a) × ((f a).pending_commands ≡ some cs)
ok_or_default-some (err e) f cs h = cc
ok_or_default-some (ok a) f cs h = (a, refl, h)

signature_of :
    (bytes sig : Bytes)
    → (signature_from_bytes bytes ≡ ok sig)
    → (bytes ≡ sig) × (length sig ≡ signature_len)
unfolding signature_from_bytes
signature_of bytes sig h = elim (Bool-cases (length bytes == signature_len)) [
  | inl same ↦ (ground arith, ground arith)
  | inr other ↦ cc (rw other at h)
]

module _ (dsa : MlDsa) (codecs : Codecs) where
  -- A reply whose signature by `vk` covers exactly the text that holds the commands, made within five minutes of `now`.
  abbrev pub Trusted : (vk : Bytes) (now : ℕ) → HeartbeatResponse → List BridgeCommand → Type 0
  Trusted vk now hb_resp cs =
      (payload : Text) × (sig_b64 : Text) × (sig : Bytes) × (inner : SignedResponsePayload)
      × (hb_resp.signed_payload ≡ some payload)
      × (hb_resp.response_signature ≡ some sig_b64)
      × (codecs.decode sig_b64 ≡ some sig)
      × (length sig ≡ signature_len)
      × (dsa.verifies vk payload signing_context sig ≡ true)
      × (codecs.payload_from_str payload ≡ some inner)
      × Near now inner.ts
      × (inner.pending_commands ≡ some cs)

  verified :
      (vk msg sig : Bytes) (u : Unit {0})
      → verify dsa vk msg sig ≡ ok u
      → dsa.verifies vk msg signing_context sig ≡ true
  unfolding verify
  verified vk msg sig u h = ground arith

  fresh_commands :
      (b : Bool) (commands : Option (List BridgeCommand)) (cs : List BridgeCommand)
      → (if b
          then record {
            pending_commands = commands;
            signed_payload = none;
            response_signature = none;
          }
          else default_response).pending_commands
        ≡ some cs
      → (b ≡ true) × (commands ≡ some cs)
  fresh_commands true commands cs h = (refl, h)
  fresh_commands false commands cs h = cc

  verified-Trusted :
      (vk : Bytes) (now : ℕ) (hb_resp : HeartbeatResponse) (cs : List BridgeCommand)
      → now < 2 ^ 63
      → (verify_response dsa codecs vk now hb_resp).pending_commands ≡ some cs
      → Trusted vk now hb_resp cs
  unfolding verify_response
  verified-Trusted vk now hb_resp cs clock h =
      let (payload, p, h1) = default_or-some hb_resp.signed_payload _ cs h in
      let (sig_b64, s, h2) = default_or-some hb_resp.response_signature _ cs h1 in
      let (bytes, d, h3) = default_or-some (codecs.decode sig_b64) _ cs h2 in
      let (sig, f, h4) = ok_or_default-some (signature_from_bytes bytes) _ cs h3 in
      let (u, v, h5) = ok_or_default-some (verify dsa vk payload sig) _ cs h4 in
      let (inner, i, h6) = default_or-some (codecs.payload_from_str payload) _ cs h5 in
      let (fresh, commands) = fresh_commands (is_fresh now inner.ts) inner.pending_commands cs h6 in
      let (same, size) = signature_of bytes sig f in
      (
        payload,
        sig_b64,
        sig,
        inner,
        p,
        s,
        d ∙ ap some same,
        size,
        verified vk payload sig u v,
        i,
        (is_fresh-Near now inner.ts clock).0 fresh,
        commands,
      )

  trusted :
      (vk : Bytes) (now : ℕ) (hb_resp : HeartbeatResponse) (cs : List BridgeCommand)
      → now < 2 ^ 63
      → Trusted vk now hb_resp cs
      → (verify_response dsa codecs vk now hb_resp).pending_commands ≡ some cs
  unfolding verify_response signature_from_bytes verify
  trusted vk now hb_resp cs clock
        (payload, sig_b64, sig, inner, p, s, d, size, v, i, near, commands) =
      let exact : (length sig == signature_len) ≡ true =
        (==_iff (length sig) signature_len).1 size in
      rw (p, s, d, exact, v, i, (is_fresh-Near now inner.ts clock).1 near) commands

  -- A bridge that has the cloud's key takes commands from a reply exactly where the reply carries a signed payload and
  -- a signature of the right length that verifies under that key over the very text of the payload, and the payload
  -- parses and its time is within five minutes of the bridge's clock (which is below 2^63 seconds); the commands
  -- are then those of the payload. Whatever else the reply says, no other commands are taken.
  pub verify_response-Trusted :
      (vk : Bytes) (now : ℕ) (hb_resp : HeartbeatResponse) (cs : List BridgeCommand)
      → now < 2 ^ 63
      → ((verify_response dsa codecs vk now hb_resp).pending_commands ≡ some cs)
        ↔ Trusted vk now hb_resp cs
  verify_response-Trusted vk now hb_resp cs clock =
      (verified-Trusted vk now hb_resp cs clock, trusted vk now hb_resp cs clock)
