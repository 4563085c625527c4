-- ===== src/Crypto/Handshake/Signed.antt =====
-- What an end of a handshake (latticeshield-crypto/src/handshake.rs) has verified of the bytes that it read.
use latticeshield.Prelude.{
  ℕ, ◌≤◌, ◌≡◌, ap, inl, inr, Bool-cases, true, ◌++◌, length, take, drop, leb, none, some, ok,
  bind-ok, arith,
}
use latticeshield.Prelude.Bytes.{Bytes}
use latticeshield.Crypto.Primitives.{Hkdf}
use latticeshield.Crypto.Signing.{MlDsa, signing_context, signature_from_bytes, verify}
use latticeshield.Crypto.Stream.{Stream, read_exact}
use latticeshield.Crypto.Handshake.{
  X25519, MlKem, ServerHandshake, complete_from_wire_signed, client_response_len,
}
use latticeshield.Crypto.Handshake.Sizes.{try-ok}

signature_read : (bytes sig : Bytes) → signature_from_bytes bytes ≡ ok sig → bytes ≡ sig
unfolding signature_from_bytes
signature_read bytes sig h = ground arith

verified :
    (dsa : MlDsa) (vk msg sig : Bytes)
    → verify dsa vk msg sig ≡ ok tt
    → dsa.verifies vk msg signing_context sig ≡ true
unfolding verify
verified dsa vk msg sig h = ground arith

-- The bytes that `read_exact` takes, and their number.
pub read :
    (n : ℕ) (s : Stream) (r : Bytes × Stream)
    → read_exact n s ≡ some r
    → (take n s.input ≡ r.0) × (n ≤ length s.input)
unfolding read_exact
read n s r h = elim (Bool-cases (leb n (length s.input))) [
  | inl fits ↦
      (ap (λ o. elim o [ none ↦ take n s.input | some p ↦ p.0 ]) (rw fits at h), ground arith)
  | inr short ↦ cc (rw short at h)
]

module _ {Dk Ek : Type 0} (dsa : MlDsa) (x : X25519) (kem : MlKem Dk Ek) (hkdf : Hkdf) where
  -- A signature of `vk` over the first part of the message and `context`, in the rest of the message.
  abbrev pub SignedBy : (vk message context : Bytes) (len : ℕ) → Type 0
  SignedBy vk message context len =
      dsa.verifies vk (take len message ++ context) signing_context (drop len message) ≡ true

  pub response_signed :
      (server : ServerHandshake Dk Ek) (bytes vk key : Bytes)
      → complete_from_wire_signed dsa x kem hkdf server bytes vk ≡ ok key
      → SignedBy vk bytes server.server_hello_raw client_response_len
  unfolding complete_from_wire_signed
  response_signed server bytes vk key h =
      let (sig, parsed, h1) = bind-ok _ h in
      let (_, checked, _) = bind-ok _ h1 in
      rw (signature_read _ sig (try-ok _ _ sig parsed))
        (verified dsa vk _ sig (try-ok _ _ _ checked))
