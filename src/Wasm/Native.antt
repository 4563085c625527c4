-- ===== src/Wasm/Native.antt =====
-- The browser's handshake and signatures (latticeshield-wasm/src) against those of latticeshield-crypto/src.
use latticeshield.Prelude.{
  ◌≡◌, refl, sym, Bool-cases, inl, inr, ◌++◌, length, length-drop, take, drop, ◌==◌, ==_iff,
  if◌then◌else◌, Option-cases, Result, Result-cases, ok, err, map_err, ◌>>=?◌, arith,
}
use latticeshield.Prelude.Bytes.{Bytes}
use latticeshield.Prelude.Text.{codes}
use latticeshield.Crypto.Primitives.{Hkdf}
use latticeshield.Crypto.Signing
use latticeshield.Crypto.Signing.{MlDsa}
use latticeshield.Crypto.Handshake
use latticeshield.Crypto.Handshake.{X25519, MlKem, ClientHello, HandshakeError}
use mathlib.Core.Path.{fun_ext}
use latticeshield.Wasm.{
  WasmError, invalid_key_length, invalid_signature_length, sign_error, verify_error,
  handshake_error, signing_key_from_bytes, verifying_key_from_bytes, signature_from_bytes, sign_msg,
  verify_msg, wasm_sign, wasm_verify, wrong_hello_length, parse_server_hello,
  parse_server_hello_signed, derive_session_key, client_respond, generate_client_response,
}

-- What the native errors are called in the browser, where they arise.
abbrev pub renamed : HandshakeError → WasmError
renamed HandshakeError.encapsulate_failed = handshake_error (codes "ML-KEM encapsulation failed")
renamed HandshakeError.hkdf_failed = handshake_error (codes "HKDF expansion failed")
renamed other = handshake_error (codes "server authentication failed")

map_err-bind :
    {E F A B : Type 0} (f : E → F) (r : Result E A) (k : A → Result E B)
    → map_err f (r >>=? k) ≡ (map_err f r >>=? λ a. map_err f (k a))
map_err-bind f (ok a) k = refl
map_err-bind f (err e) k = refl

module _ {Dk Ek : Type 0} (dsa : MlDsa) (x : X25519) (kem : MlKem Dk Ek) (hkdf : Hkdf) where
  derived :
      (a b nonce : Bytes)
      → derive_session_key dsa x kem hkdf a b nonce
        ≡ map_err renamed (Handshake.derive_session_key hkdf a b nonce)
  unfolding derive_session_key Handshake.derive_session_key
  derived a b nonce =
      elim (Option-cases (hkdf.expand nonce (a ++ b) (codes "latticeshield-v1-session-key") 32)) [
        | inl none_out ↦ rw none_out refl
        | inr (okm, out) ↦ rw out refl
      ]

  abbrev responded :
      (parsed : ClientHello Ek) (secret randomness : Bytes) → Result HandshakeError (Bytes × Bytes)
  responded parsed secret randomness =
      Handshake.client_respond dsa x kem hkdf parsed secret randomness >>=? λ out.
      ok (Handshake.serialize_client_response dsa x kem hkdf out.0, out.1)

  client_respond-native :
      (parsed : ClientHello Ek) (secret randomness : Bytes)
      → client_respond dsa x kem hkdf parsed secret randomness
        ≡ map_err renamed (responded parsed secret randomness)
  unfolding client_respond Handshake.client_respond Handshake.serialize_client_response
  client_respond-native parsed secret randomness =
      elim (Option-cases (kem.encapsulate parsed.kem_encap_key randomness)) [
        | inl none_out ↦ rw none_out refl
        | inr (out, encapsulated) ↦
            rw
              (
                encapsulated,
                derived (x.diffie_hellman secret parsed.x25519_public) out.1 parsed.nonce,
              )
              (elim (Result-cases (
                Handshake.derive_session_key hkdf (x.diffie_hellman secret parsed.x25519_public)
                  out.1 parsed.nonce)) [
                    | inl (key, good) ↦ rw good refl
                    | inr (e, bad) ↦ rw bad refl
                  ])
      ]

  parse_server_hello_signed-native :
      (hello vk : Bytes)
      → length hello ≡ 4557
      → length vk ≡ 1952
      → parse_server_hello_signed dsa x kem hkdf hello vk
        ≡ map_err renamed (Handshake.parse_server_hello_signed dsa x kem hkdf hello vk)
  unfolding parse_server_hello_signed parse_server_hello verifying_key_from_bytes
      signature_from_bytes Handshake.parse_server_hello_signed Handshake.parse_server_hello
      Signing.signature_from_bytes Signing.verify
  parse_server_hello_signed-native hello vk n m =
      let tail : length (drop 1248 hello) ≡ 3309 = omega (arith, length-drop 1248 hello) in
      elim (Bool-cases
        (dsa.verifies vk (take 1248 hello) (codes "latticeshield-v1") (drop 1248 hello))) [
          | inl good ↦ rw (tail, m, good) refl
          | inr bad ↦ rw (tail, m, bad) refl
        ]

  -- The native client's steps on a hello and a key, up to the bytes of its response.
  abbrev pub native : (hello vk secret randomness : Bytes) → Result HandshakeError (Bytes × Bytes)
  native hello vk secret randomness =
      Handshake.parse_server_hello_signed dsa x kem hkdf hello vk >>=? λ parsed.
      responded parsed secret randomness

  -- On a hello of 4557 bytes and a key of 1952 bytes the browser's client gives the bytes and the session key that the native client
  -- gives, and fails where that fails, with the native error under its name in the browser. A hello of another length is refused
  -- with both lengths, and so is a key of another length where the hello has its length.
  pub generate_client_response-native :
      (hello vk secret randomness : Bytes)
      → generate_client_response dsa x kem hkdf hello vk secret randomness ≡ (
          if length hello == 4557
          then if length vk == 1952
            then map_err renamed (native hello vk secret randomness)
            else err (invalid_key_length 1952 (length vk))
          else err (handshake_error (wrong_hello_length (length hello))))
  unfolding generate_client_response
  generate_client_response-native hello vk secret randomness =
      elim (Bool-cases (length hello == 4557)) [
        | inr short ↦ rw short refl
        | inl whole ↦ elim (Bool-cases (length vk == 1952)) [
          | inr bad ↦ rw (whole, bad) refl
          | inl good ↦
              rw
                (
                  whole,
                  good,
                  parse_server_hello_signed-native hello vk ((==_iff _ _).0 whole)
                      ((==_iff _ _).0 good),
                  fun_ext (λ p. client_respond-native p secret randomness),
                )
                (sym (
                  map_err-bind renamed (Handshake.parse_server_hello_signed dsa x kem hkdf hello vk)
                    (λ p. responded p secret randomness)))
        ]
      ]

-- The signatures of the browser are those of the crypto crate with the lengths of keys and signatures checked:
-- on a key of the right length `wasm_sign` gives what the native `sign` gives, and `wasm_verify` accepts what the
-- native `verify` accepts and a signature of the right length; every other input is refused with the two lengths.
pub signing-native :
    (dsa : MlDsa) (sk vk msg randomness sig : Bytes)
    → (wasm_sign dsa sk msg randomness ≡ (
        if length sk == 4032
        then map_err (λ _. sign_error) (Signing.sign dsa sk msg randomness)
        else err (invalid_key_length 4032 (length sk))))
      × (wasm_verify dsa vk msg sig ≡ (
          if length vk == 1952
          then if length sig == 3309
            then map_err (λ _. verify_error) (Signing.verify dsa vk msg sig)
            else err (invalid_signature_length 3309 (length sig))
          else err (invalid_key_length 1952 (length vk))))
unfolding wasm_sign wasm_verify sign_msg verify_msg signing_key_from_bytes verifying_key_from_bytes
    signature_from_bytes Signing.sign Signing.verify
signing-native dsa sk vk msg randomness sig = (ground arith, ground arith)
