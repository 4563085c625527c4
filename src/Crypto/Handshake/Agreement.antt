-- ===== src/Crypto/Handshake/Agreement.antt =====
-- The messages of latticeshield-crypto/src/handshake.rs read back, and the key on both sides.
use latticeshield.Prelude.{
  ◌≡◌, refl, sym, ap, ◌∙◌, ◌++◌, append_assoc, length, length-append, take-append, drop-append, ok,
  bind-ok, ok_injective, arith,
}
use latticeshield.Prelude.Bytes.{Bytes}
use latticeshield.Crypto.Primitives.{Hkdf}
use latticeshield.Crypto.Signing.{MlDsa, MlDsaLaws, sign, generate_keypair}
use latticeshield.Crypto.Handshake.{
  HandshakeError, X25519, X25519Laws, MlKem, MlKemLaws, ClientResponse, ServerDraws, new,
  client_hello, server_hello_bytes, server_hello_signed_bytes, complete, complete_from_wire,
  complete_from_wire_signed, parse_server_hello, parse_server_hello_signed,
  serialize_client_response, serialize_client_response_signed, client_respond, try,
}
use latticeshield.Crypto.Handshake.Sizes.{
  try-ok, sign-ok, verify-sign, signature_read, length-server_hello_bytes, responded,
  length-serialize_client_response,
}

module _ {Dk Ek : Type 0} (dsa : MlDsa) (x : X25519) (kem : MlKem Dk Ek) (hkdf : Hkdf)
    (dsa_laws : MlDsaLaws dsa) (x_laws : X25519Laws x) (kem_laws : MlKemLaws kem) where
  -- The first message read back.
  pub parse_server_hello-server_hello_bytes :
      (draws : ServerDraws)
      → parse_server_hello dsa x kem hkdf
          (server_hello_bytes dsa x kem hkdf (new dsa x kem hkdf draws))
        ≡ client_hello dsa x kem hkdf (new dsa x kem hkdf draws)
  unfolding parse_server_hello server_hello_bytes new client_hello
  parse_server_hello-server_hello_bytes draws =
      rw
        (
          take-append 32 pub_key (ek ++ draws.nonce) (x_laws.length-public_key _),
          drop-append 32 pub_key (ek ++ draws.nonce) (x_laws.length-public_key _),
          take-append 1184 ek draws.nonce (kem_laws.length-as_bytes _),
          sym (append_assoc pub_key ek draws.nonce),
          drop-append 1216 (pub_key ++ ek) draws.nonce (
              omega (
                arith,
                length-append pub_key ek,
                x_laws.length-public_key draws.x25519_secret,
                kem_laws.length-as_bytes (kem.generate draws.kem_seed).1,
              )),
          kem_laws.from_bytes-as_bytes,
        )
        refl
    where
      pub_key : Bytes
      pub_key = x.public_key draws.x25519_secret

      ek : Bytes
      ek = kem.as_bytes (kem.generate draws.kem_seed).1

  -- The signed first message read back by a holder of the server's verifying key.
  pub parse_server_hello_signed-server_hello_signed_bytes :
      (draws : ServerDraws) (seed randomness buf : Bytes)
      → length draws.nonce ≡ 32
      → server_hello_signed_bytes dsa x kem hkdf
          (new dsa x kem hkdf draws)
          (generate_keypair dsa seed).0
          randomness
        ≡ ok buf
      → parse_server_hello_signed dsa x kem hkdf buf (generate_keypair dsa seed).1
        ≡ ok (client_hello dsa x kem hkdf (new dsa x kem hkdf draws))
  unfolding server_hello_signed_bytes parse_server_hello_signed
  parse_server_hello_signed-server_hello_signed_bytes draws seed randomness buf n h =
      let hello = server_hello_bytes dsa x kem hkdf (new dsa x kem hkdf draws) in
      let (sig, signed, built) =
        bind-ok
          (try (sign dsa (generate_keypair dsa seed).0 hello randomness)
            HandshakeError.authentication_failed)
          h in
      let signed' = try-ok _ _ sig signed in
      let size = length-server_hello_bytes dsa x kem hkdf dsa_laws x_laws kem_laws draws n in
      rw
        (
          ← ok_injective built,
          drop-append 1248 hello sig size,
          take-append 1248 hello sig size,
          signature_read dsa dsa_laws sig (sign-ok dsa dsa_laws _ _ _ sig signed'),
          verify-sign dsa dsa_laws seed hello randomness sig signed',
          parse_server_hello-server_hello_bytes draws,
        )
        refl

  -- The server reads the response and gets the client's key.
  pub complete_from_wire-client_respond :
      (draws : ServerDraws) (secret randomness : Bytes) (response : ClientResponse) (key : Bytes)
      → client_respond dsa x kem hkdf
          (client_hello dsa x kem hkdf (new dsa x kem hkdf draws))
          secret
          randomness
        ≡ ok (response, key)
      → complete_from_wire dsa x kem hkdf
          (new dsa x kem hkdf draws)
          (serialize_client_response dsa x kem hkdf response)
        ≡ ok key
  unfolding complete_from_wire complete serialize_client_response new
  complete_from_wire-client_respond draws secret randomness response key h =
      let (ct, ss, e, d, shape) =
        responded dsa x kem hkdf dsa_laws x_laws kem_laws draws secret randomness response key h in
      rw
        (
          shape,
          take-append 32 (x.public_key secret) ct (x_laws.length-public_key secret),
          drop-append 32 (x.public_key secret) ct (x_laws.length-public_key secret),
          kem_laws.decapsulate-encapsulate draws.kem_seed randomness ct ss e,
          x_laws.commutes draws.x25519_secret secret,
        )
        d

  pub complete_from_wire_signed-client_respond :
      (draws : ServerDraws) (secret randomness : Bytes) (response : ClientResponse) (key : Bytes)
      (seed sig_randomness buf : Bytes)
      → client_respond dsa x kem hkdf
          (client_hello dsa x kem hkdf (new dsa x kem hkdf draws))
          secret
          randomness
        ≡ ok (response, key)
      → serialize_client_response_signed dsa x kem hkdf response
          (generate_keypair dsa seed).0
          (server_hello_bytes dsa x kem hkdf (new dsa x kem hkdf draws))
          sig_randomness
        ≡ ok buf
      → complete_from_wire_signed dsa x kem hkdf
          (new dsa x kem hkdf draws)
          buf
          (generate_keypair dsa seed).1
        ≡ ok key
  unfolding serialize_client_response_signed complete_from_wire_signed server_hello_bytes
  complete_from_wire_signed-client_respond draws secret randomness response key seed sig_randomness
        buf h k =
      let (ct, ss, e, _, shape) =
        responded dsa x kem hkdf dsa_laws x_laws kem_laws draws secret randomness response key h in
      let cr = serialize_client_response dsa x kem hkdf response in
      let raw = server_hello_bytes dsa x kem hkdf (new dsa x kem hkdf draws) in
      let (sig, signed, built) =
        bind-ok
          (try (sign dsa (generate_keypair dsa seed).0 (cr ++ raw) sig_randomness)
            HandshakeError.client_auth_failed)
          k in
      let signed' = try-ok _ _ sig signed in
      let size : length cr ≡ 1120 =
        ap (λ r. length (serialize_client_response dsa x kem hkdf r)) shape
        ∙ length-serialize_client_response dsa x kem hkdf dsa_laws x_laws kem_laws secret ct
            (kem_laws.length-ct _ _ ct ss e) in
      rw
        (
          ← ok_injective built,
          drop-append 1120 cr sig size,
          take-append 1120 cr sig size,
          signature_read dsa dsa_laws sig (sign-ok dsa dsa_laws _ _ _ sig signed'),
          verify-sign dsa dsa_laws seed (cr ++ raw) sig_randomness sig signed',
        )
        (complete_from_wire-client_respond draws secret randomness response key h)
