-- ===== src/Crypto/Handshake/Sizes.antt =====
-- What the messages of latticeshield-crypto/src/handshake.rs are made of, and their lengths.
use latticeshield.Prelude.{
  ◌≡◌, refl, sym, ap, ◌∙◌, ◌++◌, length, length-append, take, take-append, some, Result, ok, err,
  ok_or, bind-ok, ok_injective, arith, ok_or-ok,
}
use latticeshield.Prelude.Bytes.{Bytes}
use latticeshield.Crypto.Primitives.{Hkdf}
use latticeshield.Crypto.Signing.{
  MlDsa, MlDsaLaws, signature_len, sign, verify, signature_from_bytes, generate_keypair,
}
use latticeshield.Crypto.Handshake.{
  HandshakeError, X25519, X25519Laws, MlKem, MlKemLaws, ClientResponse, ServerDraws,
  derive_session_key, new, client_hello, server_hello_bytes, server_hello_signed_bytes,
  serialize_client_response, serialize_client_response_signed, client_respond, server_hello_len,
  server_hello_signed_len, client_response_len, client_response_signed_len, try,
}

pub try-ok : {E F A : Type 0} (r : Result E A) (e : F) (a : A) → try r e ≡ ok a → r ≡ ok a
try-ok (ok b) e a h = ap ok (ok_injective h)
try-ok (err x) e a h = cc

module _ (dsa : MlDsa) (laws : MlDsaLaws dsa) where
  -- A signature of a generated key has its length and verifies.
  pub sign-ok :
      (sk msg randomness sig : Bytes)
      → sign dsa sk msg randomness ≡ ok sig
      → length sig ≡ signature_len
  unfolding sign
  sign-ok sk msg randomness sig h = laws.length-sig sk msg _ randomness sig (ok_or-ok _ _ sig h)

  pub verify-sign :
      (seed msg randomness sig : Bytes)
      → sign dsa (generate_keypair dsa seed).0 msg randomness ≡ ok sig
      → verify dsa (generate_keypair dsa seed).1 msg sig ≡ ok tt
  unfolding sign verify generate_keypair
  verify-sign seed msg randomness sig h =
      rw (laws.verifies-sign_with seed msg _ randomness sig (ok_or-ok _ _ sig h)) refl

  pub signature_read :
      (sig : Bytes) → length sig ≡ signature_len → signature_from_bytes sig ≡ ok sig
  unfolding signature_from_bytes
  signature_read sig h = ground arith

module _ {Dk Ek : Type 0} (dsa : MlDsa) (x : X25519) (kem : MlKem Dk Ek) (hkdf : Hkdf)
    (dsa_laws : MlDsaLaws dsa) (x_laws : X25519Laws x) (kem_laws : MlKemLaws kem) where
  pub length-server_hello_bytes :
      (draws : ServerDraws)
      → length draws.nonce ≡ 32
      → length (server_hello_bytes dsa x kem hkdf (new dsa x kem hkdf draws)) ≡ server_hello_len
  unfolding server_hello_bytes new
  length-server_hello_bytes draws n = omega (
    arith,
    length-append (x.public_key draws.x25519_secret)
        (kem.as_bytes (kem.generate draws.kem_seed).1 ++ draws.nonce),
    length-append (kem.as_bytes (kem.generate draws.kem_seed).1) draws.nonce,
    x_laws.length-public_key draws.x25519_secret,
    kem_laws.length-as_bytes (kem.generate draws.kem_seed).1,
  )

  -- The signed first message is the plain one with a signature.
  pub signed_hello :
      (draws : ServerDraws) (seed randomness buf : Bytes)
      → server_hello_signed_bytes dsa x kem hkdf
          (new dsa x kem hkdf draws)
          (generate_keypair dsa seed).0
          randomness
        ≡ ok buf
      → (sig : Bytes) × (server_hello_bytes dsa x kem hkdf (new dsa x kem hkdf draws) ++ sig ≡ buf)
        × (length sig ≡ signature_len)
  unfolding server_hello_signed_bytes
  signed_hello draws seed randomness buf h =
      let hello = server_hello_bytes dsa x kem hkdf (new dsa x kem hkdf draws) in
      let (sig, signed, built) =
        bind-ok
          (try (sign dsa (generate_keypair dsa seed).0 hello randomness)
            HandshakeError.authentication_failed)
          h in
      (sig, ok_injective built, sign-ok dsa dsa_laws _ _ _ sig (try-ok _ _ sig signed))

  pub length-server_hello_signed_bytes :
      (draws : ServerDraws) (seed randomness buf : Bytes)
      → length draws.nonce ≡ 32
      → server_hello_signed_bytes dsa x kem hkdf
          (new dsa x kem hkdf draws)
          (generate_keypair dsa seed).0
          randomness
        ≡ ok buf
      → length buf ≡ server_hello_signed_len
  length-server_hello_signed_bytes draws seed randomness buf n h =
      let hello = server_hello_bytes dsa x kem hkdf (new dsa x kem hkdf draws) in
      let (sig, joined, size) = signed_hello draws seed randomness buf h in
      ap length (sym joined)
      ∙ omega (arith, length-append hello sig, length-server_hello_bytes draws n)

  pub take-server_hello_signed_bytes :
      (draws : ServerDraws) (seed randomness buf : Bytes)
      → length draws.nonce ≡ 32
      → server_hello_signed_bytes dsa x kem hkdf
          (new dsa x kem hkdf draws)
          (generate_keypair dsa seed).0
          randomness
        ≡ ok buf
      → take server_hello_len buf ≡ server_hello_bytes dsa x kem hkdf (new dsa x kem hkdf draws)
  take-server_hello_signed_bytes draws seed randomness buf n h =
      let hello = server_hello_bytes dsa x kem hkdf (new dsa x kem hkdf draws) in
      let (sig, joined, size) = signed_hello draws seed randomness buf h in
      ap (take server_hello_len) (sym joined)
      ∙ take-append 1248 hello sig (length-server_hello_bytes draws n)

  -- The client's response and key, from the hello of a server.
  pub responded :
      (draws : ServerDraws) (secret randomness : Bytes) (response : ClientResponse) (key : Bytes)
      → client_respond dsa x kem hkdf
          (client_hello dsa x kem hkdf (new dsa x kem hkdf draws))
          secret
          randomness
        ≡ ok (response, key)
      → (ct : Bytes) × (ss : Bytes) × (kem.encapsulate (kem.generate draws.kem_seed).1 randomness
          ≡ some (ct, ss))
        × (derive_session_key hkdf
              (x.diffie_hellman secret (x.public_key draws.x25519_secret))
              ss
              draws.nonce
            ≡ ok key)
        × (response ≡ record { x25519_public = x.public_key secret; kem_ciphertext = ct })
  unfolding client_respond client_hello new
  responded draws secret randomness response key h =
      let (out, e, h1) =
        bind-ok
          (ok_or (kem.encapsulate (kem.generate draws.kem_seed).1 randomness)
            HandshakeError.encapsulate_failed)
          h in
      let (k, d, h2) =
        bind-ok
          (derive_session_key hkdf (x.diffie_hellman secret (x.public_key draws.x25519_secret))
            out.1 draws.nonce)
          h1 in
      (
        out.0,
        out.1,
        ok_or-ok _ _ out e,
        d ∙ ap ok (ap (λ r. r.1) (ok_injective h2)),
        sym (ap (λ r. r.0) (ok_injective h2)),
      )

  pub length-serialize_client_response :
      (secret ct : Bytes)
      → length ct ≡ 1088
      → length (
          serialize_client_response dsa x kem hkdf
            (record { x25519_public = x.public_key secret; kem_ciphertext = ct }))
        ≡ client_response_len
  unfolding serialize_client_response
  length-serialize_client_response secret ct n =
      omega (arith, length-append (x.public_key secret) ct, x_laws.length-public_key secret)

  pub length-response :
      (draws : ServerDraws) (secret randomness : Bytes) (response : ClientResponse) (key : Bytes)
      → client_respond dsa x kem hkdf
          (client_hello dsa x kem hkdf (new dsa x kem hkdf draws))
          secret
          randomness
        ≡ ok (response, key)
      → length (serialize_client_response dsa x kem hkdf response) ≡ client_response_len
  length-response draws secret randomness response key h =
      let (ct, ss, e, _, shape) = responded draws secret randomness response key h in
      ap (λ r. length (serialize_client_response dsa x kem hkdf r)) shape
      ∙ length-serialize_client_response secret ct (kem_laws.length-ct _ _ ct ss e)

  pub length-response_signed :
      (draws : ServerDraws) (secret randomness : Bytes) (response : ClientResponse)
      (key sk raw sig_randomness buf : Bytes)
      → client_respond dsa x kem hkdf
          (client_hello dsa x kem hkdf (new dsa x kem hkdf draws))
          secret
          randomness
        ≡ ok (response, key)
      → serialize_client_response_signed dsa x kem hkdf response sk raw sig_randomness ≡ ok buf
      → length buf ≡ client_response_signed_len
  unfolding serialize_client_response_signed
  length-response_signed draws secret randomness response key sk raw sig_randomness buf h k =
      let cr = serialize_client_response dsa x kem hkdf response in
      let (sig, signed, built) =
        bind-ok (try (sign dsa sk (cr ++ raw) sig_randomness) HandshakeError.client_auth_failed)
          k in
      ap length (sym (ok_injective built))
      ∙ omega (
        arith,
        length-append cr sig,
        length-response draws secret randomness response key h,
        sign-ok dsa dsa_laws _ _ _ sig (try-ok _ _ sig signed),
      )
