-- ===== src/Tunnel/Reaches.antt =====
-- When the handshake of the client (latticeshield-client/src/client_session.rs) comes to an end without an error.
use latticeshield.Prelude.{ℕ, ◌≤◌, ◌≡◌, refl, ◌++◌, length, Option, none, some, ok, arith}
use latticeshield.Prelude.Bytes.{Bytes}
use latticeshield.Crypto.Primitives.{Hkdf, HkdfLaws}
use latticeshield.Crypto.Signing.{MlDsa, MlDsaLaws, generate_keypair, sign}
use latticeshield.Crypto.Stream.{Stream, read_exact-append, write_all_fits}
use latticeshield.Crypto.Handshake.{
  X25519, X25519Laws, MlKem, MlKemLaws, ClientResponse, ServerDraws, new, client_hello,
  server_hello_bytes, client_respond, derive_session_key, hkdf_info, serialize_client_response,
  serialize_client_response_signed,
}
use latticeshield.Crypto.Handshake.Sizes.{
  length-server_hello_signed_bytes, take-server_hello_signed_bytes, length-response,
  length-response_signed,
}
use latticeshield.Crypto.Handshake.Agreement.{parse_server_hello_signed-server_hello_signed_bytes}
use latticeshield.Crypto.Channel.State
use latticeshield.Crypto.Channel.State.{EncryptedChannel}
use latticeshield.Crypto.Channel.Link.{Writer, wrote}
use latticeshield.Client.Handshake.{ClientDraws, response_bytes, do_handshake}
use latticeshield.Tunnel.Established.{identity_of, Greeting, Answer, Sends}

module _ {Dk Ek : Type 0} (dsa : MlDsa) (x : X25519) (kem : MlKem Dk Ek) (hkdf : Hkdf)
    (dsa_laws : MlDsaLaws dsa) (x_laws : X25519Laws x) (kem_laws : MlKemLaws kem)
    (hkdf_laws : HkdfLaws hkdf) where
  responds :
      (draws : ServerDraws) (cdraws : ClientDraws) (ct ss : Bytes)
      → kem.encapsulate (kem.generate draws.kem_seed).1 cdraws.kem_randomness ≡ some (ct, ss)
      → (response : ClientResponse) × (key : Bytes) × Answer dsa x kem hkdf dsa_laws x_laws kem_laws
          draws cdraws response key
  unfolding client_respond client_hello new derive_session_key
  responds draws cdraws ct ss e =
      let shared = x.diffie_hellman cdraws.x25519_secret (x.public_key draws.x25519_secret) in
      let (key, expands, _) =
        hkdf_laws.expands draws.nonce (shared ++ ss) hkdf_info 32 (omega arith) in
      (
        record { x25519_public = x.public_key cdraws.x25519_secret; kem_ciphertext = ct },
        key,
        rw (e, expands) refl,
      )

  -- A client with an identity can sign.
  abbrev pub Signs : Option Bytes → (randomness : Bytes) → Type 0
  Signs none randomness = Unit {0}
  Signs (some seed) randomness =
      (msg : Bytes)
      → (sig : Bytes) × (sign dsa (generate_keypair dsa seed).0 msg randomness ≡ ok sig)

  sends :
      (draws : ServerDraws) (cdraws : ClientDraws) (client_seed : Option Bytes)
      (response : ClientResponse) (key : Bytes)
      → Answer dsa x kem hkdf dsa_laws x_laws kem_laws draws cdraws response key
      → Signs client_seed cdraws.sign_randomness
      → (bytes : Bytes) × Sends dsa x kem hkdf dsa_laws x_laws kem_laws draws cdraws client_seed
          response bytes
        × (length bytes ≤ 4429)
  unfolding response_bytes serialize_client_response_signed
  sends draws cdraws none response key answer signs = (
    serialize_client_response dsa x kem hkdf response,
    refl,
    omega (
      arith,
      length-response dsa x kem hkdf dsa_laws x_laws kem_laws draws cdraws.x25519_secret
          cdraws.kem_randomness response key answer,
    ),
  )
  sends draws cdraws (some seed) response key answer signs =
      let raw = server_hello_bytes dsa x kem hkdf (new dsa x kem hkdf draws) in
      let (sig, signed) = signs (serialize_client_response dsa x kem hkdf response ++ raw) in
      (
        serialize_client_response dsa x kem hkdf response ++ sig,
        rw signed refl,
        omega (
          arith,
          length-response_signed dsa x kem hkdf dsa_laws x_laws kem_laws draws cdraws.x25519_secret
              cdraws.kem_randomness response key (generate_keypair dsa seed).0 raw
              cdraws.sign_randomness (serialize_client_response dsa x kem hkdf response ++ sig)
              answer (rw signed refl),
        ),
      )

  -- The client's handshake reaches a channel on the bytes of a bridge's hello, where the primitives do not fail
  -- (the encapsulation gives a ciphertext, and a client with an identity can sign) and the connection takes the
  -- 4429 bytes of the longest response. The client has then read exactly the hello.
  pub do_handshake_reaches :
      (draws : ServerDraws) (cdraws : ClientDraws) (seed randomness hello rest : Bytes)
      (client_seed : Option Bytes) (size : ℕ) (w : Writer) (ct ss : Bytes)
      → length draws.nonce ≡ 32
      → Greeting dsa x kem hkdf dsa_laws x_laws kem_laws draws seed randomness hello
      → kem.encapsulate (kem.generate draws.kem_seed).1 cdraws.kem_randomness ≡ some (ct, ss)
      → Signs client_seed cdraws.sign_randomness
      → 4429 ≤ w.room
      → (channel : EncryptedChannel) × (s : Stream) × (do_handshake dsa x kem hkdf cdraws
            (generate_keypair dsa seed).1
            (identity_of dsa x kem hkdf dsa_laws x_laws kem_laws client_seed)
            size
            (record { input = hello ++ rest; output = w })
          ≡ ok (channel, s))
        × (s.input ≡ rest)
  unfolding do_handshake
  do_handshake_reaches draws cdraws seed randomness hello rest client_seed size w ct ss n g e signs
        room =
      let (response, key, answer) = responds draws cdraws ct ss e in
      let (bytes, sent, short) = sends draws cdraws client_seed response key answer signs in
      let reads = read_exact-append 4557 hello rest w (
        length-server_hello_signed_bytes dsa x kem hkdf dsa_laws x_laws kem_laws draws seed
          randomness hello n g) in
      let parses =
        parse_server_hello_signed-server_hello_signed_bytes dsa x kem hkdf dsa_laws x_laws kem_laws
          draws seed randomness hello n g in
      let raw =
        take-server_hello_signed_bytes dsa x kem hkdf dsa_laws x_laws kem_laws draws seed randomness
          hello n g in
      (
        State.new key size,
        record { input = rest; output = wrote bytes w },
        rw
            (
              reads,
              parses,
              raw,
              answer,
              sent,
              write_all_fits bytes (record { input = rest; output = w }) (omega arith),
            )
            refl,
        refl,
      )
