-- ===== src/Client/Handshake.antt =====
-- `do_handshake` of latticeshield-client/src/client_session.rs. What the generator draws is an argument.
use latticeshield.Prelude.{ℕ, take, Option, none, some, Result, ok, ok_or, map_err, ◌>>=?◌}
use latticeshield.Prelude.Bytes.{Bytes}
use latticeshield.Crypto.Primitives.{Hkdf}
use latticeshield.Crypto.Signing.{MlDsa}
use latticeshield.Crypto.Stream.{Stream, read_exact, write_all}
use latticeshield.Crypto.Handshake.{
  X25519, MlKem, ClientResponse, parse_server_hello_signed, client_respond,
  serialize_client_response, serialize_client_response_signed, server_hello_len,
  server_hello_signed_len,
}
use latticeshield.Crypto.Channel.State.{EncryptedChannel, new}

pub data HandshakeError : Type 0 where
  auth transport : HandshakeError

pub record ClientDraws : Type 0 where
  pub x25519_secret : Bytes
  pub kem_randomness : Bytes
  pub sign_randomness : Bytes

abbrev fails_as : {E A : Type 0} → HandshakeError → Result E A → Result HandshakeError A
fails_as e = map_err (λ _. e)

module _ {Dk Ek : Type 0} (dsa : MlDsa) (x : X25519) (kem : MlKem Dk Ek) (hkdf : Hkdf) where
  -- With an identity the response is signed.
  unfoldable pub response_bytes :
      (identity : Option Bytes)
      → ClientResponse
      → (server_hello_raw randomness : Bytes) → Result HandshakeError Bytes
  response_bytes none response server_hello_raw randomness =
      ok (serialize_client_response dsa x kem hkdf response)
  response_bytes (some signing_key) response server_hello_raw randomness = fails_as transport (
      serialize_client_response_signed dsa x kem hkdf response signing_key server_hello_raw
        randomness)

  unfoldable pub do_handshake :
      (draws : ClientDraws) (vk : Bytes) (identity : Option Bytes) (max_frame_size : ℕ)
      → Stream
      → Result HandshakeError (EncryptedChannel × Stream)
  do_handshake draws vk identity max_frame_size s =
      ok_or (read_exact server_hello_signed_len s) transport >>=? λ r.
      fails_as auth (parse_server_hello_signed dsa x kem hkdf r.0 vk) >>=? λ hello.
      fails_as transport
        (client_respond dsa x kem hkdf hello draws.x25519_secret draws.kem_randomness)
      >>=? λ k.
          response_bytes identity k.0 (take server_hello_len r.0) draws.sign_randomness
          >>=? λ response.
              ok_or (write_all response r.1) transport >>=? λ s1. ok (new k.1 max_frame_size, s1)
