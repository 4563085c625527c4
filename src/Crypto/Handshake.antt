-- ===== src/Crypto/Handshake.antt =====
-- latticeshield-crypto/src/handshake.rs. X25519 of the crate x25519-dalek and ML-KEM-768 of the crate ml-kem are
-- parameters, and so are the types of ML-KEM's keys. What the generator draws is an argument.
pub mod Sizes
pub mod Agreement
pub mod Signed
use latticeshield.Prelude.{
  ℕ, ◌+◌, ◌≡◌, List, [], ◌∷◌, ◌++◌, length, take, drop, Option, none, some, Result, ok, err, ok_or,
  map_err, ◌>>=?◌,
}
use latticeshield.Prelude.Bytes.{Bytes}
use latticeshield.Prelude.Text.{codes}
use latticeshield.Crypto.Primitives.{Hkdf}
use latticeshield.Crypto.Signing.{
  MlDsa, SigningError, signature_len, sign, verify, signature_from_bytes,
}

abbrev pub hkdf_info : Bytes
hkdf_info = codes "latticeshield-v1-session-key"

abbrev pub session_key_len : ℕ
session_key_len = 32

abbrev pub x25519_key_len : ℕ
x25519_key_len = 32

abbrev pub mlkem768_ek_len : ℕ
mlkem768_ek_len = 1184

abbrev pub mlkem768_ct_len : ℕ
mlkem768_ct_len = 1088

abbrev pub nonce_len : ℕ
nonce_len = 32

abbrev pub server_hello_len : ℕ
server_hello_len = x25519_key_len + mlkem768_ek_len + nonce_len

abbrev pub server_hello_signed_len : ℕ
server_hello_signed_len = server_hello_len + signature_len

abbrev pub client_response_len : ℕ
client_response_len = x25519_key_len + mlkem768_ct_len

abbrev pub client_response_signed_len : ℕ
client_response_signed_len = client_response_len + signature_len

pub data HandshakeError : Type 0 where
  encapsulate_failed decapsulate_failed hkdf_failed : HandshakeError
  authentication_failed client_auth_failed : HandshakeError

-- The public key of a secret, and `diffie_hellman` of a secret and a public key.
pub record X25519 : Type 0 where
  pub public_key : Bytes → Bytes
  pub diffie_hellman : Bytes → Bytes → Bytes

-- Both sides get one secret, and public keys have 32 bytes.
pub record X25519Laws (x : X25519) : Type 0 where
  pub commutes :
      (a b : Bytes) → x.diffie_hellman a (x.public_key b) ≡ x.diffie_hellman b (x.public_key a)
  pub length-public_key : (a : Bytes) → length (x.public_key a) ≡ 32

-- `generate` gives a pair from what it draws; `encapsulate` a ciphertext and a secret.
pub record MlKem (Dk Ek : Type 0) : Type 0 where
  pub generate : Bytes → Dk × Ek
  pub as_bytes : Ek → Bytes
  pub from_bytes : Bytes → Ek
  pub encapsulate : Ek → Bytes → Option (Bytes × Bytes)
  pub decapsulate : Dk → Bytes → Option Bytes

-- Decapsulation with the key of the pair gives the secret; keys can be written and read.
pub record MlKemLaws {Dk Ek : Type 0} (k : MlKem Dk Ek) : Type 0 where
  pub decapsulate-encapsulate :
      (seed randomness ct ss : Bytes)
      → k.encapsulate (k.generate seed).1 randomness ≡ some (ct, ss)
      → k.decapsulate (k.generate seed).0 ct ≡ some ss
  pub from_bytes-as_bytes : (ek : Ek) → k.from_bytes (k.as_bytes ek) ≡ ek
  pub length-as_bytes : (ek : Ek) → length (k.as_bytes ek) ≡ 1184
  pub length-ct :
      (ek : Ek) (randomness ct ss : Bytes)
      → k.encapsulate ek randomness ≡ some (ct, ss)
      → length ct ≡ 1088

pub record ClientHello (Ek : Type 0) : Type 0 where
  pub x25519_public : Bytes
  pub kem_encap_key : Ek
  pub nonce : Bytes

pub record ClientResponse : Type 0 where
  pub x25519_public : Bytes
  pub kem_ciphertext : Bytes

pub record ServerHandshake (Dk Ek : Type 0) : Type 0 where
  pub x25519_secret : Bytes
  pub kem_decap_key : Dk
  pub kem_encap_key : Ek
  pub nonce : Bytes
  pub server_hello_raw : Bytes

-- What the server's generator draws for a handshake.
pub record ServerDraws : Type 0 where
  pub x25519_secret : Bytes
  pub kem_seed : Bytes
  pub nonce : Bytes

abbrev pub try {ℓ κ μ} : {E : Type ℓ} {F : Type κ} {A : Type μ} → Result E A → F → Result F A
try r e = map_err (λ _. e) r

module _ (hkdf : Hkdf) where
  unfoldable pub derive_session_key :
      (x25519_secret kem_secret nonce : Bytes) → Result HandshakeError Bytes
  derive_session_key x25519_secret kem_secret nonce =
      ok_or (hkdf.expand nonce (x25519_secret ++ kem_secret) hkdf_info session_key_len) hkdf_failed

module _ {Dk Ek : Type 0} (dsa : MlDsa) (x : X25519) (kem : MlKem Dk Ek) (hkdf : Hkdf) where
  unfoldable pub new : ServerDraws → ServerHandshake Dk Ek
  new draws =
      let pair = kem.generate draws.kem_seed in
      record {
        x25519_secret = draws.x25519_secret;
        kem_decap_key = pair.0;
        kem_encap_key = pair.1;
        nonce = draws.nonce;
        server_hello_raw = x.public_key draws.x25519_secret ++ (kem.as_bytes pair.1 ++ draws.nonce);
      }

  unfoldable pub client_hello : ServerHandshake Dk Ek → ClientHello Ek
  client_hello s = record {
    x25519_public = x.public_key s.x25519_secret;
    kem_encap_key = s.kem_encap_key;
    nonce = s.nonce;
  }

  unfoldable pub server_hello_bytes : ServerHandshake Dk Ek → Bytes
  server_hello_bytes s = s.server_hello_raw

  unfoldable pub server_hello_signed_bytes :
      ServerHandshake Dk Ek → (signing_key randomness : Bytes) → Result HandshakeError Bytes
  server_hello_signed_bytes s signing_key randomness =
      try (sign dsa signing_key (server_hello_bytes s) randomness) authentication_failed >>=? λ sig.
      ok (server_hello_bytes s ++ sig)

  unfoldable pub complete : ServerHandshake Dk Ek → ClientResponse → Result HandshakeError Bytes
  complete s response =
      ok_or (kem.decapsulate s.kem_decap_key response.kem_ciphertext) decapsulate_failed
      >>=? λ kem_shared.
          derive_session_key hkdf (x.diffie_hellman s.x25519_secret response.x25519_public)
            kem_shared s.nonce

  unfoldable pub complete_from_wire : ServerHandshake Dk Ek → Bytes → Result HandshakeError Bytes
  complete_from_wire s bytes = complete s (record {
    x25519_public = take x25519_key_len bytes;
    kem_ciphertext = drop x25519_key_len bytes;
  })

  unfoldable pub complete_from_wire_signed :
      ServerHandshake Dk Ek → (bytes client_vk : Bytes) → Result HandshakeError Bytes
  complete_from_wire_signed s bytes client_vk =
      try (signature_from_bytes (drop client_response_len bytes)) client_auth_failed >>=? λ sig.
      try (verify dsa client_vk (take client_response_len bytes ++ s.server_hello_raw) sig)
        client_auth_failed
      >>=? λ _. complete_from_wire s (take client_response_len bytes)

  unfoldable pub parse_server_hello : Bytes → ClientHello Ek
  parse_server_hello bytes = record {
    x25519_public = take x25519_key_len bytes;
    kem_encap_key = kem.from_bytes (take mlkem768_ek_len (drop x25519_key_len bytes));
    nonce = drop (x25519_key_len + mlkem768_ek_len) bytes;
  }

  unfoldable pub parse_server_hello_signed :
      (bytes vk : Bytes) → Result HandshakeError (ClientHello Ek)
  parse_server_hello_signed bytes vk =
      try (signature_from_bytes (drop server_hello_len bytes)) authentication_failed >>=? λ sig.
      try (verify dsa vk (take server_hello_len bytes) sig) authentication_failed >>=? λ _.
      ok (parse_server_hello (take server_hello_len bytes))

  unfoldable pub serialize_client_response : ClientResponse → Bytes
  serialize_client_response r = r.x25519_public ++ r.kem_ciphertext

  unfoldable pub serialize_client_response_signed :
      ClientResponse → (sk server_hello randomness : Bytes) → Result HandshakeError Bytes
  serialize_client_response_signed r sk server_hello randomness =
      try (sign dsa sk (serialize_client_response r ++ server_hello) randomness) client_auth_failed
      >>=? λ sig. ok (serialize_client_response r ++ sig)

  -- The client's secret and what the encapsulation draws.
  unfoldable pub client_respond :
      ClientHello Ek → (secret randomness : Bytes) → Result HandshakeError (ClientResponse × Bytes)
  client_respond hello secret randomness =
      ok_or (kem.encapsulate hello.kem_encap_key randomness) encapsulate_failed >>=? λ kem_out.
      derive_session_key hkdf (x.diffie_hellman secret hello.x25519_public) kem_out.1 hello.nonce
      >>=? λ session_key.
          ok (
            record { x25519_public = x.public_key secret; kem_ciphertext = kem_out.0 },
            session_key,
          )
