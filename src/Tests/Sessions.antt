-- ===== src/Tests/Sessions.antt =====
-- A handshake between a bridge and a client with an identity.
use latticeshield.Prelude.{
  ℕ, ◌≤◌, ◌≡◌, refl, ◌↔◌, true, false, [], ◌∷◌, ◌++◌, length, take, drop, replicate, Option, none,
  some, ok, err, arith,
}
use latticeshield.Prelude.Bytes.{Bytes}
use latticeshield.Crypto.Signing.{generate_keypair, sign, signing_context}
use latticeshield.Crypto.Stream.{Stream}
use latticeshield.Crypto.Handshake.{
  ServerDraws, new, server_hello_bytes, server_hello_signed_bytes, client_response_len,
  client_response_signed_len,
}
use latticeshield.Crypto.Handshake.Sizes.{length-server_hello_signed_bytes}
use latticeshield.Crypto.Channel.State.{EncryptedChannel}
use latticeshield.Crypto.Channel.Link.{Writer}
use latticeshield.Bridge.Session.{Session, MetricsState}
use latticeshield.Bridge.Handshake.{start, relays}
use latticeshield.Client.Handshake.{ClientDraws, do_handshake, auth}
use latticeshield.Tunnel.Sync.{Synced}
use latticeshield.Tunnel.Established.{
  identity_of, client_auth_of, Greeting, do_handshake-handshake_with,
}
use latticeshield.Tunnel.Reaches.{do_handshake_reaches}
use latticeshield.Crypto.Handshake.Signed.{SignedBy}
use latticeshield.Tunnel.Authentic.{start-SignedBy, do_handshake-auth}
use latticeshield.Tests.Cipher.{toy_hkdf, toy_hkdf_laws}
use latticeshield.Tests.Exchange.{
  toy_dsa, toy_dsa_laws, toy_x25519, toy_x25519_laws, toy_kem, toy_kem_laws, the_signature,
  ciphertext,
}

abbrev pub draws : ServerDraws
draws = record { x25519_secret = 3 ∷ []; kem_seed = 4 ∷ []; nonce = replicate 32 5 }

abbrev client_draws : ClientDraws
client_draws = record { x25519_secret = 6 ∷ []; kem_randomness = 8 ∷ []; sign_randomness = 9 ∷ [] }

abbrev pub seed : Bytes
seed = 1 ∷ []

abbrev client_seed : Option Bytes
client_seed = some (2 ∷ [])

abbrev pub hello : Bytes
hello =
    server_hello_bytes toy_dsa toy_x25519 toy_kem toy_hkdf
      (new toy_dsa toy_x25519 toy_kem toy_hkdf draws)
    ++ the_signature

pub greeting :
    Greeting toy_dsa toy_x25519 toy_kem toy_hkdf toy_dsa_laws toy_x25519_laws toy_kem_laws draws
      seed [] hello
unfolding server_hello_signed_bytes sign
greeting = refl

abbrev writer : Writer
writer = record { sent = []; room = 5000; flushes = true }

abbrev pub Reached : Type 0
Reached =
    (channel : EncryptedChannel) × (s : Stream) × (do_handshake toy_dsa toy_x25519 toy_kem toy_hkdf
        client_draws (generate_keypair toy_dsa seed).1
        (identity_of toy_dsa toy_x25519 toy_kem toy_hkdf toy_dsa_laws toy_x25519_laws toy_kem_laws
          client_seed)
        1000 (record { input = hello ++ (1 ∷ []); output = writer })
      ≡ ok (channel, s))
    × (s.input ≡ 1 ∷ [])

do_handshake_reaches_example : Reached
unfolding sign
do_handshake_reaches_example =
    do_handshake_reaches toy_dsa toy_x25519 toy_kem toy_hkdf toy_dsa_laws toy_x25519_laws
      toy_kem_laws toy_hkdf_laws draws client_draws seed [] hello (1 ∷ []) client_seed 1000 writer
      (ciphertext (8 ∷ [])) (take 32 (ciphertext (8 ∷ []))) refl greeting refl
      (λ msg. (the_signature, refl)) (omega arith)

pub reached : Reached
unfolding sign
reached =
    do_handshake_reaches toy_dsa toy_x25519 toy_kem toy_hkdf toy_dsa_laws toy_x25519_laws
      toy_kem_laws toy_hkdf_laws draws client_draws seed [] hello (1 ∷ []) client_seed 1000 writer
      (ciphertext (8 ∷ [])) (take 32 (ciphertext (8 ∷ []))) refl greeting refl
      (λ msg. (the_signature, refl)) (omega arith)

abbrev metrics_state : MetricsState
metrics_state = record {
  key_rotations_total = 0;
  channel_errors_total = 0;
  bytes_transmitted_total = 0;
}

short : length hello ≤ 5000
short = omega (
  arith,
  length-server_hello_signed_bytes toy_dsa toy_x25519 toy_kem toy_hkdf toy_dsa_laws toy_x25519_laws
      toy_kem_laws draws seed [] hello refl greeting,
)

abbrev Started : Type 0
Started =
    (session : Session) × (start toy_dsa toy_x25519 toy_kem toy_hkdf false 2000 metrics_state
        (some writer) draws [] (generate_keypair toy_dsa seed).0
        (client_auth_of toy_dsa toy_x25519 toy_kem toy_hkdf toy_dsa_laws toy_x25519_laws
          toy_kem_laws client_seed)
        (record { input = reached.1.output.sent ++ []; output = writer })
      ≡ relays session)
    × Synced session.link.channel reached.0
    × Synced reached.0 session.link.channel
    × (session.bytes_this_epoch ≡ 0)
    × (session.link.input ≡ [])
    × (session.link.output.sent ≡ [] ++ hello)
    × (reached.1.input ≡ 1 ∷ [])

do_handshake-handshake_with_example : Started
do_handshake-handshake_with_example =
    do_handshake-handshake_with toy_dsa toy_x25519 toy_kem toy_hkdf toy_dsa_laws toy_x25519_laws
      toy_kem_laws draws client_draws seed [] hello (1 ∷ []) client_seed 1000 2000 writer writer
      writer metrics_state [] reached.0 reached.1 refl greeting reached.2 refl short refl
      (omega arith) (omega arith)

started : Started
started =
    do_handshake-handshake_with toy_dsa toy_x25519 toy_kem toy_hkdf toy_dsa_laws toy_x25519_laws
      toy_kem_laws draws client_draws seed [] hello (1 ∷ []) client_seed 1000 2000 writer writer
      writer metrics_state [] reached.0 reached.1 refl greeting reached.2 refl short refl
      (omega arith) (omega arith)

start-SignedBy_example :
    SignedBy toy_dsa toy_x25519 toy_kem toy_hkdf
      (replicate 1952 0)
      (take client_response_signed_len (reached.1.output.sent ++ []))
      (server_hello_bytes toy_dsa toy_x25519 toy_kem toy_hkdf
        (new toy_dsa toy_x25519 toy_kem toy_hkdf draws))
      client_response_len
unfolding generate_keypair
start-SignedBy_example =
    start-SignedBy toy_dsa toy_x25519 toy_kem toy_hkdf false 2000 metrics_state (some writer) draws
      [] (generate_keypair toy_dsa seed).0 (replicate 1952 0)
      (record { input = reached.1.output.sent ++ []; output = writer }) started.0 started.1

do_handshake-auth_example :
    (do_handshake toy_dsa toy_x25519 toy_kem toy_hkdf client_draws [] none 1000
        (record { input = replicate 4600 0; output = writer })
      ≡ err auth)
    ↔ ((4557 ≤ length {A = ℕ} (replicate 4600 0))
        × (toy_dsa.verifies []
              (take 1248 (take 4557 (replicate 4600 0)))
              signing_context
              (drop 1248 (take 4557 (replicate 4600 0)))
            ≡ false))
do_handshake-auth_example =
    do_handshake-auth toy_dsa toy_x25519 toy_kem toy_hkdf client_draws [] none 1000
      (record { input = replicate 4600 0; output = writer })
