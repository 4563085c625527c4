-- ===== src/Tests/Admin.antt =====
-- Two visits to the admin channel, and connections within a second.
use latticeshield.Prelude.{
  ℕ, ◌+◌, ◌≤◌, ◌≡◌, ◌⊎◌, true, false, [], ◌∷◌, ◌++◌, take, replicate, none, some, arith,
}
use latticeshield.Prelude.Text.{codes}
use latticeshield.Crypto.Signing.{generate_keypair}
use latticeshield.Crypto.Handshake.{
  new, server_hello_bytes, client_response_len, client_response_signed_len,
}
use latticeshield.Crypto.Handshake.Signed.{SignedBy}
use latticeshield.Crypto.Channel.Link.{Writer}
use latticeshield.Crypto.Channel.Ops.{write_frame}
use latticeshield.Bridge.Admin.{
  AdminServices, AdminSetup, AdminCodecs, CommandFrame, rotate, Visit, refused,
  handle_admin_connection, visits,
}
use latticeshield.Bridge.Admin.Sequence.{
  Ascends, Accepted, visits-Ascends, handle_admin_connection-Accepted,
}
use latticeshield.Bridge.Admin.Rate.{Arrival, taken, taken-InSecond}
use latticeshield.Tests.Cipher.{toy_aead, toy_hkdf}
use latticeshield.Tests.Exchange.{toy_dsa, toy_x25519, toy_kem}
use latticeshield.Tests.Sessions.{draws, seed, reached}

abbrev writer : Writer
writer = record { sent = []; room = 9000; flushes = true }

abbrev setup : AdminSetup
setup = record {
  signing_key = (generate_keypair toy_dsa seed).0;
  verifying_key = (generate_keypair toy_dsa seed).1;
  cp_vk = replicate 1952 0;
  tls_base_url = codes "https://bridge";
  vk_share_max_tokens = 10;
}

abbrev services : AdminServices
services = record { cmd_seq = 0; vk_store = []; rotations = 0 }

-- A command is its sequence number.
abbrev codecs : AdminCodecs
codecs = record {
  frame_from_slice =
      λ bs. elim bs [ [] ↦ none | n ∷ rest ↦ some (record { seq = n; cmd = rotate }) ];
  response_to_vec = λ r. some [];
}

-- The client's response and a frame that it wrote.
abbrev visit : ℕ → Visit
visit n = record {
  elapsed = false;
  stream = record {
    input =
        reached.1.output.sent
        ++ (write_frame toy_aead (n ∷ [])
            (record { channel = reached.0; input = []; output = writer })).1.output.sent;
    output = writer;
  };
  draws = draws;
  randomness = [];
  now = 0;
  token = codes "t";
  rendered = [];
  connections_active = 1;
}

visits-Ascends_example :
    Ascends 0
      (visits toy_dsa toy_x25519 toy_kem toy_hkdf toy_aead codecs
        (λ bs. bs)
        setup
        (visit 1 ∷ visit 1 ∷ visit 2 ∷ [])
        services).0
visits-Ascends_example =
    visits-Ascends toy_dsa toy_x25519 toy_kem toy_hkdf toy_aead codecs (λ bs. bs) setup
      (visit 1 ∷ visit 1 ∷ visit 2 ∷ []) services

handle_admin_connection-Accepted_example :
    ((frame : CommandFrame) × Accepted toy_dsa toy_x25519 toy_kem toy_hkdf toy_aead codecs
        (λ bs. bs)
        setup
        (visit 1)
        services
        frame
        (handle_admin_connection toy_dsa toy_x25519 toy_kem toy_hkdf toy_aead codecs
          (λ bs. bs)
          setup
          (visit 1)
          services)
      × SignedBy toy_dsa toy_x25519 toy_kem toy_hkdf
          (replicate 1952 0)
          (take client_response_signed_len (visit 1).stream.input)
          (server_hello_bytes toy_dsa toy_x25519 toy_kem toy_hkdf
            (new toy_dsa toy_x25519 toy_kem toy_hkdf draws))
          client_response_len)
    ⊎ (handle_admin_connection toy_dsa toy_x25519 toy_kem toy_hkdf toy_aead codecs
          (λ bs. bs)
          setup
          (visit 1)
          services
        ≡ refused services)
handle_admin_connection-Accepted_example =
    handle_admin_connection-Accepted toy_dsa toy_x25519 toy_kem toy_hkdf toy_aead codecs (λ bs. bs)
      setup (visit 1) services

abbrev at : ℕ → Arrival
at t = record { seen = t; restarted = t }

taken-InSecond_example :
    taken 2
      (at 1900000000 ∷ at 1950000000 ∷ at 2100000000 ∷ at 2200000000 ∷ at 2300000000 ∷ [])
      (record { rate_window_start = 1000000000; rate_count = 0 })
    ≤ 2 + 2
taken-InSecond_example =
    taken-InSecond 2 1900000000
      (at 1900000000 ∷ at 1950000000 ∷ at 2100000000 ∷ at 2200000000 ∷ at 2300000000 ∷ [])
      (record { rate_window_start = 1000000000; rate_count = 0 })
      (
        (omega arith, omega arith),
        (
          (omega arith, omega arith),
          (
            (omega arith, omega arith),
            ((omega arith, omega arith), ((omega arith, omega arith), tt)),
          ),
        ),
      )
      (omega arith)
