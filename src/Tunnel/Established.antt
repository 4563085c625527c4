-- ===== src/Tunnel/Established.antt =====
-- The handshake of the bridge (latticeshield-bridge/src/session.rs) against the handshake of the client
-- (latticeshield-client/src/client_session.rs), over the bytes that they send to each other.
use latticeshield.Prelude.{
  ℕ, ◌+◌, ◌^◌, ◌<◌, ◌≤◌, ◌≡◌, refl, sym, ap, subst, ◌∙◌, true, false, [], ◌++◌, length, Option,
  none, some, ok, bind-ok, ok_injective, ok_or-ok,
}
use latticeshield.Prelude.Bytes.{Bytes}
use latticeshield.Crypto.Primitives.{Hkdf}
use latticeshield.Crypto.Signing.{MlDsa, MlDsaLaws, generate_keypair}
use latticeshield.Crypto.Stream.{
  Stream, write_all, read_exact-append, write_all_fits, write_all-some, flush_works,
}
use latticeshield.Crypto.Handshake.{
  X25519, X25519Laws, MlKem, MlKemLaws, ClientResponse, ServerDraws, new, client_hello,
  server_hello_bytes, server_hello_signed_bytes, client_respond, serialize_client_response,
}
use latticeshield.Crypto.Handshake.Sizes.{
  try-ok, length-server_hello_signed_bytes, take-server_hello_signed_bytes, length-response,
  length-response_signed,
}
use latticeshield.Crypto.Handshake.Agreement.{
  parse_server_hello_signed-server_hello_signed_bytes, complete_from_wire-client_respond,
  complete_from_wire_signed-client_respond,
}
use latticeshield.Crypto.Channel.State
use latticeshield.Crypto.Channel.State.{EncryptedChannel}
use latticeshield.Crypto.Channel.Link.{Writer, wrote}
use latticeshield.Bridge.Session.{Session, MetricsState}
use latticeshield.Bridge.Handshake.{
  read_response, handshake_with, session_of, connect, start, relays,
}
use latticeshield.Client.Handshake.{ClientDraws, response_bytes, do_handshake}
use latticeshield.Tunnel.Sync.{Synced}

new_channels :
    (key : Bytes) (size size' : ℕ)
    → size' + 16 < 2 ^ 32
    → Synced (State.new key size) (State.new key size')
unfolding State.new
new_channels key size size' u = record {
  same_key = refl;
  same_epoch = refl;
  same_rotations = refl;
  newer = refl;
  u32 = u;
}

module _ {Dk Ek : Type 0} (dsa : MlDsa) (x : X25519) (kem : MlKem Dk Ek) (hkdf : Hkdf)
    (dsa_laws : MlDsaLaws dsa) (x_laws : X25519Laws x) (kem_laws : MlKemLaws kem) where
  -- The client's signing key and the key that the server expects, where clients authenticate.
  abbrev pub identity_of : Option Bytes → Option Bytes
  identity_of none = none
  identity_of (some seed) = some (generate_keypair dsa seed).0

  abbrev pub client_auth_of : Option Bytes → Option Bytes
  client_auth_of none = none
  client_auth_of (some seed) = some (generate_keypair dsa seed).1

  abbrev pub Greeting : ServerDraws → (seed randomness hello : Bytes) → Type 0
  Greeting draws seed randomness hello =
      server_hello_signed_bytes dsa x kem hkdf (new dsa x kem hkdf draws)
        (generate_keypair dsa seed).0 randomness
      ≡ ok hello

  abbrev pub Answer : ServerDraws → ClientDraws → ClientResponse → Bytes → Type 0
  Answer draws cdraws response key =
      client_respond dsa x kem hkdf (client_hello dsa x kem hkdf (new dsa x kem hkdf draws))
        cdraws.x25519_secret cdraws.kem_randomness
      ≡ ok (response, key)

  abbrev pub Sends : ServerDraws → ClientDraws → Option Bytes → ClientResponse → Bytes → Type 0
  Sends draws cdraws client_seed response bytes =
      response_bytes dsa x kem hkdf (identity_of client_seed) response
        (server_hello_bytes dsa x kem hkdf (new dsa x kem hkdf draws)) cdraws.sign_randomness
      ≡ ok bytes

  -- What a handshake of the client that succeeds has done.
  dialled :
      (draws : ServerDraws) (cdraws : ClientDraws) (seed randomness hello rest : Bytes)
      (client_seed : Option Bytes) (size : ℕ) (w : Writer) (channel : EncryptedChannel) (s : Stream)
      → length draws.nonce ≡ 32
      → Greeting draws seed randomness hello
      → do_handshake dsa x kem hkdf cdraws
          (generate_keypair dsa seed).1
          (identity_of client_seed)
          size
          (record { input = hello ++ rest; output = w })
        ≡ ok (channel, s)
      → (response : ClientResponse) × (key : Bytes) × (bytes : Bytes) × Answer draws cdraws response
          key
        × Sends draws cdraws client_seed response bytes
        × (write_all bytes (record { input = rest; output = w }) ≡ some s)
        × (State.new key size ≡ channel)
  unfolding do_handshake
  dialled draws cdraws seed randomness hello rest client_seed size w channel s n g h =
      let reads = read_exact-append 4557 hello rest w (
        length-server_hello_signed_bytes dsa x kem hkdf dsa_laws x_laws kem_laws draws seed
          randomness hello n g) in
      let parses =
        parse_server_hello_signed-server_hello_signed_bytes dsa x kem hkdf dsa_laws x_laws kem_laws
          draws seed randomness hello n g in
      let raw =
        take-server_hello_signed_bytes dsa x kem hkdf dsa_laws x_laws kem_laws draws seed randomness
          hello n g in
      let h1 = rw (reads, parses, raw) at h in
      let (k, answer, h2) = bind-ok _ h1 in
      let (bytes, sends, h3) = bind-ok _ h2 in
      let (s1, writes, h4) = bind-ok _ h3 in
      (
        k.0,
        k.1,
        bytes,
        try-ok _ _ k answer,
        sends,
        ok_or-ok _ _ _ writes ∙ ap (λ r. some r.1) (ok_injective h4),
        ap (λ r. r.0) (ok_injective h4),
      )

  -- The bridge reads what the client sent and has the client's key.
  answered :
      (draws : ServerDraws) (cdraws : ClientDraws) (client_seed : Option Bytes)
      (response : ClientResponse) (key bytes rest : Bytes) (w : Writer)
      → Answer draws cdraws response key
      → Sends draws cdraws client_seed response bytes
      → read_response dsa x kem hkdf
          (client_auth_of client_seed)
          (new dsa x kem hkdf draws)
          (record { input = bytes ++ rest; output = w })
        ≡ ok (key, record { input = rest; output = w })
  unfolding read_response response_bytes
  answered draws cdraws none response key bytes rest w answer sends =
      let size =
        length-response dsa x kem hkdf dsa_laws x_laws kem_laws draws cdraws.x25519_secret
          cdraws.kem_randomness response key answer in
      let plain = ok_injective sends in
      rw
        (
          ← plain,
          read_exact-append 1120 (serialize_client_response dsa x kem hkdf response) rest w size,
          complete_from_wire-client_respond dsa x kem hkdf dsa_laws x_laws kem_laws draws
              cdraws.x25519_secret cdraws.kem_randomness response key answer,
        )
        refl
  answered draws cdraws (some seed) response key bytes rest w answer sends =
      let signed = try-ok _ _ bytes sends in
      rw
        (
          read_exact-append 4429 bytes rest w (
              length-response_signed dsa x kem hkdf dsa_laws x_laws kem_laws draws
                cdraws.x25519_secret cdraws.kem_randomness response key _ _ _ bytes answer signed),
          complete_from_wire_signed-client_respond dsa x kem hkdf dsa_laws x_laws kem_laws draws
              cdraws.x25519_secret cdraws.kem_randomness response key seed cdraws.sign_randomness
              bytes answer signed,
        )
        refl

  served :
      (draws : ServerDraws) (seed randomness hello key bytes rest : Bytes)
      (client_auth : Option Bytes) (w : Writer)
      → Greeting draws seed randomness hello
      → read_response dsa x kem hkdf client_auth
          (new dsa x kem hkdf draws)
          (record { input = bytes ++ rest; output = wrote hello w })
        ≡ ok (key, record { input = rest; output = wrote hello w })
      → length hello ≤ w.room
      → w.flushes ≡ true
      → handshake_with dsa x kem hkdf draws randomness
          (generate_keypair dsa seed).0
          client_auth
          (record { input = bytes ++ rest; output = w })
        ≡ ok (key, record { input = rest; output = wrote hello w })
  unfolding handshake_with
  served draws seed randomness hello key bytes rest client_auth w g r room flushes =
      rw
        (
          g,
          write_all_fits hello (record { input = bytes ++ rest; output = w }) room,
          flush_works (record { input = bytes ++ rest; output = wrote hello w }) flushes,
        )
        r

  -- The bridge and the client end their handshakes with one key. The bridge's clients know its verifying key, and
  -- clients authenticate either on both sides or on none. Where the client's handshake succeeds on the bytes of
  -- the bridge's hello, the bridge, which gets the bytes that the client wrote, does not fail: it has a session
  -- with nothing sent or received yet, the two channels are in step in both directions, and each end has read
  -- exactly the other's message.
  pub do_handshake-handshake_with :
      (draws : ServerDraws) (cdraws : ClientDraws) (seed randomness hello rest : Bytes)
      (client_seed : Option Bytes) (size size' : ℕ) (w w' backend : Writer)
      (metrics_state : MetricsState) (rest' : Bytes) (channel : EncryptedChannel) (s : Stream)
      → length draws.nonce ≡ 32
      → Greeting draws seed randomness hello
      → do_handshake dsa x kem hkdf cdraws
          (generate_keypair dsa seed).1
          (identity_of client_seed)
          size
          (record { input = hello ++ rest; output = w })
        ≡ ok (channel, s)
      → w.sent ≡ []
      → length hello ≤ w'.room
      → w'.flushes ≡ true
      → size + 16 < 2 ^ 32
      → size' + 16 < 2 ^ 32
      → (session : Session) × (start dsa x kem hkdf false size' metrics_state
            (some backend)
            draws
            randomness
            (generate_keypair dsa seed).0
            (client_auth_of client_seed)
            (record { input = s.output.sent ++ rest'; output = w' })
          ≡ relays session)
        × Synced session.link.channel channel
        × Synced channel session.link.channel
        × (session.bytes_this_epoch ≡ 0)
        × (session.link.input ≡ rest')
        × (session.link.output.sent ≡ w'.sent ++ hello)
        × (s.input ≡ rest)
  unfolding start connect session_of
  do_handshake-handshake_with draws cdraws seed randomness hello rest client_seed size size' w w'
        backend metrics_state rest' channel s n g h fresh room flushes u u' =
      let (response, key, bytes, answer, sends, writes, made) =
        dialled draws cdraws seed randomness hello rest client_seed size w channel s n g h in
      let after = write_all-some bytes (record { input = rest; output = w }) s writes in
      let sent : bytes ≡ s.output.sent =
        ap (λ o. o ++ bytes) (sym fresh) ∙ ap (λ t. t.output.sent) after in
      let reads =
        answered draws cdraws client_seed response key bytes rest' (wrote hello w') answer sends in
      let serves =
        served draws seed randomness hello key bytes rest' (client_auth_of client_seed) w' g reads
          room flushes in
      (
        session_of dsa x kem hkdf size' metrics_state key
            (record { input = rest'; output = wrote hello w' }) backend,
        rw (← sent, serves) refl,
        subst (Synced (State.new key size')) made (new_channels key size' size u),
        subst (λ c. Synced c (State.new key size')) made (new_channels key size size' u'),
        refl,
        refl,
        refl,
        ap (λ t. t.input) (sym after),
      )
