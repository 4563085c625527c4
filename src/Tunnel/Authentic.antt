-- ===== src/Tunnel/Authentic.antt =====
-- What the two ends have verified when their handshakes succeed (latticeshield-bridge/src/session.rs and
-- latticeshield-client/src/client_session.rs over latticeshield-crypto/src/handshake.rs).
use latticeshield.Prelude.{
  ℕ, ◌≤◌, ◌≡◌, refl, ap, ◌∙◌, Bool, inl, inr, Bool-cases, true, false, length, take, drop, leb,
  ◌==◌, Option, none, some, Result, ok, err, ok_or, map_err, ◌>>=?◌, bind-ok, map_err-ok, ◌≢◌, ◌↔◌,
  ==_iff, length-drop, length-take, leb→le, le→leb, arith, ok_or-ok,
}
use latticeshield.Prelude.Bytes.{Bytes}
use latticeshield.Crypto.Primitives.{Hkdf}
use latticeshield.Crypto.Signing.{
  MlDsa, signing_context, signature_from_bytes, signature_len, verify,
}
use latticeshield.Crypto.Stream.{Stream, read_exact, write_all, flush, write_all-input, flush_same}
use latticeshield.Crypto.Handshake.{
  X25519, MlKem, ServerHandshake, ServerDraws, ClientHello, new, parse_server_hello_signed,
  server_hello_bytes, server_hello_signed_bytes, server_hello_len, server_hello_signed_len,
  client_response_len, client_response_signed_len,
}
use latticeshield.Crypto.Handshake.{
  HandshakeError as CryptoError, ClientResponse, client_respond, serialize_client_response_signed,
  parse_server_hello,
}
use latticeshield.Crypto.Handshake.Signed.{read, SignedBy, response_signed}
use latticeshield.Crypto.Channel
use latticeshield.Crypto.Channel.State.{EncryptedChannel}
use latticeshield.Crypto.Channel.Link.{Writer}
use latticeshield.Bridge.Session.{Session, MetricsState}
use latticeshield.Bridge.Handshake.{
  HandshakeFailure, read_response, handshake_with, connect, start, relays, signing, hello_write,
  hello_flush,
}
use latticeshield.Client.Handshake.{
  HandshakeError, ClientDraws, do_handshake, auth, transport, response_bytes,
}

module _ {Dk Ek : Type 0} (dsa : MlDsa) (x : X25519) (kem : MlKem Dk Ek) (hkdf : Hkdf) where
  read_signed :
      (vk : Bytes) (server : ServerHandshake Dk Ek) (s : Stream) (r : Bytes × Stream)
      → read_response dsa x kem hkdf (some vk) server s ≡ ok r
      → SignedBy dsa x kem hkdf vk
          (take client_response_signed_len s.input)
          server.server_hello_raw
          client_response_len
  unfolding read_response
  read_signed vk server s r h =
      let (buf, arrived, h1) = bind-ok _ h in
      let (key, completed, _) = bind-ok _ h1 in
      rw (read client_response_signed_len s buf (ok_or-ok _ _ buf arrived)).0
        (response_signed dsa x kem hkdf server buf.0 vk key (map_err-ok _ _ key completed))

  read_hello :
      (draws : ServerDraws) (randomness signing_key vk : Bytes) (s : Stream) (r : Bytes × Stream)
      → handshake_with dsa x kem hkdf draws randomness signing_key (some vk) s ≡ ok r
      → SignedBy dsa x kem hkdf vk
          (take client_response_signed_len s.input)
          (server_hello_bytes dsa x kem hkdf (new dsa x kem hkdf draws))
          client_response_len
  unfolding handshake_with server_hello_bytes
  read_hello draws randomness signing_key vk s r h =
      let (hello, _, h1) =
        bind-ok
          (map_err signing (
            server_hello_signed_bytes dsa x kem hkdf (new dsa x kem hkdf draws) signing_key
              randomness))
          h in
      let (s1, written, h2) = bind-ok (ok_or (write_all hello s) hello_write) h1 in
      let (s2, flushed, h3) = bind-ok (ok_or (flush s1) hello_flush) h2 in
      let same : s.input ≡ s2.input =
        write_all-input hello s s1 (ok_or-ok _ hello_write s1 written)
        ∙ ap (λ t. t.input) (flush_same s1 s2 (ok_or-ok _ hello_flush s2 flushed)) in
      rw same (read_signed vk (new dsa x kem hkdf draws) s2 r h3)

  connected :
      (size : ℕ) (metrics_state : MetricsState) (backend : Option Writer)
      (r : Result HandshakeFailure (Bytes × Stream)) (session : Session)
      → connect dsa x kem hkdf size metrics_state backend r ≡ relays session
      → (a : Bytes × Stream) × (r ≡ ok a)
  unfolding connect
  connected size metrics_state backend (err e) session h = cc
  connected size metrics_state none (ok a) session h = cc
  connected size metrics_state (some w) (ok a) session h = (a, refl)

  -- Where the bridge has the key `vk` for its clients, every session that it starts has come from a response whose
  -- signature verifies under `vk`. What is signed is the response followed by the hello of this very handshake, with
  -- the nonce and the keys that the bridge has just drawn.
  pub start-SignedBy :
      (elapsed : Bool) (size : ℕ) (metrics_state : MetricsState) (backend : Option Writer)
      (draws : ServerDraws) (randomness signing_key vk : Bytes) (s : Stream) (session : Session)
      → start dsa x kem hkdf elapsed size metrics_state backend draws randomness signing_key
          (some vk)
          s
        ≡ relays session
      → SignedBy dsa x kem hkdf vk
          (take client_response_signed_len s.input)
          (server_hello_bytes dsa x kem hkdf (new dsa x kem hkdf draws))
          client_response_len
  unfolding start server_hello_bytes
  start-SignedBy true size metrics_state backend draws randomness signing_key vk s session h = cc
  start-SignedBy false size metrics_state backend draws randomness signing_key vk s session h =
      let (r, e) = connected _ _ _ _ session h in read_hello draws randomness signing_key vk s r e

  -- No step of a handshake gives this error.
  abbrev Never : {A : Type 0} → Result HandshakeError A → Type 0
  Never r = r ≢ err auth

  bind-Never :
      {A B : Type 0} (m : Result HandshakeError A) (f : A → Result HandshakeError B)
      → Never m
      → ((a : A) → Never (f a))
      → Never (m >>=? f)
  bind-Never (ok a) f m g = g a
  bind-Never (err e) f m g = λ h. m cc

  transport-Never : {E A : Type 0} (r : Result E A) → Never (map_err (λ _. transport) r)
  transport-Never (ok a) h = cc
  transport-Never (err e) h = cc

  ok_or-Never : {A : Type 0} (o : Option A) → Never (ok_or o transport)
  ok_or-Never none h = cc
  ok_or-Never (some a) h = cc

  response_bytes-Never :
      (identity : Option Bytes) (response : ClientResponse) (raw randomness : Bytes)
      → Never (response_bytes dsa x kem hkdf identity response raw randomness)
  unfolding response_bytes
  response_bytes-Never none response raw randomness h = cc
  response_bytes-Never (some sk) response raw randomness h =
      transport-Never (serialize_client_response_signed dsa x kem hkdf response sk raw randomness) h

  unverified :
      (vk buf : Bytes)
      → length buf ≡ server_hello_signed_len
      → dsa.verifies vk (take server_hello_len buf) signing_context (drop server_hello_len buf)
        ≡ false
      → parse_server_hello_signed dsa x kem hkdf buf vk ≡ err CryptoError.authentication_failed
  unfolding parse_server_hello_signed signature_from_bytes verify
  unverified vk buf n v =
      let size : (length (drop server_hello_len buf) == signature_len) ≡ true =
        (==_iff _ signature_len).1 (omega (arith, length-drop 1248 buf, n)) in
      rw (size, v) refl

  checked :
      (vk buf : Bytes)
      → length buf ≡ server_hello_signed_len
      → dsa.verifies vk (take server_hello_len buf) signing_context (drop server_hello_len buf)
        ≡ true
      → parse_server_hello_signed dsa x kem hkdf buf vk
        ≡ ok (parse_server_hello dsa x kem hkdf (take server_hello_len buf))
  unfolding parse_server_hello_signed signature_from_bytes verify
  checked vk buf n v =
      let size : (length (drop server_hello_len buf) == signature_len) ≡ true =
        (==_iff _ signature_len).1 (omega (arith, length-drop 1248 buf, n)) in
      rw (size, v) refl

  -- What follows the check of the hello gives no authentication error.
  after_hello-Never :
      (draws : ClientDraws) (identity : Option Bytes) (hello : ClientHello Ek) (raw : Bytes)
      (s : Stream) (size : ℕ)
      → Never {A = EncryptedChannel × Stream} (
          map_err
            (λ _. transport)
            (client_respond dsa x kem hkdf hello draws.x25519_secret draws.kem_randomness)
          >>=? λ k.
              response_bytes dsa x kem hkdf identity k.0 raw draws.sign_randomness >>=? λ response.
              ok_or (write_all response s) transport >>=? λ s1. ok (Channel.State.new k.1 size, s1))
  after_hello-Never draws identity hello raw s size = bind-Never _ _ (transport-Never _) (λ k.
      bind-Never _ _ (response_bytes-Never identity k.0 raw draws.sign_randomness)
        (λ response. bind-Never _ _ (ok_or-Never (write_all response s)) (λ s1 h. cc)))

  -- The client's handshake ends in an authentication error exactly where the whole hello has arrived and its
  -- signature does not verify under the server's key that the client knows.
  pub do_handshake-auth :
      (draws : ClientDraws) (vk : Bytes) (identity : Option Bytes) (size : ℕ) (s : Stream)
      → (do_handshake dsa x kem hkdf draws vk identity size s ≡ err auth) ↔ (
          (server_hello_signed_len ≤ length s.input)
          × (dsa.verifies vk
                (take server_hello_len (take server_hello_signed_len s.input))
                signing_context
                (drop server_hello_len (take server_hello_signed_len s.input))
              ≡ false))
  unfolding do_handshake read_exact
  do_handshake-auth draws vk identity size s =
      let buf = take server_hello_signed_len s.input in
      let whole : server_hello_signed_len ≤ length s.input → length buf ≡ server_hello_signed_len =
        λ enough. omega (arith, length-take 4557 s.input, enough) in
      (
        λ h. elim (Bool-cases (leb server_hello_signed_len (length s.input))) [
          | inl fits ↦
              let enough = leb→le server_hello_signed_len (length s.input) fits in
              elim (Bool-cases (
                dsa.verifies vk (take server_hello_len buf) signing_context
                  (drop server_hello_len buf))) [
                    | inl v ↦ absurd (
                        after_hello-Never draws identity _ _ _ size
                          (rw (fits, checked vk buf (whole enough) v) at h))
                    | inr v ↦ (enough, v)
                  ]
          | inr short ↦ cc (rw short at h)
        ],
        λ (enough, v).
            rw
              (
                le→leb server_hello_signed_len (length s.input) enough,
                unverified vk buf (whole enough) v,
              )
              refl,
      )
