-- ===== src/Bridge/Admin.antt =====
-- latticeshield-bridge/src/admin.rs. Connections are handled one after the other here, but in Overlap. serde_json, the rendering of
-- the metrics, the clock and what the generator draws are arguments.
pub mod Rate
pub mod Sequence
pub mod Overlap
use latticeshield.Prelude.{
  ℕ, ◌+◌, ◌*◌, ◌%◌, ◌^◌, ◌<◌, max, Bool, true, false, List, [], ◌∷◌, ◌++◌, ltb, if◌then◌else◌,
  Option, none, some, Result, ok, err, ok_or, ◌>>=?◌,
}
use latticeshield.Prelude.Bytes.{Bytes}
use latticeshield.Prelude.Text.{Text, codes, text_key}
use latticeshield.Prelude.Dict.{Key}
use latticeshield.Crypto.Primitives.{Aead, Hkdf}
use latticeshield.Crypto.Signing.{MlDsa}
use latticeshield.Crypto.Stream.{Stream, read_exact, write_all}
use latticeshield.Crypto.Handshake.{
  HandshakeError, authentication_failed, X25519, MlKem, ServerDraws, new, server_hello_signed_bytes,
  complete_from_wire_signed, client_response_signed_len,
}
use latticeshield.Crypto.Channel.State
use latticeshield.Crypto.Channel.State.{FrameError, FrameResult, plain, key_rotate}
use latticeshield.Crypto.Channel.Link.{Link}
use latticeshield.Crypto.Channel.Ops.{read_frame, write_frame}
use latticeshield.Bridge.VkShare.Store.{
  VkShareStore, VkShareError, too_many_tokens, create_token, default_token_ttl_secs,
}

pub data AdminCommand : Type 0 where
  get_metrics rotate get_vk_token : AdminCommand

pub record CommandFrame : Type 0 where
  pub seq : ℕ
  pub cmd : AdminCommand

pub data AdminResponse : Type 0 where
  metrics : Text → AdminResponse
  rotated : ℕ → AdminResponse
  vk_token : (token url : Text) → AdminResponse
  error : Text → AdminResponse

-- What the connections share and change: the last sequence number, the tokens and the counter of rotations.
pub record AdminServices : Type 0 where
  pub cmd_seq : ℕ
  pub vk_store : VkShareStore Text
  pub rotations : ℕ

-- What they share and do not change.
pub record AdminSetup : Type 0 where
  pub signing_key : Bytes
  pub verifying_key : Bytes
  pub cp_vk : Bytes
  pub tls_base_url : Text
  pub vk_share_max_tokens : ℕ

-- serde_json.
pub record AdminCodecs : Type 0 where
  pub frame_from_slice : Bytes → Option CommandFrame
  pub response_to_vec : AdminResponse → Option Bytes

-- What one connection meets: its bytes, whether the handshake takes too long, what is drawn, and the readings that
-- its command may take.
pub record Visit : Type 0 where
  pub elapsed : Bool
  pub stream : Stream
  pub draws : ServerDraws
  pub randomness : Bytes
  pub now : ℕ
  pub token : Text
  pub rendered : Text
  pub connections_active : ℕ

unfoldable pub is_seq_valid : (seq last_seen : ℕ) → Bool
is_seq_valid seq last_seen = ltb last_seen seq

unfoldable pub handle_get_metrics : (rendered : Text) → AdminResponse
handle_get_metrics rendered = metrics rendered

unfoldable pub handle_rotate :
    (connections_active : ℕ) → AdminServices → AdminResponse × AdminServices
handle_rotate connections_active services =
    (rotated connections_active, record services { rotations = (services.rotations + 1) % 2 ^ 64 })

module _ (sha256 : Bytes → Bytes) (setup : AdminSetup) where
  token_response :
      Result VkShareError (Text × Text) × VkShareStore Text
      → AdminServices
      → AdminResponse × AdminServices
  token_response (ok (token, fingerprint), store) services = (
    vk_token token (setup.tls_base_url ++ (codes "/vk/" ++ token)),
    record services { vk_store = store },
  )
  token_response (err too_many_tokens, store) services =
      (error (codes "vk share token store full"), record services { vk_store = store })

  -- Times of the store are in nanoseconds.
  unfoldable pub handle_get_vk_token :
      (now : ℕ) (token : Text) → AdminServices → AdminResponse × AdminServices
  unfolding token_response
  handle_get_vk_token now token services =
      token_response
        (create_token sha256 now token setup.verifying_key (default_token_ttl_secs * 1000000000)
          setup.vk_share_max_tokens services.vk_store)
        services

  unfoldable pub dispatch : Visit → AdminCommand → AdminServices → AdminResponse × AdminServices
  dispatch visit get_metrics services = (handle_get_metrics visit.rendered, services)
  dispatch visit rotate services = handle_rotate visit.connections_active services
  dispatch visit get_vk_token services = handle_get_vk_token visit.now visit.token services

-- The frame whose command was carried out, what the services are afterwards, and the connection where a
-- response was to be written.
pub record Served : Type 0 where
  pub command : Option CommandFrame
  pub services : AdminServices
  pub response : Option (AdminResponse × Option (Result FrameError (Unit {0}) × Link))

abbrev pub refused : AdminServices → Served
refused services = record { command = none; services = services; response = none }

module _ {Dk Ek : Type 0} (dsa : MlDsa) (x : X25519) (kem : MlKem Dk Ek) (hkdf : Hkdf) (aead : Aead)
    (codecs : AdminCodecs) (sha256 : Bytes → Bytes) (setup : AdminSetup) where
  -- Failures to write and to read count as failures of the authentication.
  unfoldable pub do_handshake : Visit → Result HandshakeError (Bytes × Stream)
  do_handshake visit =
      server_hello_signed_bytes dsa x kem hkdf (new dsa x kem hkdf visit.draws) setup.signing_key
        visit.randomness
      >>=? λ hello_bytes.
          ok_or (write_all hello_bytes visit.stream) authentication_failed >>=? λ s1.
          ok_or (read_exact client_response_signed_len s1) authentication_failed >>=? λ r.
          complete_from_wire_signed dsa x kem hkdf (new dsa x kem hkdf visit.draws) r.0 setup.cp_vk
          >>=? λ session_key. ok (session_key, r.1)

  unfoldable pub open_channel : Bytes × Stream → Link
  open_channel (session_key, s) = record {
    channel = State.new session_key (64 * 1024);
    input = s.input;
    output = s.output;
  }

  abbrev written : Link → Option Bytes → Option (Result FrameError (Unit {0}) × Link)
  written l none = none
  written l (some bytes) = some (write_frame aead bytes l)

  unfoldable pub carry_out : Visit → CommandFrame → Link → AdminServices → Served
  carry_out visit frame l services =
      let (response, after) =
        dispatch sha256 setup visit frame.cmd
          (record services { cmd_seq = max services.cmd_seq frame.seq }) in
      record {
        command = some frame;
        services = after;
        response = some (response, written l (codecs.response_to_vec response));
      }

  unfoldable pub check_sequence : Visit → Option CommandFrame → Link → AdminServices → Served
  check_sequence visit none l services = refused services
  check_sequence visit (some frame) l services =
      if is_seq_valid frame.seq services.cmd_seq
      then carry_out visit frame l services
      else refused services

  unfoldable pub read_command :
      Visit → Result FrameError FrameResult × Link → AdminServices → Served
  read_command visit (ok (plain bytes), l) services =
      check_sequence visit (codecs.frame_from_slice bytes) l services
  read_command visit (ok (key_rotate nonce), l) services = refused services
  read_command visit (err e, l) services = refused services

  unfoldable pub after_handshake :
      Visit → Result HandshakeError (Bytes × Stream) → AdminServices → Served
  after_handshake visit (err e) services = refused services
  after_handshake visit (ok r) services =
      read_command visit (read_frame aead (open_channel r)) services

  unfoldable pub handle_admin_connection : Visit → AdminServices → Served
  handle_admin_connection visit services =
      if visit.elapsed
      then refused services
      else after_handshake visit (do_handshake visit) services

  -- One connection after the other, with the frames whose commands were carried out.
  unfoldable pub visits : List Visit → AdminServices → List CommandFrame × AdminServices
  visits [] services = ([], services)
  visits (v ∷ vs) services =
      let served = handle_admin_connection v services in
      let rest = visits vs served.services in
      (elim served.command [ none ↦ rest.0 | some f ↦ f ∷ rest.0 ], rest.1)
