-- ===== src/Bridge/ControlPlane.antt =====
-- latticeshield-bridge/src/control_plane.rs. The HTTP client, serde_json and base64 are parameters; the network is
-- a function from requests to replies, and the clock and what the generator draws are arguments.
pub mod Drift
pub mod Verified
pub mod Loop
use latticeshield.Prelude.{
  ℕ, ◌*◌, Bool, true, false, List, [], ◌∷◌, ◌++◌, length, ltb, ◌==◌, if◌then◌else◌, Option, none,
  some, Result, ok, err, ok_or, map_err, ◌>>=?◌,
}
use latticeshield.Prelude.Bytes.{Bytes}
use latticeshield.Prelude.Text.{Text, codes}
use latticeshield.Crypto.Signing.{
  MlDsa, SigningError, verifying_key_len, sign, verify, signature_from_bytes,
  verifying_key_from_bytes,
}
use latticeshield.Bridge.VkShare.Hex.{hex_encode}
use latticeshield.Bridge.ControlPlane.Drift.{ℤ, is_fresh}

pub data BridgeCommand : Type 0 where
  rotate unknown : BridgeCommand

pub record RegistrationPayload : Type 0 where
  pub name : Text
  pub version : Text
  pub capabilities : List Text
  pub listen_addr : Text
  pub server_vk : Text
  pub install_token : Option Text

pub record HeartbeatMetrics : Type 0 where
  pub connections_active : ℕ
  pub connections_total : ℕ
  pub bytes_transmitted_total : ℕ
  pub channel_errors_total : ℕ

pub record SignableHeartbeatPayload : Type 0 where
  pub timestamp_unix : ℕ
  pub uptime_secs : ℕ
  pub status : Text
  pub version : Text
  pub metrics : HeartbeatMetrics

pub record SignedHeartbeatPayload : Type 0 where
  pub timestamp_unix : ℕ
  pub uptime_secs : ℕ
  pub status : Text
  pub version : Text
  pub metrics : HeartbeatMetrics
  pub signature : Text

pub record HeartbeatResponse : Type 0 where
  pub pending_commands : Option (List BridgeCommand)
  pub signed_payload : Option Text
  pub response_signature : Option Text

abbrev pub default_response : HeartbeatResponse
default_response = record {
  pending_commands = none;
  signed_payload = none;
  response_signature = none;
}

pub record SignedResponsePayload : Type 0 where
  pub pending_commands : Option (List BridgeCommand)
  pub ts : ℤ

abbrev pub max_heartbeat_response_bytes : ℕ
max_heartbeat_response_bytes = 1024 * 1024

-- serde_json and the base64 engine.
pub record Codecs : Type 0 where
  pub to_vec : SignableHeartbeatPayload → Option Bytes
  pub response_from_slice : Bytes → Option HeartbeatResponse
  pub payload_from_str : Text → Option SignedResponsePayload
  pub agent_id_from_slice : Bytes → Option Text
  pub encode : Bytes → Text
  pub decode : Text → Option Bytes

-- What a request that was sent came back with; the body may fail to arrive.
pub record Reply : Type 0 where
  pub is_success : Bool
  pub content_length : Option ℕ
  pub body : Option Bytes

pub data HeartbeatError : Type 0 where
  serialize_failed sign_failed request_failed non_success too_large read_body_failed :
      HeartbeatError

pub record AgentConfig : Type 0 where
  pub control_plane_endpoint : Text
  pub control_plane_agent_name : Text
  pub control_plane_install_token : Option Text
  pub listen_addr : Text
  pub version : Text

-- `trim_end_matches('/')`.
unfoldable pub trim_slashes : Text → Text
trim_slashes [] = []
trim_slashes (c ∷ s) = trimmed c (trim_slashes s)
  where
    trimmed : ℕ → Text → Text
    trimmed c [] = if c == b'/' then [] else c ∷ []
    trimmed c (d ∷ t) = c ∷ (d ∷ t)

abbrev pub registration_url : AgentConfig → Text
registration_url config = config.control_plane_endpoint ++ codes "/api/v1/agents/register"

abbrev pub heartbeat_url : AgentConfig → (agent_id : Text) → Text
heartbeat_url config agent_id =
    trim_slashes config.control_plane_endpoint
    ++ (codes "/api/v1/agents/" ++ (agent_id ++ codes "/heartbeat"))

-- A header that announces more, or a body that has more, than the cap.
unfoldable pub read_body : Reply → Result HeartbeatError Bytes
read_body reply = announced reply.content_length
  where
    arrived : Option Bytes → Result HeartbeatError Bytes
    arrived none = err read_body_failed
    arrived (some bytes) =
        if ltb max_heartbeat_response_bytes (length bytes) then err too_large else ok bytes

    announced : Option ℕ → Result HeartbeatError Bytes
    announced none = arrived reply.body
    announced (some len) =
        if ltb max_heartbeat_response_bytes len then err too_large else arrived reply.body

-- The file of the key, where it can be read.
unfoldable pub load_cloud_vk : Option Bytes → Option Bytes
load_cloud_vk none = none
load_cloud_vk (some bytes) =
    if length bytes == verifying_key_len then key_of (verifying_key_from_bytes bytes) else none
  where
    key_of : Result SigningError Bytes → Option Bytes
    key_of (ok vk) = some vk
    key_of (err e) = none

-- `cloud_vk_path` with what reading the file gives; where the key does not load, there is none.
unfoldable pub cloud_vk_of : (cloud_vk_path : Option (Option Bytes)) → Option Bytes
cloud_vk_of none = none
cloud_vk_of (some file) = load_cloud_vk file

abbrev pub default_or : {A : Type 0} → Option A → (A → HeartbeatResponse) → HeartbeatResponse
default_or none f = default_response
default_or (some a) f = f a

abbrev pub ok_or_default : {E A : Type 0} → Result E A → (A → HeartbeatResponse) → HeartbeatResponse
ok_or_default (err e) f = default_response
ok_or_default (ok a) f = f a

module _ (dsa : MlDsa) (codecs : Codecs) where
  -- The part of `send_heartbeat` for a bridge that has the cloud's key: any failure drops the commands.
  unfoldable pub verify_response : (vk : Bytes) (now : ℕ) → HeartbeatResponse → HeartbeatResponse
  verify_response vk now hb_resp = default_or hb_resp.signed_payload λ signed_payload.
      default_or hb_resp.response_signature λ sig_b64.
        default_or (codecs.decode sig_b64) λ sig_bytes.
          ok_or_default (signature_from_bytes sig_bytes) λ sig.
            ok_or_default (verify dsa vk signed_payload sig) λ _.
              default_or (codecs.payload_from_str signed_payload) λ inner.
                if is_fresh now inner.ts
                then record {
                  pending_commands = inner.pending_commands;
                  signed_payload = none;
                  response_signature = none;
                }
                else default_response

  abbrev pub checked_response :
      (cloud_vk : Option Bytes) (now : ℕ) → HeartbeatResponse → HeartbeatResponse
  checked_response none now hb_resp = hb_resp
  checked_response (some vk) now hb_resp = verify_response vk now hb_resp

  abbrev pub parsed_response : Bytes → HeartbeatResponse
  parsed_response bytes = elim (codecs.response_from_slice bytes) [
    | none ↦ default_response
    | some r ↦ r
  ]

  abbrev pub signed_heartbeat : SignableHeartbeatPayload → (sig : Bytes) → SignedHeartbeatPayload
  signed_heartbeat signable sig = record {
    timestamp_unix = signable.timestamp_unix;
    uptime_secs = signable.uptime_secs;
    status = signable.status;
    version = signable.version;
    metrics = signable.metrics;
    signature = codecs.encode sig;
  }

  unfoldable pub send_heartbeat :
      (post : Text → SignedHeartbeatPayload → Option Reply)
      → AgentConfig
      → (agent_id : Text) → SignableHeartbeatPayload
      → (signing_key randomness : Bytes) (cloud_vk : Option Bytes) (now : ℕ)
      → Result HeartbeatError HeartbeatResponse
  send_heartbeat post config agent_id signable signing_key randomness cloud_vk now =
      ok_or (codecs.to_vec signable) serialize_failed >>=? λ canonical.
      map_err (λ _. sign_failed) (sign dsa signing_key canonical randomness) >>=? λ sig.
      ok_or (post (heartbeat_url config agent_id) (signed_heartbeat signable sig)) request_failed
      >>=? λ reply. (if reply.is_success then read_body reply else err non_success) >>=? λ body.
          ok (checked_response cloud_vk now (parsed_response body))

  unfoldable pub try_register :
      (post : Text → RegistrationPayload → Option Reply)
      → AgentConfig
      → (verifying_key : Bytes) → Option Text
  try_register post config verifying_key = registered (
      post (registration_url config) (record {
        name = config.control_plane_agent_name;
        version = config.version;
        capabilities = codes "pqc-proxy" ∷ codes "ml-kem-768" ∷ codes "ml-dsa-65" ∷ [];
        listen_addr = config.listen_addr;
        server_vk = hex_encode verifying_key;
        install_token = config.control_plane_install_token;
      }))
    where
      body_of : Option Bytes → Option Text
      body_of none = none
      body_of (some bytes) = codecs.agent_id_from_slice bytes

      registered : Option Reply → Option Text
      registered none = none
      registered (some reply) = if reply.is_success then body_of reply.body else none

  -- The commands that the loop sends on to the bridge.
  unfoldable pub dispatched : List BridgeCommand → List BridgeCommand
  dispatched [] = []
  dispatched (rotate ∷ cs) = rotate ∷ dispatched cs
  dispatched (unknown ∷ cs) = dispatched cs

  abbrev pub commands_of : Option (List BridgeCommand) → List BridgeCommand
  commands_of none = []
  commands_of (some cs) = dispatched cs

  unfoldable pub commands_sent : Result HeartbeatError HeartbeatResponse → List BridgeCommand
  commands_sent (err e) = []
  commands_sent (ok hb_resp) = commands_of hb_resp.pending_commands

  -- What a turn of the loop depends on, up to the shutdown.
  pub record Turn : Type 0 where
    pub signable : SignableHeartbeatPayload
    pub randomness : Bytes
    pub now : ℕ
    pub post : Text → SignedHeartbeatPayload → Option Reply

  unfoldable pub heartbeat_loop :
      AgentConfig
      → (agent_id : Text) → (signing_key : Bytes) (cloud_vk : Option Bytes) → List Turn
      → List BridgeCommand
  heartbeat_loop config agent_id signing_key cloud_vk [] = []
  heartbeat_loop config agent_id signing_key cloud_vk (t ∷ turns) =
      commands_sent
        (send_heartbeat t.post config agent_id t.signable signing_key t.randomness cloud_vk t.now)
      ++ heartbeat_loop config agent_id signing_key cloud_vk turns

  -- `client` tells whether the HTTP client could be built.
  unfoldable pub start :
      (cloud_vk_path : Option (Option Bytes)) (client : Bool)
      → AgentConfig
      → (signing_key verifying_key : Bytes) → (Text → RegistrationPayload → Option Reply)
      → List Turn
      → List BridgeCommand
  start cloud_vk_path client config signing_key verifying_key post turns =
      if client then heartbeats (try_register post config verifying_key) else []
    where
      heartbeats : Option Text → List BridgeCommand
      heartbeats none = []
      heartbeats (some agent_id) =
          heartbeat_loop config agent_id signing_key (cloud_vk_of cloud_vk_path) turns
