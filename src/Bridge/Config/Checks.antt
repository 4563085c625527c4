-- ===== src/Bridge/Config/Checks.antt =====
-- The errors and the checks of `validate` in latticeshield-bridge/src/config.rs, as lists of conditions that
-- refuse the configuration, in the order of the source. A `SocketAddr` is a type with a test for equality.
use latticeshield.Prelude.{
  ◌*◌, Bool, true, false, not, ◌&&◌, ◌||◌, List, [], ◌∷◌, ltb, ◌==◌, if◌then◌else◌, Option, none,
  some, Result, ok, err,
}
use latticeshield.Prelude.Text.{Text, is_empty}
use latticeshield.Prelude.Dict.{Key}
use latticeshield.Bridge.Config.Sections.{Config}

pub data Listener : Type 0 where
  server_listener backend metrics_listener tls_listener quic_listener admin_listener ws_listener :
      Listener

pub data ConfigError : Type 0 where
  invalid_addr : Listener → ConfigError
  conflicts : Listener → Listener → ConfigError
  cert_path_missing key_path_missing : Listener → ConfigError
  frame_size_out_of_range handshake_timeout_zero connections_zero : ConfigError
  signing_key_path_empty endpoint_empty endpoint_invalid : ConfigError
  bytes_per_key_too_small seconds_per_key_too_small : ConfigError
  client_vk_missing control_plane_vk_missing rate_limit_zero admin_timeout_zero : ConfigError
  invalid_origin : Text → ConfigError

-- A condition and the error where it holds.
abbrev pub Check : Type 0
Check = Bool × ConfigError

-- The first condition that holds refuses.
unfoldable pub check_all : List Check → Result ConfigError (Unit {0})
check_all [] = ok tt
check_all ((bad, e) ∷ cs) = if bad then err e else check_all cs

abbrev pub check_if : Bool → List Check → Result ConfigError (Unit {0})
check_if true cs = check_all cs
check_if false cs = ok tt

abbrev pub is_none {ℓ} : {A : Type ℓ} → Option A → Bool
is_none none = true
is_none (some a) = false

-- The addresses that are always parsed, and those of the listeners that can be switched off.
pub record Fixed (A : Type 0) : Type 0 where
  pub listen : A
  pub backend_to : A
  pub metrics_at : A

pub record Ports (A : Type 0) : Type 0 where
  pub tls_at : A
  pub quic_at : A
  pub admin_at : A
  pub ws_at : A

abbrev pub server_checks : Config → List Check
server_checks c =
    (
      ltb c.server.max_frame_size 1024 || ltb (16 * 1024 * 1024) c.server.max_frame_size,
      frame_size_out_of_range,
    )
    ∷ (ltb c.server.handshake_timeout_secs 1, handshake_timeout_zero)
    ∷ (c.server.max_connections_per_ip == 0, connections_zero)
    ∷ (is_empty c.crypto.signing_key_path, signing_key_path_empty)
    ∷ []

-- `is_url` tells whether the crate url parses a text.
abbrev pub control_plane_checks : (Text → Bool) → Config → List Check
control_plane_checks is_url c =
    (c.control_plane.enabled && is_empty c.control_plane.endpoint, endpoint_empty)
    ∷ (
      c.control_plane.enabled
          && (not (is_empty c.control_plane.endpoint) && not (is_url c.control_plane.endpoint)),
      endpoint_invalid,
    )
    ∷ []

abbrev pub key_rotation_checks : Config → List Check
key_rotation_checks c =
    (ltb c.key_rotation.max_bytes_per_key 1048576, bytes_per_key_too_small)
    ∷ (ltb c.key_rotation.max_seconds_per_key 60, seconds_per_key_too_small)
    ∷ []

abbrev pub auth_checks : Config → List Check
auth_checks c =
    (c.auth.require_client_auth && is_none c.auth.client_vk_path, client_vk_missing) ∷ []

module _ {A : Type 0} ⦃key : Key A⦄ (c : Config) where
  abbrev pub tls_checks : (listen metrics tls : A) → List Check
  tls_checks listen metrics tls =
      (is_empty c.tls.cert_path, cert_path_missing tls_listener)
      ∷ (is_empty c.tls.key_path, key_path_missing tls_listener)
      ∷ (key.same tls listen, conflicts tls_listener server_listener)
      ∷ (key.same tls metrics, conflicts tls_listener metrics_listener)
      ∷ []

  abbrev pub quic_checks : (listen metrics tls quic : A) → List Check
  quic_checks listen metrics tls quic =
      (is_none c.quic.cert_path, cert_path_missing quic_listener)
      ∷ (is_none c.quic.key_path, key_path_missing quic_listener)
      ∷ (key.same quic listen, conflicts quic_listener server_listener)
      ∷ (c.tls.enabled && key.same quic tls, conflicts quic_listener tls_listener)
      ∷ (key.same quic metrics, conflicts quic_listener metrics_listener)
      ∷ []

  abbrev pub admin_checks : (listen metrics tls quic admin : A) → List Check
  admin_checks listen metrics tls quic admin =
      (is_none c.admin.control_plane_vk_path, control_plane_vk_missing)
      ∷ (ltb c.admin.rate_limit_per_second 1, rate_limit_zero)
      ∷ (ltb c.admin.handshake_timeout_secs 1, admin_timeout_zero)
      ∷ (key.same admin listen, conflicts admin_listener server_listener)
      ∷ (key.same admin metrics, conflicts admin_listener metrics_listener)
      ∷ (c.tls.enabled && key.same admin tls, conflicts admin_listener tls_listener)
      ∷ (c.quic.enabled && key.same admin quic, conflicts admin_listener quic_listener)
      ∷ []

  abbrev pub ws_checks : (listen metrics tls quic admin ws : A) → List Check
  ws_checks listen metrics tls quic admin ws =
      (is_none c.websocket.cert_path, cert_path_missing ws_listener)
      ∷ (is_none c.websocket.key_path, key_path_missing ws_listener)
      ∷ (key.same ws listen, conflicts ws_listener server_listener)
      ∷ (key.same ws metrics, conflicts ws_listener metrics_listener)
      ∷ (c.tls.enabled && key.same ws tls, conflicts ws_listener tls_listener)
      ∷ (c.quic.enabled && key.same ws quic, conflicts ws_listener quic_listener)
      ∷ (c.admin.enabled && key.same ws admin, conflicts ws_listener admin_listener)
      ∷ []
