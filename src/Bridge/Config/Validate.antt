-- ===== src/Bridge/Config/Validate.antt =====
-- `validate` of latticeshield-bridge/src/config.rs. The environment variables and the parsers of addresses and
-- URLs are arguments; a `Duration` is its seconds.
use latticeshield.Prelude.{
  ℕ, max, Bool, not, ◌&&◌, List, [], ◌∷◌, ltb, if◌then◌else◌, Option, none, some, Result, ok, ok_or,
  map_err, ◌>>=?◌,
}
use latticeshield.Prelude.Text.{Text, codes, is_empty}
use latticeshield.Prelude.Decimal.{parse_u64}
use latticeshield.Prelude.Dict.{Key}
use latticeshield.Bridge.VkShare.Store.{default_token_max}
use latticeshield.Bridge.Ws.Origin.{Url, NormalizedOrigin, parse, is_some}
use latticeshield.Bridge.Config.Sections.{Config}
use latticeshield.Bridge.Config.Checks.{
  Check, ConfigError, invalid_addr, invalid_origin, Listener, server_listener, backend,
  metrics_listener, tls_listener, quic_listener, admin_listener, ws_listener, check_all, check_if,
  Fixed, Ports, server_checks, control_plane_checks, key_rotation_checks, auth_checks, tls_checks,
  quic_checks, admin_checks, ws_checks,
}

-- What `std::env::var` gives for the four variables that are read.
pub record Env : Type 0 where
  pub hostname : Option Text
  pub install_token : Option Text
  pub lattice_vk_token_max : Option Text
  pub shutdown_timeout_secs : Option Text

pub record ValidConfig (A : Type 0) : Type 0 where
  pub listen_addr : A
  pub backend_addr : A
  pub metrics_addr : A
  pub max_frame_size : ℕ
  pub handshake_timeout_secs : ℕ
  pub max_connections_per_ip : ℕ
  pub signing_key_path : Text
  pub log_level : Text
  pub control_plane_enabled : Bool
  pub control_plane_endpoint : Text
  pub control_plane_agent_name : Text
  pub heartbeat_interval : ℕ
  pub key_rotation_enabled : Bool
  pub max_bytes_per_key : ℕ
  pub key_rotation_interval : ℕ
  pub tls_enabled : Bool
  pub tls_listen_addr : A
  pub tls_cert_path : Text
  pub tls_key_path : Text
  pub quic_enabled : Bool
  pub quic_listen_addr : A
  pub quic_cert_path : Text
  pub quic_key_path : Text
  pub client_auth_enabled : Bool
  pub client_vk_path : Option Text
  pub admin_enabled : Bool
  pub admin_listen_addr : A
  pub admin_control_plane_vk_path : Option Text
  pub admin_rate_limit_per_second : ℕ
  pub admin_handshake_timeout_secs : ℕ
  pub control_plane_install_token : Option Text
  pub cloud_vk_path : Option Text
  pub shutdown_timeout : ℕ
  pub ws_enabled : Bool
  pub ws_listen_addr : A
  pub ws_cert_path : Text
  pub ws_key_path : Text
  pub ws_allowed_origins : List NormalizedOrigin
  pub ws_handshake_timeout_secs : ℕ
  pub ws_max_connections_per_ip : ℕ
  pub vk_share_max_tokens : ℕ

abbrev pub unwrap_or {ℓ} : {A : Type ℓ} → Option A → A → A
unwrap_or none d = d
unwrap_or (some a) d = a

abbrev or_else {ℓ} : {A : Type ℓ} → Option A → Option A → Option A
or_else none o = o
or_else (some a) o = some a

unfoldable pub agent_name : Env → Config → Text
agent_name env c =
    if is_empty c.control_plane.agent_name
    then unwrap_or env.hostname (codes "unknown")
    else c.control_plane.agent_name

-- `filter(|v| !v.is_empty())`.
abbrev non_empty : Option Text → Option Text
non_empty none = none
non_empty (some v) = if is_empty v then none else some v

unfoldable pub install_token : Env → Config → Option Text
install_token env c = or_else (non_empty env.install_token) c.control_plane.install_token

positive_or_default : Option ℕ → ℕ
positive_or_default none = default_token_max
positive_or_default (some n) = if ltb 0 n then n else default_token_max

unfoldable pub token_max : Option Text → ℕ
unfolding positive_or_default
token_max none = default_token_max
token_max (some v) =
    if not (is_empty v) then positive_or_default (parse_u64 v) else default_token_max

unfoldable pub shutdown_secs : Option Text → ℕ
shutdown_secs none = 30
shutdown_secs (some v) = unwrap_or (parse_u64 v) 30

module _ {A : Type 0} ⦃key : Key A⦄ (parse_addr : Text → Option A)
    (parse_url : Text → Option Url) where
  unfoldable pub parse_origins : List Text → Result ConfigError (List NormalizedOrigin)
  parse_origins [] = ok []
  parse_origins (s ∷ ss) = map_err (λ e. invalid_origin s) (parse parse_url s) >>=? λ o.
      parse_origins ss >>=? λ os. ok (o ∷ os)

  abbrev pub addr_of : Listener → Text → Result ConfigError A
  addr_of l s = ok_or (parse_addr s) (invalid_addr l)

  abbrev pub assemble : Env → Config → Fixed A → Ports A → List NormalizedOrigin → ValidConfig A
  assemble env c f p origins = record {
    listen_addr = f.listen;
    backend_addr = f.backend_to;
    metrics_addr = f.metrics_at;
    max_frame_size = c.server.max_frame_size;
    handshake_timeout_secs = c.server.handshake_timeout_secs;
    max_connections_per_ip = c.server.max_connections_per_ip;
    signing_key_path = c.crypto.signing_key_path;
    log_level = c.logging.level;
    control_plane_enabled = c.control_plane.enabled;
    control_plane_endpoint = c.control_plane.endpoint;
    control_plane_agent_name = agent_name env c;
    heartbeat_interval = max c.control_plane.heartbeat_interval_secs 5;
    key_rotation_enabled = c.key_rotation.enabled;
    max_bytes_per_key = c.key_rotation.max_bytes_per_key;
    key_rotation_interval = c.key_rotation.max_seconds_per_key;
    tls_enabled = c.tls.enabled;
    tls_listen_addr = p.tls_at;
    tls_cert_path = c.tls.cert_path;
    tls_key_path = c.tls.key_path;
    quic_enabled = c.quic.enabled;
    quic_listen_addr = p.quic_at;
    quic_cert_path = unwrap_or c.quic.cert_path [];
    quic_key_path = unwrap_or c.quic.key_path [];
    client_auth_enabled = c.auth.require_client_auth && is_some c.auth.client_vk_path;
    client_vk_path = c.auth.client_vk_path;
    admin_enabled = c.admin.enabled;
    admin_listen_addr = p.admin_at;
    admin_control_plane_vk_path = c.admin.control_plane_vk_path;
    admin_rate_limit_per_second = c.admin.rate_limit_per_second;
    admin_handshake_timeout_secs = c.admin.handshake_timeout_secs;
    control_plane_install_token = install_token env c;
    cloud_vk_path = c.control_plane.cloud_vk_path;
    shutdown_timeout = shutdown_secs env.shutdown_timeout_secs;
    ws_enabled = c.websocket.enabled;
    ws_listen_addr = p.ws_at;
    ws_cert_path = unwrap_or c.websocket.cert_path [];
    ws_key_path = unwrap_or c.websocket.key_path [];
    ws_allowed_origins = origins;
    ws_handshake_timeout_secs = c.websocket.handshake_timeout_secs;
    ws_max_connections_per_ip = c.websocket.max_connections_per_ip;
    vk_share_max_tokens = token_max env.lattice_vk_token_max;
  }

  unfoldable pub fixed_addrs : Config → Result ConfigError (Fixed A)
  fixed_addrs c = addr_of server_listener c.server.listen_addr >>=? λ listen.
      addr_of backend c.server.backend_addr >>=? λ backend_to.
      addr_of metrics_listener c.metrics.listen_addr >>=? λ metrics.
      ok (record { listen = listen; backend_to = backend_to; metrics_at = metrics })

  -- The address of a listener is parsed also where it is off; the checks are for one that is on.
  unfoldable pub listener : Listener → Text → Bool → (A → List Check) → Result ConfigError A
  listener l s enabled checks = addr_of l s >>=? λ a. check_if enabled (checks a) >>=? λ _. ok a

  unfoldable pub ports : Config → (listen metrics : A) → Result ConfigError (Ports A)
  ports c listen metrics =
      listener tls_listener c.tls.listen_addr c.tls.enabled (tls_checks c listen metrics)
      >>=? λ tls.
          listener quic_listener c.quic.listen_addr c.quic.enabled
            (quic_checks c listen metrics tls)
          >>=? λ quic. check_all (auth_checks c) >>=? λ _.
              listener admin_listener c.admin.listen_addr c.admin.enabled
                (admin_checks c listen metrics tls quic)
              >>=? λ admin.
                  listener ws_listener c.websocket.listen_addr c.websocket.enabled
                    (ws_checks c listen metrics tls quic admin)
                  >>=? λ ws.
                      ok (record { tls_at = tls; quic_at = quic; admin_at = admin; ws_at = ws })

  unfoldable pub validate : Env → Config → Result ConfigError (ValidConfig A)
  validate env c = fixed_addrs c >>=? λ f. check_all (server_checks c) >>=? λ _.
      check_all (control_plane_checks (λ s. is_some (parse_url s)) c) >>=? λ _.
      check_all (key_rotation_checks c) >>=? λ _. ports c f.listen f.metrics_at >>=? λ p.
      parse_origins c.websocket.allowed_origins >>=? λ origins. ok (assemble env c f p origins)
