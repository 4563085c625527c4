-- ===== src/Bridge/Config/Sections.antt =====
-- The sections of the configuration file of latticeshield-bridge/src/config.rs with their defaults. A
-- path is its text.
use latticeshield.Prelude.{ℕ, ◌*◌, Bool, true, false, List, [], Option, none}
use latticeshield.Prelude.Text.{Text, codes}

pub record ServerConfig : Type 0 where
  pub listen_addr : Text
  pub backend_addr : Text
  pub max_frame_size : ℕ
  pub handshake_timeout_secs : ℕ
  pub max_connections_per_ip : ℕ

abbrev pub default_server_config : ServerConfig
default_server_config = record {
  listen_addr = codes "0.0.0.0:8443";
  backend_addr = codes "127.0.0.1:8080";
  max_frame_size = 64 * 1024;
  handshake_timeout_secs = 10;
  max_connections_per_ip = 50;
}

pub record CryptoConfig : Type 0 where
  pub signing_key_path : Text

abbrev pub default_crypto_config : CryptoConfig
default_crypto_config = record { signing_key_path = codes "./keys/server.sk" }

pub record MetricsConfig : Type 0 where
  pub listen_addr : Text

abbrev pub default_metrics_config : MetricsConfig
default_metrics_config = record { listen_addr = codes "0.0.0.0:8444" }

pub record LoggingConfig : Type 0 where
  pub level : Text

abbrev pub default_logging_config : LoggingConfig
default_logging_config = record { level = codes "info" }

pub record AdminConfig : Type 0 where
  pub enabled : Bool
  pub listen_addr : Text
  pub control_plane_vk_path : Option Text
  pub rate_limit_per_second : ℕ
  pub handshake_timeout_secs : ℕ

abbrev pub default_admin_config : AdminConfig
default_admin_config = record {
  enabled = false;
  listen_addr = codes "127.0.0.1:8445";
  control_plane_vk_path = none;
  rate_limit_per_second = 5;
  handshake_timeout_secs = 10;
}

pub record AuthConfig : Type 0 where
  pub client_vk_path : Option Text
  pub require_client_auth : Bool

abbrev pub default_auth_config : AuthConfig
default_auth_config = record { client_vk_path = none; require_client_auth = true }

pub record ControlPlaneConfig : Type 0 where
  pub enabled : Bool
  pub endpoint : Text
  pub agent_name : Text
  pub heartbeat_interval_secs : ℕ
  pub install_token : Option Text
  pub cloud_vk_path : Option Text

abbrev pub default_control_plane_config : ControlPlaneConfig
default_control_plane_config = record {
  enabled = false;
  endpoint = [];
  agent_name = [];
  heartbeat_interval_secs = 30;
  install_token = none;
  cloud_vk_path = none;
}

pub record KeyRotationConfig : Type 0 where
  pub enabled : Bool
  pub max_bytes_per_key : ℕ
  pub max_seconds_per_key : ℕ

abbrev pub default_key_rotation_config : KeyRotationConfig
default_key_rotation_config = record {
  enabled = false;
  max_bytes_per_key = 10737418240;
  max_seconds_per_key = 86400;
}

pub record TlsConfig : Type 0 where
  pub enabled : Bool
  pub listen_addr : Text
  pub cert_path : Text
  pub key_path : Text

abbrev pub default_tls_config : TlsConfig
default_tls_config = record {
  enabled = false;
  listen_addr = codes "0.0.0.0:8440";
  cert_path = codes "./keys/tls.crt";
  key_path = codes "./keys/tls.key";
}

pub record QuicConfig : Type 0 where
  pub enabled : Bool
  pub listen_addr : Text
  pub cert_path : Option Text
  pub key_path : Option Text

abbrev pub default_quic_config : QuicConfig
default_quic_config = record {
  enabled = false;
  listen_addr = codes "0.0.0.0:8441";
  cert_path = none;
  key_path = none;
}

pub record WsConfig : Type 0 where
  pub enabled : Bool
  pub listen_addr : Text
  pub cert_path : Option Text
  pub key_path : Option Text
  pub allowed_origins : List Text
  pub handshake_timeout_secs : ℕ
  pub max_connections_per_ip : ℕ

abbrev pub default_ws_config : WsConfig
default_ws_config = record {
  enabled = false;
  listen_addr = codes "0.0.0.0:8446";
  cert_path = none;
  key_path = none;
  allowed_origins = [];
  handshake_timeout_secs = 10;
  max_connections_per_ip = 100;
}

pub record Config : Type 0 where
  pub server : ServerConfig
  pub crypto : CryptoConfig
  pub metrics : MetricsConfig
  pub logging : LoggingConfig
  pub control_plane : ControlPlaneConfig
  pub key_rotation : KeyRotationConfig
  pub tls : TlsConfig
  pub quic : QuicConfig
  pub auth : AuthConfig
  pub admin : AdminConfig
  pub websocket : WsConfig

abbrev pub default_config : Config
default_config = record {
  server = default_server_config;
  crypto = default_crypto_config;
  metrics = default_metrics_config;
  logging = default_logging_config;
  control_plane = default_control_plane_config;
  key_rotation = default_key_rotation_config;
  tls = default_tls_config;
  quic = default_quic_config;
  auth = default_auth_config;
  admin = default_admin_config;
  websocket = default_ws_config;
}
