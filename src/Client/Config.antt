-- ===== src/Client/Config.antt =====
-- latticeshield-client/src/config.rs: the sections, their defaults and `validate`. The parser of addresses is a
-- parameter, a path is its text.
pub mod Accepted
use latticeshield.Prelude.{
  ℕ, ◌*◌, Bool, List, [], ◌∷◌, ltb, ◌||◌, if◌then◌else◌, Option, none, some, Result, ok, err, ok_or,
  ◌>>=?◌,
}
use latticeshield.Prelude.Text.{Text, codes, is_empty}
use latticeshield.Client.Backoff.{ReconnectConfig}
use latticeshield.Client.Pool.{PoolConfig}

pub record ClientSection : Type 0 where
  pub listen_addr : Text
  pub bridge_addr : Text
  pub server_vk_path : Text
  pub max_frame_size : ℕ
  pub client_sk_path : Option Text

pub record LoggingSection : Type 0 where
  pub level : Text

pub record ClientConfig : Type 0 where
  pub client : ClientSection
  pub logging : LoggingSection
  pub pool : PoolConfig
  pub reconnect : ReconnectConfig

abbrev pub default_client_section : ClientSection
default_client_section = record {
  listen_addr = codes "127.0.0.1:9090";
  bridge_addr = codes "127.0.0.1:8443";
  server_vk_path = codes "./keys/server.vk";
  max_frame_size = 65536;
  client_sk_path = none;
}

abbrev pub default_logging_section : LoggingSection
default_logging_section = record { level = codes "info" }

abbrev pub default_pool_config : PoolConfig
default_pool_config = record {
  max_size = 4;
  idle_timeout_secs = 30;
  warm_size = 2;
  warm_interval_secs = 5;
}

abbrev pub default_reconnect_config : ReconnectConfig
default_reconnect_config = record { max_retries = 0; base_delay_ms = 100; max_delay_ms = 30000 }

abbrev pub default_client_config : ClientConfig
default_client_config = record {
  client = default_client_section;
  logging = default_logging_section;
  pool = default_pool_config;
  reconnect = default_reconnect_config;
}

pub record ValidClientConfig (A : Type 0) : Type 0 where
  pub listen_addr : A
  pub bridge_addr : A
  pub server_vk_path : Text
  pub client_sk_path : Option Text
  pub max_frame_size : ℕ
  pub log_level : Text
  pub pool : PoolConfig
  pub reconnect : ReconnectConfig

pub data ConfigError : Type 0 where
  invalid_listen_addr invalid_bridge_addr frame_size_out_of_range server_vk_path_empty : ConfigError
  max_size_zero warm_size_too_large idle_timeout_zero warm_interval_zero delays_out_of_order :
      ConfigError

-- The conditions that refuse a configuration, in their order.
abbrev pub checks : ClientConfig → List (Bool × ConfigError)
checks c =
    (
      ltb c.client.max_frame_size 1024 || ltb (16 * 1024 * 1024) c.client.max_frame_size,
      frame_size_out_of_range,
    )
    ∷ (is_empty c.client.server_vk_path, server_vk_path_empty)
    ∷ (ltb c.pool.max_size 1, max_size_zero)
    ∷ (ltb c.pool.max_size c.pool.warm_size, warm_size_too_large)
    ∷ (ltb c.pool.idle_timeout_secs 1, idle_timeout_zero)
    ∷ (ltb c.pool.warm_interval_secs 1, warm_interval_zero)
    ∷ (ltb c.reconnect.max_delay_ms c.reconnect.base_delay_ms, delays_out_of_order)
    ∷ []

unfoldable pub check_all : List (Bool × ConfigError) → Result ConfigError (Unit {0})
check_all [] = ok tt
check_all ((b, e) ∷ cs) = let rest = check_all cs in if b then err e else rest

module _ {A : Type 0} (parse_addr : Text → Option A) where
  unfoldable pub validate : ClientConfig → Result ConfigError (ValidClientConfig A)
  validate c = ok_or (parse_addr c.client.listen_addr) invalid_listen_addr >>=? λ listen_addr.
      ok_or (parse_addr c.client.bridge_addr) invalid_bridge_addr >>=? λ bridge_addr.
      check_all (checks c) >>=? λ _. ok (record {
        listen_addr = listen_addr;
        bridge_addr = bridge_addr;
        server_vk_path = c.client.server_vk_path;
        client_sk_path = c.client.client_sk_path;
        max_frame_size = c.client.max_frame_size;
        log_level = c.logging.level;
        pool = c.pool;
        reconnect = c.reconnect;
      })
