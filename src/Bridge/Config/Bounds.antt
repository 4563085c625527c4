-- ===== src/Bridge/Config/Bounds.antt =====
-- The ranges of the numbers in a configuration that `validate` (latticeshield-bridge/src/config.rs) accepts.
use latticeshield.Prelude.{◌+◌, ◌*◌, ◌^◌, ◌≤◌, ◌<◌, ◌≡◌, subst, sym, Option, none, some, ok, arith}
use latticeshield.Prelude.Text.{Text}
use latticeshield.Prelude.Dict.{Key}
use latticeshield.Crypto.Channel.State.{tag_len}
use latticeshield.Bridge.Ws.Origin.{Url}
use latticeshield.Bridge.Config.Sections.{Config}
use latticeshield.Bridge.Config.Validate.{Env, ValidConfig, validate, token_max}
use latticeshield.Bridge.Config.Accepted.{Accepted, validate-Accepted}

pub record InRange {A : Type 0} (v : ValidConfig A) : Type 0 where
  pub frame_size_low : 1024 ≤ v.max_frame_size
  pub frame_size_high : v.max_frame_size ≤ 16 * 1024 * 1024
  pub length_u32 : v.max_frame_size + tag_len < 2 ^ 32
  pub handshake_timeout : 1 ≤ v.handshake_timeout_secs
  pub connections : 1 ≤ v.max_connections_per_ip
  pub heartbeat : 5 ≤ v.heartbeat_interval
  pub bytes_per_key : 1048576 ≤ v.max_bytes_per_key
  pub seconds_per_key : 60 ≤ v.key_rotation_interval
  pub tokens : 1 ≤ v.vk_share_max_tokens

token_max_pos : (o : Option Text) → 1 ≤ token_max o
unfolding token_max
token_max_pos none = omega arith
token_max_pos (some v) = ground arith

module _ {A : Type 0} ⦃key : Key A⦄ (parse_addr : Text → Option A)
    (parse_url : Text → Option Url) where
  Accepted-InRange :
      (env : Env) (c : Config) (v : ValidConfig A)
      → Accepted parse_addr parse_url env c v
      → InRange v
  Accepted-InRange env c v a = subst InRange (sym a.result) (record {
    frame_size_low = ground (arith, a.server_passed.0);
    frame_size_high = ground (arith, a.server_passed.0);
    length_u32 = ground (arith, a.server_passed.0);
    handshake_timeout = ground (arith, a.server_passed.1.0);
    connections = ground (arith, a.server_passed.1.1.0);
    heartbeat = omega arith;
    bytes_per_key = ground (arith, a.key_rotation_passed.0);
    seconds_per_key = ground (arith, a.key_rotation_passed.1.0);
    tokens = token_max_pos env.lattice_vk_token_max;
  })

  -- In every configuration that `validate` accepts, whatever the environment and the parsers of
  -- addresses and URLs, the frame size is between 1024 and 16777216 and with the tag below 2^32,
  -- the handshake timeout, the connections per address and the cap on tokens are at least 1, the
  -- heartbeat interval is at least 5, a key is kept for at least 1048576 bytes and its rotation
  -- interval is at least 60.
  pub validate-InRange :
      (env : Env) (c : Config) (v : ValidConfig A)
      → validate parse_addr parse_url env c ≡ ok v
      → InRange v
  validate-InRange env c v h =
      Accepted-InRange env c v (validate-Accepted parse_addr parse_url env c v h)
