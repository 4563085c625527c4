-- ===== src/Tests/Reconnects.antt =====
-- A client that reconnects twice, a pool of three connections, and a configuration.
use mathlib.Core.List.{Sublistᴰ}
use latticeshield.Prelude.{
  ℕ, zero, suc, ◌≤◌, ◌≡◌, ◌↔◌, true, false, List, [], ◌∷◌, ◌++◌, length, Option, none, some, ok,
  arith,
}
use latticeshield.Prelude.Text.{Text, codes}
use latticeshield.Client.Relay.{user_eof, bridge_error, read_failed}
use latticeshield.Crypto.Channel.State.{io}
use latticeshield.Client.Backoff.{ReconnectConfig}
use latticeshield.Client.Pool.{PoolConfig, IdleConn, ConnectionPool}
use latticeshield.Client.Pool.History.{
  Call, acquires, warms, streams, returned, offered, Answered, run, run_Sublist,
}
use latticeshield.Client.Reconnect.{Attempt, acquire_failed, relayed, fresh, handle}
use latticeshield.Client.Reconnect.Ends.{Ends, handle_ends}
use latticeshield.Client.Config.{ValidClientConfig, default_client_config, validate}
use latticeshield.Client.Config.Accepted.{InRange, Results, validate-Results}

abbrev reconnect : ReconnectConfig
reconnect = record { max_retries = 3; base_delay_ms = 100; max_delay_ms = 1000 }

abbrev attempts : ℕ → Attempt
attempts zero = acquire_failed
attempts (suc zero) = relayed (bridge_error (read_failed io)) false
attempts (suc (suc n)) = relayed user_eof true

handle_ends_example :
    Ends true reconnect (λ n. 7) attempts fresh (handle true reconnect (λ n. 7) 4 attempts fresh)
handle_ends_example = handle_ends true reconnect (λ n. 7) attempts (omega arith)

abbrev pool_config : PoolConfig
pool_config = record { max_size = 2; idle_timeout_secs = 30; warm_size = 2; warm_interval_secs = 5 }

abbrev made : (id created_at : ℕ) → IdleConn ℕ
made id created_at = record { stream = id; created_at = created_at }

abbrev pool : ConnectionPool ℕ
pool = record { idle = made 1 0 ∷ made 2 20000000000 ∷ []; shut_down = false }

abbrev calls : List (Call ℕ)
calls =
    acquires (λ k. 31000000000) none
    ∷ warms 0 (made 3 32000000000 ∷ made 4 32000000000 ∷ [])
    ∷ acquires (λ k. 33000000000) none
    ∷ acquires (λ k. 99000000000) (some 5)
    ∷ []

run_Sublist_example :
    Sublistᴰ
      (returned (run pool_config calls pool).0 ++ streams (run pool_config calls pool).1.idle)
      (streams pool.idle ++ offered calls)
    × Answered calls (run pool_config calls pool).0
    × (length (run pool_config calls pool).1.idle ≤ 2)
run_Sublist_example = run_Sublist pool_config calls pool (omega arith)

abbrev parse_addr : Text → Option Text
parse_addr s = some s

abbrev accepted : ValidClientConfig Text
accepted = record {
  listen_addr = codes "127.0.0.1:9090";
  bridge_addr = codes "127.0.0.1:8443";
  server_vk_path = codes "./keys/server.vk";
  client_sk_path = none;
  max_frame_size = 65536;
  log_level = codes "info";
  pool = default_client_config.pool;
  reconnect = default_client_config.reconnect;
}

validate-Results_example :
    (validate parse_addr default_client_config ≡ ok accepted)
    ↔ (InRange default_client_config × Results parse_addr default_client_config accepted)
validate-Results_example = validate-Results parse_addr default_client_config accepted
