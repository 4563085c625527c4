-- ===== src/Client/Pool.antt =====
-- latticeshield-client/src/pool.rs. A connection is a value of any type, times are nanoseconds, and what the
-- network gives is an argument. The lock makes each of these functions a step; `warm_loop` holds it twice in a
-- round, so `warm_push` takes the number of idle connections that was seen before.
pub mod History
pub mod Fresh
use latticeshield.Prelude.{
  ℕ, suc, ◌+◌, ◌-◌, ◌*◌, min, Bool, true, false, List, [], ◌∷◌, ◌++◌, length, take, map, leb, ◌==◌,
  if◌then◌else◌, Option, none, some,
}

pub record PoolConfig : Type 0 where
  pub max_size : ℕ
  pub idle_timeout_secs : ℕ
  pub warm_size : ℕ
  pub warm_interval_secs : ℕ

abbrev pub nanos : ℕ → ℕ
nanos secs = secs * 1000000000

module _ (S : Type 0) where
  pub record IdleConn : Type 0 where
    pub stream : S
    pub created_at : ℕ

  -- The queue and the flag that `shutdown` sends.
  pub record ConnectionPool : Type 0 where
    pub idle : List IdleConn
    pub shut_down : Bool

  unfoldable pub new : ConnectionPool
  new = record { idle = []; shut_down = false }

unfoldable pub to_add : PoolConfig → (current_count : ℕ) → ℕ
to_add config current_count =
    min (config.warm_size - current_count) (config.max_size - current_count)

module _ {S : Type 0} (config : PoolConfig) where
  abbrev pub is_stale : (now : ℕ) → IdleConn S → Bool
  is_stale now c = leb (nanos config.idle_timeout_secs) (now - c.created_at)

  -- The loop of `acquire`; the clock is read anew for each connection, `clock k` for the k-th.
  unfoldable pub evict : (clock : ℕ → ℕ) → List (IdleConn S) → List (IdleConn S)
  evict clock [] = []
  evict clock (c ∷ idle) =
      let rest = evict (λ k. clock (suc k)) idle in if is_stale (clock 0) c then rest else c ∷ idle

  -- What the pool has, or else a new connection, which may fail.
  unfoldable pub pop_or_connect :
      Option S → ConnectionPool S → List (IdleConn S) → Option S × ConnectionPool S
  pop_or_connect connected pool [] = (connected, record pool { idle = [] })
  pop_or_connect connected pool (c ∷ idle) = (some c.stream, record pool { idle = idle })

  unfoldable pub acquire :
      (clock : ℕ → ℕ) (connected : Option S) → ConnectionPool S → Option S × ConnectionPool S
  acquire clock connected pool = pop_or_connect connected pool (evict clock pool.idle)

  unfoldable pub push_new : List (IdleConn S) → List (IdleConn S) → List (IdleConn S)
  push_new [] idle = idle
  push_new (c ∷ new_conns) idle =
      let rest = push_new new_conns (idle ++ (c ∷ [])) in
      if leb config.max_size (length idle) then idle else rest

  -- A round of `warm_loop` from the count on; `connections` are those that were made, in the order in which
  -- they came, at most as many as were asked for.
  unfoldable pub warm_push :
      (current_count : ℕ) → List (IdleConn S) → ConnectionPool S → ConnectionPool S
  warm_push current_count connections pool = if config.warm_size == 0 then pool else record pool {
    idle = push_new (take (to_add config current_count) connections) pool.idle;
  }

  unfoldable pub shutdown : ConnectionPool S → ConnectionPool S
  shutdown pool = record pool { idle = []; shut_down = true }
