-- ===== src/Client/Pool/Fresh.antt =====
-- What one call of `acquire` in latticeshield-client/src/pool.rs takes from the pool.
use latticeshield.Prelude.{
  ℕ, suc, ◌-◌, ◌<◌, ◌≡◌, refl, ap, ◌⊎◌, inl, inr, true, Bool-cases, List, [], ◌∷◌, ◌++◌, length,
  Option, some, arith,
}
use latticeshield.Client.Pool.{
  PoolConfig, nanos, IdleConn, ConnectionPool, is_stale, evict, pop_or_connect, acquire,
}

module _ {S : Type 0} (config : PoolConfig) where
  -- Each is too old when its turn comes.
  abbrev pub AllStale : (clock : ℕ → ℕ) → List (IdleConn S) → Type 0
  AllStale clock [] = Unit {0}
  AllStale clock (c ∷ cs) = (is_stale config (clock 0) c ≡ true) × AllStale (λ k. clock (suc k)) cs

  abbrev pub Found : (clock : ℕ → ℕ) → List (IdleConn S) → List (IdleConn S) → Type 0
  Found clock idle [] = AllStale clock idle
  Found clock idle (c ∷ rest) =
      (old : List (IdleConn S)) × (idle ≡ old ++ (c ∷ rest))
      × AllStale clock old
      × (clock (length old) - c.created_at < nanos config.idle_timeout_secs)

  older :
      (clock : ℕ → ℕ) (c : IdleConn S) (idle rest : List (IdleConn S))
      → is_stale config (clock 0) c ≡ true
      → Found (λ k. clock (suc k)) idle rest
      → Found clock (c ∷ idle) rest
  older clock c idle [] stale f = (stale, f)
  older clock c idle (d ∷ rest) stale (old, same, stales, young) =
      (c ∷ old, ap (◌∷◌ c) same, (stale, stales), young)

  evict-Found :
      (clock : ℕ → ℕ) (idle : List (IdleConn S)) → Found clock idle (evict config clock idle)
  unfolding evict
  evict-Found clock [] = tt
  evict-Found clock (c ∷ idle) = elim (Bool-cases (is_stale config (clock 0) c)) [
    | inl stale ↦ rw stale (
        older clock c idle (evict config (λ k. clock (suc k)) idle) stale
          (evict-Found (λ k. clock (suc k)) idle))
    | inr young ↦ rw young ([], refl, tt, ground arith)
  ]

  -- The two outcomes of `acquire`: nothing usable was idle, or the oldest usable connection is taken.
  abbrev pub Connects : (clock : ℕ → ℕ) → Option S → ConnectionPool S → Type 0
  Connects clock connected pool =
      AllStale clock pool.idle
      × (acquire config clock connected pool ≡ (connected, record pool { idle = [] }))

  abbrev pub Takes : (clock : ℕ → ℕ) → Option S → ConnectionPool S → Type 0
  Takes clock connected pool =
      (c : IdleConn S) × (rest : List (IdleConn S)) × Found clock pool.idle (c ∷ rest)
      × (acquire config clock connected pool ≡ (some c.stream, record pool { idle = rest }))

  -- `acquire` hands out the first idle connection, in the order of the queue, whose age is below the timeout when
  -- it is looked at, having dropped those before it, all of which were too old, and leaves the rest as it is. Where all
  -- are too old it drops them all and connects anew.
  pub acquire_result :
      (clock : ℕ → ℕ) (connected : Option S) (pool : ConnectionPool S)
      → Takes clock connected pool ⊎ Connects clock connected pool
  unfolding acquire pop_or_connect
  acquire_result clock connected pool =
      go (evict config clock pool.idle) (evict-Found clock pool.idle) refl
    where
      go :
          (l : List (IdleConn S))
          → Found clock pool.idle l
          → evict config clock pool.idle ≡ l
          → Takes clock connected pool ⊎ Connects clock connected pool
      go [] found e = inr (found, rw e refl)
      go (c ∷ rest) found e = inl (c, rest, found, rw e refl)
