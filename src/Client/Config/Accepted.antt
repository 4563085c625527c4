-- ===== src/Client/Config/Accepted.antt =====
-- Which configurations `validate` of latticeshield-client/src/config.rs accepts.
use latticeshield.Prelude.{
  ◌≤◌, ◌≡◌, ◌≢◌, refl, sym, ap, ◌∙◌, ◌↔◌, Bool, true, false, List, [], ◌∷◌, All, Option, some, ok,
  ok_or, bind-ok, ok_injective, arith, ok_or-ok,
}
use latticeshield.Prelude.Text.{Text, is_empty}
use latticeshield.Client.Config.{
  ClientConfig, ValidClientConfig, ConfigError, invalid_listen_addr, invalid_bridge_addr, checks,
  check_all, validate,
}

check_unrefused :
    (cs : List (Bool × ConfigError)) (u : Unit {0})
    → check_all cs ≡ ok u
    → All (λ c. c.0 ≡ false) cs
unfolding check_all
check_unrefused [] u h = tt
check_unrefused ((true, e) ∷ cs) u h = cc
check_unrefused ((false, e) ∷ cs) u h = (refl, check_unrefused cs u h)

unrefused : (cs : List (Bool × ConfigError)) → All (λ c. c.0 ≡ false) cs → check_all cs ≡ ok tt
unfolding check_all
unrefused [] p = refl
unrefused ((b, e) ∷ cs) p = rw p.0 (unrefused cs p.1)

-- The ranges of an accepted configuration.
abbrev pub InRange : ClientConfig → Type 0
InRange c =
    (1024 ≤ c.client.max_frame_size)
    × (c.client.max_frame_size ≤ 16777216)
    × (c.client.server_vk_path ≢ [])
    × (1 ≤ c.pool.max_size)
    × (c.pool.warm_size ≤ c.pool.max_size)
    × (1 ≤ c.pool.idle_timeout_secs)
    × (1 ≤ c.pool.warm_interval_secs)
    × (c.reconnect.base_delay_ms ≤ c.reconnect.max_delay_ms)

non_empty : (s : Text) → is_empty s ≡ false → s ≢ []
non_empty [] h = cc
non_empty (c ∷ s) h = λ e. cc

not_empty : (s : Text) → s ≢ [] → is_empty s ≡ false
not_empty [] h = absurd (h refl)
not_empty (c ∷ s) h = refl

passed-InRange : (c : ClientConfig) → All (λ x. x.0 ≡ false) (checks c) → InRange c
passed-InRange c (frame, (path, (size, (warm, (idle, (interval, (delays, _))))))) = (
  ground arith,
  ground arith,
  non_empty _ path,
  ground arith,
  ground arith,
  ground arith,
  ground arith,
  ground arith,
)

in_range : (c : ClientConfig) → InRange c → All (λ x. x.0 ≡ false) (checks c)
in_range c (low, high, path, size, warm, idle, interval, delays) = (
  ground arith,
  (
    not_empty _ path,
    (ground arith, (ground arith, (ground arith, (ground arith, (ground arith, tt))))),
  ),
)

module _ {A : Type 0} (parse_addr : Text → Option A) where
  abbrev pub Results : ClientConfig → ValidClientConfig A → Type 0
  Results c v =
      (parse_addr c.client.listen_addr ≡ some v.listen_addr)
      × (parse_addr c.client.bridge_addr ≡ some v.bridge_addr)
      × (v.max_frame_size ≡ c.client.max_frame_size)
      × (v.server_vk_path ≡ c.client.server_vk_path)
      × (v.client_sk_path ≡ c.client.client_sk_path)
      × (v.log_level ≡ c.logging.level)
      × (v.pool ≡ c.pool)
      × (v.reconnect ≡ c.reconnect)

  -- A configuration of the client is accepted exactly where its two addresses parse and all its numbers are in
  -- range: the frame size from 1024 to 16777216, a pool of at least one connection that is never kept warmer than it
  -- is large, delays of at least a second, and a first delay before a reconnection that is at most the longest; the
  -- path of the server's key is not empty. What is accepted carries these values.
  pub validate-Results :
      (c : ClientConfig) (v : ValidClientConfig A)
      → (validate parse_addr c ≡ ok v) ↔ (InRange c × Results c v)
  unfolding validate
  validate-Results c v = (
    λ h.
        let (listen, l, h1) =
          bind-ok (ok_or (parse_addr c.client.listen_addr) invalid_listen_addr) h in
        let (bridge, b, h2) =
          bind-ok (ok_or (parse_addr c.client.bridge_addr) invalid_bridge_addr) h1 in
        let (u, passed, h3) = bind-ok (check_all (checks c)) h2 in
        let same = sym (ok_injective h3) in
        (
          passed-InRange c (check_unrefused (checks c) u passed),
          (
            ok_or-ok _ _ listen l ∙ ap (λ w. some w.listen_addr) (sym same),
            ok_or-ok _ _ bridge b ∙ ap (λ w. some w.bridge_addr) (sym same),
            ap (λ w. w.max_frame_size) same,
            ap (λ w. w.server_vk_path) same,
            ap (λ w. w.client_sk_path) same,
            ap (λ w. w.log_level) same,
            ap (λ w. w.pool) same,
            ap (λ w. w.reconnect) same,
          ),
        ),
    λ (range, (l, b, f, p, s, g, o, r)).
        rw (l, b, unrefused (checks c) (in_range c range), ← f, ← p, ← s, ← g, ← o, ← r) refl,
  )
