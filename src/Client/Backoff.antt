-- ===== src/Client/Backoff.antt =====
-- `backoff` of latticeshield-client/src/client_session.rs, in milliseconds. What `OsRng` draws is an argument.
use native.Mathlib.Nat.{mod-lt}
use latticeshield.Prelude.{
  ℕ, ◌+◌, ◌-◌, ◌*◌, ◌/◌, ◌%◌, ◌^◌, ◌≤◌, ◌<◌, min, max, ◌≡◌, leb, if◌then◌else◌, arith,
}

-- `ReconnectConfig`.
pub record ReconnectConfig : Type 0 where
  pub max_retries : ℕ
  pub base_delay_ms : ℕ
  pub max_delay_ms : ℕ

abbrev pub capped_delay : ℕ → ReconnectConfig → ℕ
capped_delay attempt cfg =
    min (min (cfg.base_delay_ms * 2 ^ min attempt 20) (2 ^ 64 - 1)) cfg.max_delay_ms

abbrev pub jitter_span : ℕ → ℕ
jitter_span capped = max (capped / 5) 1

-- The sum in 64 bits, read as a signed number, and at least 1.
unfoldable pub jittered : (capped jitter span : ℕ) → ℕ
jittered capped jitter span =
    let x : ℕ = (capped + jitter + (2 ^ 64 - span)) % 2 ^ 64 in
    if leb (2 ^ 63) x then 1 else max x 1

unfoldable pub backoff : (random attempt : ℕ) → ReconnectConfig → ℕ
backoff random attempt cfg =
    let capped : ℕ = capped_delay attempt cfg in
    let span : ℕ = jitter_span capped in jittered capped (random % ((span * 2 + 1) % 2 ^ 64)) span

jittered_within :
    (capped jitter span : ℕ)
    → capped < 2 ^ 62
    → span ≤ capped + 1
    → jitter ≤ span * 2
    → (capped - span ≤ jittered capped jitter span)
      × (1 ≤ jittered capped jitter span)
      × (jittered capped jitter span ≤ max (capped + span) 1)
unfolding jittered
jittered_within capped jitter span c s j = ground arith

drawn :
    (random capped max_delay : ℕ)
    → capped ≤ max_delay
    → max_delay < 2 ^ 62
    → (capped - jitter_span capped
        ≤ jittered capped (random % ((jitter_span capped * 2 + 1) % 2 ^ 64)) (jitter_span capped))
      × (1
          ≤ jittered capped (random % ((jitter_span capped * 2 + 1) % 2 ^ 64)) (jitter_span capped))
      × (jittered capped (random % ((jitter_span capped * 2 + 1) % 2 ^ 64)) (jitter_span capped)
          ≤ max_delay + jitter_span max_delay)
drawn random capped max_delay low high =
    let small : (jitter_span capped * 2 + 1) % 2 ^ 64 ≡ jitter_span capped * 2 + 1 = omega arith in
    let j : random % (jitter_span capped * 2 + 1) < jitter_span capped * 2 + 1 =
      mod-lt random (omega arith) in
    let (a, b, c) =
      jittered_within capped (random % (jitter_span capped * 2 + 1)) (jitter_span capped)
        (omega arith) (omega arith) (omega arith) in
    rw small (a, b, omega (arith, c))

-- Where the configured maximum is below 2^62, whatever is drawn, the delay is at least 1, at least the capped
-- delay less its jitter span (a fifth of it, or 1), and at most the configured maximum plus the jitter span
-- of the maximum.
pub backoff-jitter_span :
    (random attempt : ℕ) (cfg : ReconnectConfig)
    → cfg.max_delay_ms < 2 ^ 62
    → (capped_delay attempt cfg - jitter_span (capped_delay attempt cfg)
        ≤ backoff random attempt cfg)
      × (1 ≤ backoff random attempt cfg)
      × (backoff random attempt cfg ≤ cfg.max_delay_ms + jitter_span cfg.max_delay_ms)
unfolding backoff
backoff-jitter_span random attempt cfg h =
    drawn random (capped_delay attempt cfg) cfg.max_delay_ms (omega arith) h
