-- ===== src/Tests/Delays.antt =====
-- The fourth attempt to reconnect with a base delay of half a second.
use latticeshield.Prelude.{◌+◌, ◌-◌, ◌≤◌, ◌≡◌, refl, arith}
use latticeshield.Client.Backoff.{
  ReconnectConfig, capped_delay, jitter_span, jittered, backoff, backoff-jitter_span,
}

abbrev reconnect : ReconnectConfig
reconnect = record { max_retries = 5; base_delay_ms = 500; max_delay_ms = 30000 }

delay_test : backoff 12345 3 reconnect ≡ 4338
unfolding backoff jittered
delay_test = refl

backoff-jitter_span_example :
    (capped_delay 3 reconnect - jitter_span (capped_delay 3 reconnect) ≤ backoff 12345 3 reconnect)
    × (1 ≤ backoff 12345 3 reconnect)
    × (backoff 12345 3 reconnect ≤ 30000 + jitter_span 30000)
backoff-jitter_span_example = backoff-jitter_span 12345 3 reconnect (omega arith)
