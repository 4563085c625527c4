-- ===== src/Client/Reconnect/Ends.antt =====
-- The reconnect loop of latticeshield-client/src/client_session.rs comes to an end.
use latticeshield.Prelude.{
  ℕ, zero, suc, ◌+◌, ◌-◌, ◌*◌, ◌^◌, ◌<◌, ◌≤◌, ◌≡◌, refl, sym, ◌∙◌, ◌⊎◌, inl, inr, Bool, true, false,
  not, Bool-cases, ◌&&◌, List, [], ◌∷◌, ◌++◌, append-nil, subst, ◌==◌, ==_iff, ltb, leb,
  if◌then◌else◌, arith,
}
use latticeshield.Client.Handshake.{auth, transport}
use latticeshield.Client.Relay.{user_eof, user_error, bridge_error}
use latticeshield.Client.Backoff.{ReconnectConfig, backoff, jitter_span, backoff-jitter_span}
use latticeshield.Client.Reconnect.{
  ReconnectEvent, reconnected, exhausted, Attempt, acquire_failed, handshake_failed, relayed,
  Handle, continues, returns, Outcome, fresh, retry, after_relay, attempt_once, and_later, handle,
}

-- The ends of an attempt that the loop answers with another one.
abbrev pub is_retriable : Attempt → Bool
is_retriable acquire_failed = true
is_retriable (handshake_failed auth) = false
is_retriable (handshake_failed transport) = true
is_retriable (relayed user_eof eof) = false
is_retriable (relayed user_error eof) = false
is_retriable (relayed (bridge_error e) eof) = not eof

-- Reconnections with rising numbers from `low` on, all in 1..max, and then perhaps the one message that `max`
-- attempts were not enough.
abbrev pub Announces : (low max : ℕ) → List ReconnectEvent → Type 0
Announces low max [] = Unit {0}
Announces low max (reconnected k ∷ events) =
    (low ≤ k) × (1 ≤ k) × (k ≤ max) × Announces (k + 1) max events
Announces low max (exhausted n ∷ events) = (n ≡ max) × (1 ≤ n) × (events ≡ [])

summed :
    (a b c d k longest : ℕ)
    → c ≤ b + k * longest
    → b ≡ a + d
    → d ≤ longest
    → c ≤ a + suc k * longest
summed a b c d k longest h e s = omega arith

module _ (subscribed : Bool) (cfg : ReconnectConfig) (random : ℕ → ℕ) where
  -- What one attempt does.
  abbrev Continued : Attempt → Handle → Outcome → Type 0
  Continued a h (events, next) =
      (is_retriable a ≡ true)
      × (h.attempt < cfg.max_retries)
      × ((h' : Handle) × (next ≡ continues h')
          × (h'.attempt ≡ h.attempt + 1)
          × (h'.slept ≡ h.slept + backoff (random h.attempt) h.attempt cfg))
      × ((rest : List ReconnectEvent)
          → Announces (h.attempt + 1) cfg.max_retries rest
          → Announces h.attempt cfg.max_retries (events ++ rest))

  abbrev Returned : Attempt → Handle → Outcome → Type 0
  Returned a h (events, next) =
      ((is_retriable a ≡ false) ⊎ (h.attempt ≡ cfg.max_retries))
      × ((h' : Handle) × (next ≡ returns h') × (h'.attempt ≡ h.attempt) × (h'.slept ≡ h.slept))
      × Announces h.attempt cfg.max_retries events

  abbrev Goes : Attempt → Handle → Outcome → Type 0
  Goes a h o = Continued a h o ⊎ Returned a h o

  raised :
      (low : ℕ) (max : ℕ) (events : List ReconnectEvent)
      → Announces (low + 1) max events
      → Announces low max events
  raised low max [] t = tt
  raised low max (reconnected k ∷ events) (a, b, c, d) = (omega arith, b, c, d)
  raised low max (exhausted n ∷ events) t = t

  exhausted-Announces :
      (b : Bool) (low n : ℕ)
      → (b ≡ true → (n ≡ cfg.max_retries) × (1 ≤ n))
      → Announces low cfg.max_retries (if b then exhausted n ∷ [] else [])
  exhausted-Announces true low n p = ((p refl).0, (p refl).1, refl)
  exhausted-Announces false low n p = tt

  retry-Goes :
      (a : Attempt) (h : Handle)
      → is_retriable a ≡ true
      → h.attempt ≤ cfg.max_retries
      → Goes a h (retry subscribed cfg random h)
  unfolding retry
  retry-Goes a h r bound = elim (Bool-cases (ltb h.attempt cfg.max_retries)) [
    | inl more ↦ rw more (
        inl (
          r,
          ground arith,
          (_, refl, refl, refl),
          λ rest t. raised h.attempt cfg.max_retries rest t,
        ))
    | inr spent ↦
        let last : h.attempt ≡ cfg.max_retries = ground arith in
        rw spent (
          inr (
            inr last,
            (_, refl, refl, refl),
            exhausted-Announces (ltb 0 cfg.max_retries && subscribed) h.attempt h.attempt
                (λ t. (last, ground arith)),
          ))
  ]

  -- A reconnection that is announced before what the relay's end announces.
  reconnected-Announces :
      (low : ℕ) (events : List ReconnectEvent)
      → low ≤ cfg.max_retries
      → Announces (low + 1) cfg.max_retries events
      → Announces low cfg.max_retries
          ((if ltb 0 low && subscribed then reconnected low ∷ [] else []) ++ events)
  reconnected-Announces low events bound t = elim (Bool-cases (ltb 0 low && subscribed)) [
    | inl b ↦ rw b (omega arith, ground arith, bound, t)
    | inr b ↦ rw b (raised low cfg.max_retries events t)
  ]

  attempt_once-Goes :
      (a : Attempt) (h : Handle)
      → h.attempt ≤ cfg.max_retries
      → Goes a h (attempt_once subscribed cfg random a h)
  unfolding attempt_once after_relay
  attempt_once-Goes acquire_failed h bound = retry-Goes acquire_failed h refl bound
  attempt_once-Goes (handshake_failed auth) h bound = inr (inl refl, (_, refl, refl, refl), tt)
  attempt_once-Goes (handshake_failed transport) h bound =
      retry-Goes (handshake_failed transport) h refl bound
  attempt_once-Goes (relayed user_eof eof) h bound =
      inr (inl refl, (_, refl, refl, refl), reconnected-Announces h.attempt [] bound tt)
  attempt_once-Goes (relayed user_error eof) h bound =
      inr (inl refl, (_, refl, refl, refl), reconnected-Announces h.attempt [] bound tt)
  attempt_once-Goes (relayed (bridge_error e) true) h bound = inr (
    inl refl,
    (_, refl, refl, refl),
    reconnected-Announces h.attempt _ bound (
        exhausted-Announces (leb cfg.max_retries h.attempt && ltb 0 cfg.max_retries && subscribed)
          (h.attempt + 1) h.attempt (λ t. (ground arith, ground arith))),
  )
  attempt_once-Goes (relayed (bridge_error e) false) h bound =
      elim (Bool-cases (leb cfg.max_retries h.attempt)) [
        | inl spent ↦
            let last : h.attempt ≡ cfg.max_retries = ground arith in
            rw spent (
              inr (
                inr last,
                (_, refl, refl, refl),
                reconnected-Announces h.attempt _ bound (
                    exhausted-Announces (ltb 0 cfg.max_retries && subscribed) (h.attempt + 1)
                      h.attempt (λ t. (last, ground arith))),
              ))
        | inr more ↦ rw more (
            inl (
              refl,
              ground arith,
              (_, refl, refl, refl),
              λ rest t.
                  rw
                    (append-nil
                      (if ltb 0 h.attempt && subscribed then reconnected h.attempt ∷ [] else []))
                    (reconnected-Announces h.attempt rest bound t),
            ))
      ]

  -- The longest delay.
  abbrev pub longest_delay : ℕ
  longest_delay = cfg.max_delay_ms + jitter_span cfg.max_delay_ms

  abbrev pub Ends : (ℕ → Attempt) → Handle → Outcome → Type 0
  Ends attempts h (events, next) =
      (last : Handle) × (next ≡ returns last)
      × (h.attempt ≤ last.attempt)
      × (last.attempt ≤ cfg.max_retries)
      × ((i : ℕ) → h.attempt ≤ i → i < last.attempt → is_retriable (attempts i) ≡ true)
      × ((is_retriable (attempts last.attempt) ≡ false) ⊎ (last.attempt ≡ cfg.max_retries))
      × (last.slept ≤ h.slept + (last.attempt - h.attempt) * longest_delay)
      × Announces h.attempt cfg.max_retries events

  ended :
      (a : Attempt) (n : ℕ) (attempts : ℕ → Attempt) (h : Handle)
      → cfg.max_delay_ms < 2 ^ 62
      → a ≡ attempts h.attempt
      → ((k : Handle)
          → k.attempt ≤ cfg.max_retries
          → cfg.max_retries < n + k.attempt
          → Ends attempts k (handle subscribed cfg random n attempts k))
      → h.attempt ≤ cfg.max_retries
      → cfg.max_retries < suc n + h.attempt
      → (o : Outcome) → Goes a h o
      → Ends attempts h
          (and_later subscribed cfg random (handle subscribed cfg random n attempts) o)
  ended a n attempts h delay this ih bound fuel (events, next)
        (inr (why, (h', e, same, slept), told)) =
      rw e (
        h',
        refl,
        omega arith,
        omega arith,
        λ i low high. absurd (omega arith),
        elim why [ inl w ↦ inl (rw (same, ← this) w) | inr w ↦ inr (same ∙ w) ],
        omega arith,
        told,
      )
  ended a n attempts h delay this ih bound fuel (events, next)
        (inl (r, more, (h', e, one, slept), told)) =
      let (last, stops, from, to, retried, why, sum, later) = ih h' (omega arith) (omega arith) in
      let (_, _, short) = backoff-jitter_span (random h.attempt) h.attempt cfg delay in
      let one_more : last.attempt - h.attempt ≡ suc (last.attempt - h'.attempt) = omega arith in
      rw e (
        last,
        stops,
        omega arith,
        to,
        λ i low high. elim (Bool-cases (i == h.attempt)) [
          | inl same ↦ rw ((==_iff i h.attempt).0 same, ← this) r
          | inr other ↦ retried i (ground arith) high
        ],
        why,
        subst (λ k. last.slept ≤ h.slept + k * longest_delay) (sym one_more)
            (summed h.slept h'.slept last.slept (backoff (random h.attempt) h.attempt cfg)
              (last.attempt - h'.attempt) longest_delay sum slept short),
        told _ (
            subst (λ k. Announces k cfg.max_retries (handle subscribed cfg random n attempts h').0)
              one later),
      )

  handle-Ends :
      (n : ℕ) (attempts : ℕ → Attempt) (h : Handle)
      → cfg.max_delay_ms < 2 ^ 62
      → h.attempt ≤ cfg.max_retries
      → cfg.max_retries < n + h.attempt
      → Ends attempts h (handle subscribed cfg random n attempts h)
  unfolding handle
  handle-Ends zero attempts h delay bound fuel = absurd (omega arith)
  handle-Ends (suc n) attempts h delay bound fuel =
      ended (attempts h.attempt) n attempts h delay refl (λ k. handle-Ends n attempts k delay) bound
        fuel (attempt_once subscribed cfg random (attempts h.attempt) h)
        (attempt_once-Goes (attempts h.attempt) h bound)

-- Whatever the pool, the handshakes and the relays do, `handle` returns after at most `max_retries` reconnections,
-- and no later: the last attempt is the first one that the loop does not retry (an authentication error, an end on
-- the user's side, or a bridge that fails after the user's end), or the one that `max_retries` allows. The delays
-- together are at most so many longest delays. The events are reconnections with rising numbers, each at least 1, and at
-- most one `exhausted`, which comes last and carries `max_retries`, at least 1.
pub handle_ends :
    (subscribed : Bool) (cfg : ReconnectConfig) (random : ℕ → ℕ) (attempts : ℕ → Attempt)
    → cfg.max_delay_ms < 2 ^ 62
    → Ends subscribed cfg random attempts fresh
        (handle subscribed cfg random (cfg.max_retries + 1) attempts fresh)
handle_ends subscribed cfg random attempts delay =
    handle-Ends subscribed cfg random (cfg.max_retries + 1) attempts fresh delay (omega arith)
      (omega arith)
