-- ===== src/Client/Reconnect.antt =====
-- The reconnect loop `handle` of latticeshield-client/src/client_session.rs. What the pool, the handshake and the
-- relay give for an attempt is an argument, and so is what the jitter of a delay draws. The address of the peer,
-- which never changes, is left out of the events.
pub mod Ends
use latticeshield.Prelude.{
  ℕ, zero, suc, ◌+◌, Bool, true, false, ◌&&◌, ◌||◌, List, [], ◌∷◌, ◌++◌, ltb, leb, if◌then◌else◌,
}
use latticeshield.Client.Handshake.{HandshakeError, auth, transport}
use latticeshield.Client.Relay.{RelayOutcome, user_eof, user_error, bridge_error}
use latticeshield.Client.Backoff.{ReconnectConfig, backoff}

pub data ReconnectEvent : Type 0 where
  reconnected exhausted : ℕ → ReconnectEvent

-- How far an attempt came; the last also tells whether the user's stream has ended.
pub data Attempt : Type 0 where
  acquire_failed : Attempt
  handshake_failed : HandshakeError → Attempt
  relayed : RelayOutcome → (at_user_eof : Bool) → Attempt

-- `slept` is the sum of the delays so far, in milliseconds.
pub record Handle : Type 0 where
  pub attempt : ℕ
  pub at_user_eof : Bool
  pub user_shutdown : Bool
  pub slept : ℕ

pub data Next : Type 0 where
  continues returns : Handle → Next

abbrev pub fresh : Handle
fresh = record { attempt = 0; at_user_eof = false; user_shutdown = false; slept = 0 }

-- What an attempt or the loop sends to `reconnect_tx`, and how it goes on.
abbrev pub Outcome : Type 0
Outcome = List ReconnectEvent × Next

abbrev emit : Bool → ReconnectEvent → List ReconnectEvent
emit b e = if b then e ∷ [] else []

abbrev shut_down : Handle → Next
shut_down h = returns (record h { user_shutdown = true })

module _ (subscribed : Bool) (cfg : ReconnectConfig) (random : ℕ → ℕ) where
  abbrev sleep_and_retry : Handle → Next
  sleep_and_retry h = continues (record h {
    slept = h.slept + backoff (random h.attempt) h.attempt cfg;
    attempt = h.attempt + 1;
  })

  -- The arms for a failed `acquire` and for a transport error.
  unfoldable pub retry : Handle → Outcome
  retry h =
      if ltb h.attempt cfg.max_retries
      then ([], sleep_and_retry h)
      else (emit (ltb 0 cfg.max_retries && subscribed) (exhausted h.attempt), shut_down h)

  unfoldable pub after_relay : RelayOutcome → Handle → Outcome
  after_relay user_eof h = ([], returns h)
  after_relay user_error h = ([], returns h)
  after_relay (bridge_error e) h =
      if h.at_user_eof || leb cfg.max_retries h.attempt
      then (
        emit (leb cfg.max_retries h.attempt && ltb 0 cfg.max_retries && subscribed)
            (exhausted h.attempt),
        shut_down h,
      )
      else ([], sleep_and_retry h)

  unfoldable pub attempt_once : Attempt → Handle → Outcome
  attempt_once acquire_failed h = retry h
  attempt_once (handshake_failed auth) h = ([], shut_down h)
  attempt_once (handshake_failed transport) h = retry h
  attempt_once (relayed outcome eof) h =
      let (events, next) = after_relay outcome (record h { at_user_eof = eof }) in
      (emit (ltb 0 h.attempt && subscribed) (reconnected h.attempt) ++ events, next)

  abbrev pub and_later : (Handle → Outcome) → Outcome → Outcome
  and_later f (events, returns h) = (events, returns h)
  and_later f (events, continues h) = (events ++ (f h).0, (f h).1)

  -- The loop for at most so many attempts.
  unfoldable pub handle : ℕ → (ℕ → Attempt) → Handle → Outcome
  handle zero attempts h = ([], continues h)
  handle (suc n) attempts h = and_later (handle n attempts) (attempt_once (attempts h.attempt) h)
