-- ===== src/Client/Relay.antt =====
-- `run_relay` of latticeshield-client/src/client_session.rs. One event is the arm that `select!` takes in a
-- round, with what its future gave.
use latticeshield.Prelude.{
  ℕ, zero, suc, Bool, true, [], ◌∷◌, if◌then◌else◌, Option, none, some, Result, ok, err,
}
use latticeshield.Prelude.Bytes.{Bytes}
use latticeshield.Crypto.Primitives.{Aead, Hkdf}
use latticeshield.Crypto.Channel.State.{FrameError}
use latticeshield.Crypto.Channel.Link.{Link, Writer, Fault, failed, panicked, write_all}
use latticeshield.Crypto.Channel.Ops.{write_frame}
use latticeshield.Client.Receive.{receive}

pub data BridgeFailure : Type 0 where
  write_failed read_failed : FrameError → BridgeFailure

pub data RelayOutcome : Type 0 where
  user_eof : RelayOutcome
  bridge_error : BridgeFailure → RelayOutcome
  user_error : RelayOutcome

-- `link` is the channel with the bridge's connection. `bridge_closed` tells whether its writing half was shut
-- down; the result of the shutdown is ignored.
pub record Relay : Type 0 where
  pub link : Link
  pub user_w : Writer
  pub at_user_eof : Bool
  pub bridge_closed : Bool

pub data Event : Type 0 where
  user_read : Bytes → Event
  user_read_failed : Event
  bridge_frame : Event

-- How a round ends; the last is the panic of `rotate_key`.
pub data Round : Type 0 where
  continues : Relay → Round
  returns : RelayOutcome → Relay → Round
  panics : Relay → Round

frame_written : Relay → Result FrameError (Unit {0}) × Link → Round
frame_written r (ok _, l) = continues (record r { link = l })
frame_written r (err e, l) = returns (bridge_error (write_failed e)) (record r { link = l })

user_written : Relay → Result (Unit {0}) (Unit {0}) × Link → Round
user_written r (ok _, m) = continues (record r { user_w = m.output })
user_written r (err _, m) = returns user_error (record r { user_w = m.output })

unfoldable pub received : Relay → Result (Fault FrameError) (Option Bytes) × Link → Round
unfolding user_written
received r (ok (some text), l) =
    user_written (record r { link = l }) (write_all tt text (record l { output = r.user_w }))
received r (ok none, l) = continues (record r { link = l })
received r (err panicked, l) = panics (record r { link = l })
received r (err (failed e), l) =
    returns (if r.at_user_eof then user_eof else bridge_error (read_failed e))
      (record r { link = l })

module _ (aead : Aead) (hkdf : Hkdf) where
  -- The arms that read from the user are disabled after the end of the user's stream, where they change
  -- nothing here.
  unfoldable pub round : Event → Relay → Round
  unfolding frame_written received
  round (user_read bs) r = if r.at_user_eof then continues r else user_arm bs
    where
      user_arm : Bytes → Round
      user_arm [] = continues (record r { at_user_eof = true; bridge_closed = true })
      user_arm (b ∷ bs) = frame_written r (write_frame aead (b ∷ bs) r.link)
  round user_read_failed r = if r.at_user_eof then continues r else returns user_error r
  round bridge_frame r = received r (receive aead hkdf r.link)

  unfoldable pub and_then : (Relay → Round) → Round → Round
  and_then f (continues r) = f r
  and_then f (returns o r) = returns o r
  and_then f (panics r) = panics r

  -- Rounds that all read from the bridge.
  unfoldable pub bridge_rounds : ℕ → Relay → Round
  unfolding and_then
  bridge_rounds zero r = continues r
  bridge_rounds (suc n) r = and_then (bridge_rounds n) (round bridge_frame r)
