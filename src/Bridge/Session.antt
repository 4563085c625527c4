-- ===== src/Bridge/Session.antt =====
-- The relay loop of latticeshield-bridge/src/session.rs. One event is the arm that `select!` takes in a round,
-- with what its future gave (a read of no bytes is the end of the stream); what `OsRng` draws for a rotation comes with it.
pub mod Budget
use latticeshield.Prelude.{
  ℕ, ◌+◌, ◌%◌, ◌^◌, Bool, true, false, ◌&&◌, List, [], ◌∷◌, length, leb, if◌then◌else◌, Result, ok,
  err,
}
use latticeshield.Prelude.Bytes.{Bytes}
use latticeshield.Crypto.Primitives.{Aead, Hkdf}
use latticeshield.Crypto.Channel.State.{FrameError, FrameResult, plain, key_rotate, RotateError}
use latticeshield.Crypto.Channel.Link.{Link, Writer, Fault, write_all}
use latticeshield.Crypto.Channel.Ops.{write_frame, read_frame}
use latticeshield.Bridge.Rotate.{do_rotate}

-- The fields of `ValidConfig` that the loop reads.
pub record RelayConfig : Type 0 where
  pub key_rotation_enabled : Bool
  pub max_bytes_per_key : ℕ

pub record MetricsState : Type 0 where
  pub key_rotations_total : ℕ
  pub channel_errors_total : ℕ
  pub bytes_transmitted_total : ℕ

-- `link` is the channel with the client's connection, `backend_w` the way to the backend.
pub record Session : Type 0 where
  pub link : Link
  pub backend_w : Writer
  pub bytes_this_epoch : ℕ
  pub metrics_state : MetricsState

pub data SessionError : Type 0 where
  write_backend : SessionError
  write_client : FrameError → SessionError
  rotation : Fault RotateError → SessionError

pub data Event : Type 0 where
  client_frame : Event
  backend_read : Bytes → Event
  backend_failed : Event
  timer_tick : Event
  rotate_changed : Bool → Event

-- How an arm ends: with a value for `should_rotate`, in `break`, or in `?`.
pub data Arm : Type 0 where
  value : Bool → Session → Arm
  break : Session → Arm
  bail : SessionError → Session → Arm

-- How a round ends.
pub data Round : Type 0 where
  continues : Session → Round
  returns : Result SessionError (Unit {0}) → Session → Round

abbrev add_u64 : ℕ → ℕ → ℕ
add_u64 a b = (a + b) % 2 ^ 64

-- The write to the backend is that of a link whose output is the backend's.
unfoldable pub backend_written : Session → Result (Unit {0}) (Unit {0}) × Link → Arm
backend_written s (ok _, m) = value false (record s { backend_w = m.output })
backend_written s (err _, m) = bail write_backend (record s { backend_w = m.output })

abbrev channel_error : Session → Session
channel_error s = record s {
  metrics_state = record s.metrics_state {
    channel_errors_total = add_u64 s.metrics_state.channel_errors_total 1;
  };
}

unfoldable pub client_arm : Session → Result FrameError FrameResult × Link → Arm
unfolding backend_written
client_arm s (ok (plain []), l) = break (record s { link = l })
client_arm s (ok (plain (b ∷ bs)), l) =
    backend_written (record s { link = l })
      (write_all tt (b ∷ bs) (record l { output = s.backend_w }))
client_arm s (ok (key_rotate _), l) = break (record s { link = l })
client_arm s (err e, l) = break (channel_error (record s { link = l }))

module _ (config : RelayConfig) where
  unfoldable pub frame_written : Session → ℕ → Result FrameError (Unit {0}) × Link → Arm
  frame_written s n (err e, l) = bail (write_client e) (record s { link = l })
  frame_written s n (ok _, l) =
      value
        (config.key_rotation_enabled && leb config.max_bytes_per_key (add_u64 s.bytes_this_epoch n))
        (record s {
          link = l;
          bytes_this_epoch = add_u64 s.bytes_this_epoch n;
          metrics_state = record s.metrics_state {
            bytes_transmitted_total = add_u64 s.metrics_state.bytes_transmitted_total n;
          };
        })

module _ (aead : Aead) (hkdf : Hkdf) (config : RelayConfig) where
  -- The timer's arm is disabled where rotation is off, so no round takes it there.
  unfoldable pub arm : Event → Session → Arm
  unfolding client_arm backend_written frame_written
  arm client_frame s = client_arm s (read_frame aead s.link)
  arm (backend_read []) s = break s
  arm (backend_read (b ∷ bs)) s =
      frame_written config s (length (b ∷ bs)) (write_frame aead (b ∷ bs) s.link)
  arm backend_failed s = break s
  arm timer_tick s = value config.key_rotation_enabled s
  arm (rotate_changed is_ok) s = value is_ok s

  unfoldable pub rotation_done : Session → Result (Fault RotateError) (Unit {0}) × Link → Round
  rotation_done s (err e, l) = returns (err (rotation e)) (record s { link = l })
  rotation_done s (ok _, l) = continues (record s {
    link = l;
    bytes_this_epoch = 0;
    metrics_state = record s.metrics_state {
      key_rotations_total = add_u64 s.metrics_state.key_rotations_total 1;
    };
  })

  unfoldable pub finish : Bytes → Bytes → Arm → Round
  unfolding rotation_done
  finish gcm_nonce nonce (value false s) = continues s
  finish gcm_nonce nonce (value true s) =
      rotation_done s (do_rotate aead hkdf gcm_nonce nonce s.link)
  finish gcm_nonce nonce (break s) = returns (ok tt) s
  finish gcm_nonce nonce (bail e s) = returns (err e) s

  unfoldable pub round : Bytes → Bytes → Event → Session → Round
  round gcm_nonce nonce event s = finish gcm_nonce nonce (arm event s)
