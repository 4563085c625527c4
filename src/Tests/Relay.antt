-- ===== src/Tests/Relay.antt =====
-- Two rounds of the relay loop, the second of which rotates the key.
use latticeshield.Prelude.{◌+◌, ◌≡◌, ◌<◌, ◌≢◌, All, refl, true, [], ◌∷◌, arith}
use latticeshield.Prelude.Bytes.{to_be_bytes}
use latticeshield.Crypto.Channel.State.{new}
use latticeshield.Crypto.Channel.Link.{write_all, flush}
use latticeshield.Crypto.Channel.Ops.{write_frame, data_nonce, send_key_rotate, rotate_key}
use latticeshield.Bridge.Rotate.{do_rotate}
use latticeshield.Bridge.Session.{
  RelayConfig, Session, backend_read, Round, continues, round, finish, arm, frame_written,
  rotation_done,
}
use latticeshield.Bridge.Session.Budget
use latticeshield.Bridge.Session.Budget.{Relays, Relays-budget}
use latticeshield.Tests.Cipher.{toy_aead, toy_aead_laws, toy_hkdf}
use latticeshield.Tests.Channel.{endpoint, hello}

abbrev config : RelayConfig
config = record { key_rotation_enabled = true; max_bytes_per_key = 4 }

abbrev session : Session
session = record {
  link = endpoint;
  backend_w = record { sent = []; room = 1000; flushes = true };
  bytes_this_epoch = 0;
  metrics_state = record {
    key_rotations_total = 0;
    channel_errors_total = 0;
    bytes_transmitted_total = 0;
  };
}

abbrev session_of : Round → Session
session_of (continues s) = s
session_of _ = session

abbrev play : Session → Session
play s = session_of (round toy_aead toy_hkdf config (7 ∷ []) (9 ∷ []) (backend_read hello) s)

abbrev once : Session
once = play session

abbrev twice : Session
twice = play once

first :
    round toy_aead toy_hkdf config (7 ∷ []) (9 ∷ []) (backend_read hello) session ≡ continues once
unfolding round finish arm frame_written write_frame data_nonce to_be_bytes write_all flush new
first = refl

second :
    round toy_aead toy_hkdf config (7 ∷ []) (9 ∷ []) (backend_read hello) once ≡ continues twice
unfolding round finish arm frame_written rotation_done write_frame data_nonce to_be_bytes write_all
    flush new do_rotate send_key_rotate rotate_key
second = refl

first_epoch : once.link.channel.epoch ≡ session.link.channel.epoch
unfolding round finish arm frame_written write_frame data_nonce to_be_bytes write_all flush new
first_epoch = refl

second_epoch : twice.link.channel.epoch ≢ once.link.channel.epoch
unfolding round finish arm frame_written rotation_done write_frame data_nonce to_be_bytes write_all
    flush new do_rotate send_key_rotate rotate_key
second_epoch h = omega (arith, h)

relayed : Relays toy_aead toy_hkdf toy_aead_laws config 2 session (4 ∷ []) 0 twice
relayed =
    Budget.Relays.turned
      (Budget.Relays.kept Budget.Relays.start (7 ∷ []) (9 ∷ []) (backend_read hello) once
        (omega arith) first first_epoch)
      (7 ∷ []) (9 ∷ []) (backend_read hello) twice (omega arith) second second_epoch

Relays-budget_example : (twice.bytes_this_epoch ≡ 0) × (0 < 4) × All (λ k. k < 4 + 2) (4 ∷ [])
Relays-budget_example =
    Relays-budget toy_aead toy_hkdf toy_aead_laws config 2 session refl (omega arith) (omega arith)
      refl relayed
