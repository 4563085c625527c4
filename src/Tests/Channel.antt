-- ===== src/Tests/Channel.antt =====
-- The theorems on the channel and the tunnel at concrete sessions.
use latticeshield.Tunnel.Sync.{Synced}
use latticeshield.Prelude.{
  false, true, ◌≡◌, ◌≢◌, refl, List, [], ◌∷◌, ◌++◌, take, replicate, ok, err, arith,
}
use latticeshield.Prelude.Bytes.{Bytes, to_be_bytes, from_be_bytes}
use latticeshield.Prelude.Text.{text_eq}
use latticeshield.Crypto.Channel.State.{EncryptedChannel, new, plain, replay, frame_data}
use latticeshield.Crypto.Channel.Link.{Link, fed, read_exact, write_all, flush}
use latticeshield.Crypto.Channel.Wire.{sent_one, received_one}
use latticeshield.Crypto.Channel.Ops.{
  data_nonce, write_frame, read_frame, frame_arm, read_data, read_payload, send_key_rotate,
  rotate_key,
}
use latticeshield.Crypto.Channel.Reading.{Reads, read_frame-Reads}
use latticeshield.Crypto.Channel.Replay
use latticeshield.Crypto.Channel.Replay.{Later, replayed}
use latticeshield.Crypto.Channel.Writing.{Writes, write_frame-Writes}
use latticeshield.Crypto.Channel.Nonces
use latticeshield.Crypto.Channel.Nonces.{Run, data_nonce_fresh}
use latticeshield.Crypto.Channel.Directions
use latticeshield.Crypto.Channel.Directions.{Frames, shared_nonces, reflected}
use latticeshield.Tunnel.Deliver
use latticeshield.Tunnel.Deliver.{Op, data_op, rotate_op, Fits, Sent, Delivers, Sent-Delivers}
use latticeshield.Bridge.Rotate.{do_rotate}
use latticeshield.Client.Relay.{Relay, continues, bridge_rounds}
use latticeshield.Tunnel.EndToEnd.{Sent-bridge_rounds}
use latticeshield.Tests.Cipher.{toy_aead, toy_aead_laws, toy_hkdf}

abbrev pub session_key : Bytes
session_key = replicate 32 7

abbrev pub hello : Bytes
hello = b'h' ∷ b'i' ∷ []

abbrev pub opened : EncryptedChannel
unfolding new
opened = new session_key 65536

-- A fresh endpoint with nothing to read and room to write.
abbrev pub endpoint : Link
endpoint = record {
  channel = opened;
  input = [];
  output = record { sent = []; room = 1000; flushes = true };
}

abbrev tag : Bytes
tag = take 16 session_key

-- The first frame of a session.
abbrev first_frame : Bytes
first_frame =
    1
    ∷ 0
    ∷ 0
    ∷ 0
    ∷ 18
    ∷ 0
    ∷ 0
    ∷ 0
    ∷ 0
    ∷ 0
    ∷ 0
    ∷ 0
    ∷ 0
    ∷ 0
    ∷ 0
    ∷ 0
    ∷ 0
    ∷ 0
    ∷ 0
    ∷ 0
    ∷ 0
    ∷ 0
    ∷ 0
    ∷ 0
    ∷ 0
    ∷ (hello ++ tag)

abbrev after_first : Link
after_first = record endpoint {
  channel = sent_one opened;
  output = record { sent = first_frame; room = 957; flushes = true };
}

abbrev received_first : Link
received_first = record endpoint { channel = received_one opened 0 }

first_write : write_frame toy_aead hello endpoint ≡ (ok tt, after_first)
unfolding write_frame data_nonce to_be_bytes write_all flush new
first_write = refl

first_read : read_frame toy_aead (fed first_frame endpoint) ≡ (ok (plain hello), received_first)
unfolding read_frame frame_arm read_data read_payload from_be_bytes to_be_bytes read_exact new
    text_eq
first_read = refl

read_frame-Reads_example : Reads opened (read_frame toy_aead (fed first_frame endpoint))
read_frame-Reads_example = read_frame-Reads toy_aead toy_aead_laws (fed first_frame endpoint)

write_frame-Writes_example : Writes endpoint (sent_one opened) (write_frame toy_aead hello endpoint)
write_frame-Writes_example = write_frame-Writes toy_aead hello endpoint

-- The first frame, recorded and sent again.
replayed_example :
    read_frame toy_aead
      (fed (frame_data ∷ (to_be_bytes 4 18 ++ (to_be_bytes 8 0 ++ replicate 30 0))) received_first)
    ≡ (err (replay 0 0), fed (replicate 30 0) received_first)
unfolding new
replayed_example =
    replayed toy_aead toy_aead_laws (fed first_frame endpoint) hello received_first received_first
      18 0 (replicate 30 0) first_read Replay.Later.here (omega arith) (omega arith) (omega arith)
      (omega arith) (omega arith)

-- The same endpoint where there is no room for a second frame.
abbrev full : Link
full = record after_first { output = record { sent = first_frame; room = 0; flushes = true } }

abbrev after_full : EncryptedChannel
after_full = (write_frame toy_aead hello full).1.channel

data_nonce_fresh_example : data_nonce opened ≢ data_nonce after_full
unfolding new
data_nonce_fresh_example =
    data_nonce_fresh toy_aead toy_hkdf toy_aead_laws hello endpoint after_first 1 after_full
      first_write (Nonces.Run.next Nonces.Run.here (Nonces.Uses.frame hello full)) (omega arith)
      (omega arith)

shared_nonces_example :
    (session_key ≡ session_key) × (data_nonce (sent_one opened) ≡ data_nonce (sent_one opened))
unfolding new
shared_nonces_example =
    shared_nonces toy_aead session_key 65536 65536 1 {l = endpoint} {m = after_first} {k = endpoint}
      {j = after_first} refl refl (omega arith) one_frame one_frame
  where
    one_frame : Frames toy_aead endpoint 1 after_first
    one_frame = Directions.Frames.more Directions.Frames.start hello after_first first_write

reflected_example :
    (w : Bytes) × (after_first.output.sent ≡ [] ++ w)
    × (read_frame toy_aead (fed (w ++ []) after_first) ≡ (
      ok (plain hello),
      record after_first { channel = received_one (sent_one opened) 0; input = [] },
    ))
unfolding new
reflected_example =
    reflected toy_aead toy_aead_laws hello [] endpoint after_first
      (record { newer = refl; fits = omega arith; u32 = omega arith; u64 = omega arith })
      first_write

-- A frame, a rotation and a frame under the new key.
abbrev ops : List Op
ops = data_op hello ∷ rotate_op (replicate 12 3) (replicate 32 9) ∷ data_op hello ∷ []

abbrev after_rotation : Link
after_rotation = (do_rotate toy_aead toy_hkdf (replicate 12 3) (replicate 32 9) after_first).1

abbrev after_all : Link
after_all = (write_frame toy_aead hello after_rotation).1

rotation_sent :
    do_rotate toy_aead toy_hkdf (replicate 12 3) (replicate 32 9) after_first
    ≡ (ok tt, after_rotation)
unfolding do_rotate send_key_rotate rotate_key to_be_bytes write_all flush new
rotation_sent = refl

last_write : write_frame toy_aead hello after_rotation ≡ (ok tt, after_all)
unfolding write_frame data_nonce do_rotate send_key_rotate rotate_key to_be_bytes write_all flush
    new
last_write = refl

all-Sent : Sent toy_aead toy_hkdf endpoint ops after_all
all-Sent = Deliver.Sent.data_sent hello endpoint after_first first_write (
    Deliver.Sent.rotate_sent (replicate 12 3) (replicate 32 9) after_first after_rotation
      rotation_sent
      (Deliver.Sent.data_sent hello after_rotation after_all last_write
        (Deliver.Sent.here after_all)))

in_step : Synced opened opened
unfolding new
in_step = record {
  same_key = refl;
  same_epoch = refl;
  same_rotations = refl;
  newer = refl;
  u32 = omega arith;
}

Sent-Delivers_example : Delivers toy_aead toy_hkdf toy_aead_laws ops endpoint after_all endpoint
unfolding new
Sent-Delivers_example =
    Sent-Delivers toy_aead toy_hkdf toy_aead_laws ops endpoint all-Sent in_step
      (omega arith, (refl, refl, (omega arith, tt))) (omega arith)

abbrev client : Relay
client = record {
  link = endpoint;
  user_w = record { sent = []; room = 10; flushes = true };
  at_user_eof = false;
  bridge_closed = false;
}

Sent-bridge_rounds_example :
    (w : Bytes) × (after_all.output.sent ≡ [] ++ w)
    × (c : EncryptedChannel) × Synced after_all.channel c
    × (bridge_rounds toy_aead toy_hkdf 3 (record client { link = fed (w ++ []) endpoint })
        ≡ continues (record client {
          link = record endpoint { channel = c; input = [] };
          user_w = record { sent = hello ++ hello; room = 6; flushes = true };
        }))
unfolding new
Sent-bridge_rounds_example =
    Sent-bridge_rounds toy_aead toy_hkdf toy_aead_laws ops client [] all-Sent in_step
      (omega arith, (refl, refl, (omega arith, tt))) (omega arith) (omega arith)
