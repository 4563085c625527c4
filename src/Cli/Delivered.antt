-- ===== src/Cli/Delivered.antt =====
-- One DATA frame from a fresh channel to another with its key (latticeshield-crypto/src/channel.rs), for the two ends of
-- the admin channel.
use latticeshield.Prelude.{◌≡◌, ap, ◌++◌, length, ok}
use latticeshield.Prelude.Bytes.{Bytes}
use latticeshield.Crypto.Primitives.{Aead, AeadLaws}
use latticeshield.Crypto.Channel.State.{plain}
use latticeshield.Crypto.Channel.Link.{Link, fed, joined-append}
use latticeshield.Crypto.Channel.Wire.{
  data_pieces, data_frame, sent_one, Acceptable, received_one, read_frame_wire,
}
use latticeshield.Crypto.Channel.Writing.{write_frame_sent}
use latticeshield.Crypto.Channel.Ops.{read_frame, write_frame}

module _ (aead : Aead) (laws : AeadLaws aead) where
  -- The frame's bytes, and what a reader with the writer's key makes of them.
  pub read_frame-write_frame :
      (text : Bytes) (s s' : Link)
      → write_frame aead text s ≡ (ok tt, s')
      → (frame : Bytes) × (s'.output.sent ≡ s.output.sent ++ frame)
        × (s'.input ≡ s.input)
        × (s'.channel ≡ sent_one s.channel)
        × ((r : Link) (rest : Bytes)
            → r.channel.key_bytes ≡ s.channel.key_bytes
            → Acceptable r.channel s.channel.send_seq (length text)
            → read_frame aead (fed (frame ++ rest) r) ≡ (
              ok (plain text),
              record r { channel = received_one r.channel s.channel.send_seq; input = rest },
            ))
  read_frame-write_frame text s s' h =
      let (ct, tag, e, moved) = write_frame_sent aead text s s' h in
      (
        data_frame s.channel ct tag,
        ap (λ l. l.output.sent) moved,
        ap (λ l. l.input) moved,
        ap (λ l. l.channel) moved,
        λ r rest key a.
            rw (joined-append (data_pieces s.channel ct tag) rest)
              (read_frame_wire aead laws s.channel r text ct tag rest e key a),
      )
