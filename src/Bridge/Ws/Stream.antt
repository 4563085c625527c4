-- ===== src/Bridge/Ws/Stream.antt =====
-- `WsStream` of latticeshield-bridge/src/ws.rs: a stream of bytes over the messages of a WebSocket. What the
-- WebSocket of the crate tokio-tungstenite gives at each poll is an argument.
pub mod Delivery
pub mod RoundTrip
use latticeshield.Prelude.{
  ℕ, ◌+◌, min, Bool, true, false, List, [], ◌∷◌, ◌++◌, length, take, drop, ltb, leb, if◌then◌else◌,
}
use latticeshield.Prelude.Bytes.{Bytes}

pub data Message : Type 0 where
  binary text : Bytes → Message
  close ping pong frame : Message

-- One answer of `poll_next`.
pub data Inbound : Type 0 where
  not_yet ended failed : Inbound
  message : Message → Inbound

-- The answers still to come and the messages handed to the WebSocket stand for `inner`.
pub record WsStream : Type 0 where
  pub inbox : List Inbound
  pub read_buf : Bytes
  pub read_pos : ℕ
  pub write_buf : Bytes
  pub outbox : List Message

unfoldable pub new : List Inbound → WsStream
new inbox = record { inbox = inbox; read_buf = []; read_pos = 0; write_buf = []; outbox = [] }

-- What a read gives: an empty `ready` is the end of the stream.
pub data ReadPoll : Type 0 where
  pending broken : ReadPoll
  ready : Bytes → ReadPoll

unfoldable pub drain : (capacity : ℕ) → WsStream → ReadPoll × WsStream
drain capacity me =
    let remaining = drop me.read_pos me.read_buf in
    let to_copy : ℕ = min (length remaining) capacity in
    (
      ready (take to_copy remaining),
      if leb (length me.read_buf) (me.read_pos + to_copy)
          then record me { read_buf = []; read_pos = 0 }
          else record me { read_pos = me.read_pos + to_copy },
    )

-- A payload is buffered and drained; an empty one ends the read.
unfoldable pub buffered : (capacity : ℕ) → Bytes → WsStream → ReadPoll × WsStream
buffered capacity [] me = (ready [], me)
buffered capacity (b ∷ bs) me = drain capacity (record me { read_buf = b ∷ bs; read_pos = 0 })

-- The loop from the poll of the WebSocket on.
unfoldable pub poll_messages : (capacity : ℕ) → List Inbound → WsStream → ReadPoll × WsStream
poll_messages capacity [] me = (pending, record me { inbox = [] })
poll_messages capacity (not_yet ∷ inbox) me = (pending, record me { inbox = inbox })
poll_messages capacity (ended ∷ inbox) me = (ready [], record me { inbox = inbox })
poll_messages capacity (failed ∷ inbox) me = (broken, record me { inbox = inbox })
poll_messages capacity (message (binary bs) ∷ inbox) me =
    buffered capacity bs (record me { inbox = inbox })
poll_messages capacity (message (text bs) ∷ inbox) me =
    buffered capacity bs (record me { inbox = inbox })
poll_messages capacity (message close ∷ inbox) me = (ready [], record me { inbox = inbox })
poll_messages capacity (message ping ∷ inbox) me = poll_messages capacity inbox me
poll_messages capacity (message pong ∷ inbox) me = poll_messages capacity inbox me
poll_messages capacity (message frame ∷ inbox) me = poll_messages capacity inbox me

unfoldable pub poll_read : (capacity : ℕ) → WsStream → ReadPoll × WsStream
poll_read capacity me =
    let polled = poll_messages capacity me.inbox me in
    if ltb me.read_pos (length me.read_buf) then drain capacity me else polled

unfoldable pub poll_write : Bytes → WsStream → ℕ × WsStream
poll_write buf me = (length buf, record me { write_buf = me.write_buf ++ buf })

-- What `poll_ready` and `start_send` of the WebSocket give.
pub data SinkPoll : Type 0 where
  not_ready ready_fails send_fails sends : SinkPoll

-- An empty buffer is not sent.
unfoldable pub hand_over : SinkPoll → Bytes → WsStream → WsStream
hand_over sink [] me = me
hand_over not_ready (b ∷ bs) me = me
hand_over ready_fails (b ∷ bs) me = me
hand_over send_fails (b ∷ bs) me = record me { write_buf = [] }
hand_over sends (b ∷ bs) me = record me {
  write_buf = [];
  outbox = me.outbox ++ (binary (b ∷ bs) ∷ []);
}

unfoldable pub poll_flush : SinkPoll → WsStream → WsStream
poll_flush sink me = hand_over sink me.write_buf me
