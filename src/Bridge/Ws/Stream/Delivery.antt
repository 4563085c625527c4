-- ===== src/Bridge/Ws/Stream/Delivery.antt =====
-- `WsStream` of latticeshield-bridge/src/ws.rs loses, repeats and reorders no byte.
use latticeshield.Prelude.{
  ℕ, zero, suc, ◌+◌, ◌≤◌, ◌≡◌, refl, sym, ap, ◌∙◌, min, Bool-cases, inl, inr, List, [], ◌∷◌, ◌++◌,
  append_assoc, length, take, drop, take-append-drop, ltb, leb, leb→le, arith,
}
use latticeshield.Prelude.Bytes.{Bytes}
use latticeshield.Bridge.Ws.Stream.{
  Message, binary, text, close, ping, pong, frame, Inbound, not_yet, ended, failed, message,
  WsStream, ReadPoll, pending, broken, ready, drain, buffered, poll_messages, poll_read,
}

abbrev pub payload : Message → Bytes
payload (binary bs) = bs
payload (text bs) = bs
payload close = []
payload ping = []
payload pong = []
payload frame = []

-- The bytes of the messages that will come.
abbrev pub ahead : List Inbound → Bytes
ahead [] = []
ahead (message m ∷ inbox) = payload m ++ ahead inbox
ahead (not_yet ∷ inbox) = ahead inbox
ahead (ended ∷ inbox) = ahead inbox
ahead (failed ∷ inbox) = ahead inbox

abbrev pub unread : WsStream → Bytes
unread me = drop me.read_pos me.read_buf ++ ahead me.inbox

abbrev pub bytes_of : ReadPoll → Bytes
bytes_of pending = []
bytes_of broken = []
bytes_of (ready bs) = bs

-- The bytes that reads with these capacities give, and the stream afterwards.
unfoldable pub reads : List ℕ → WsStream → Bytes × WsStream
reads [] me = ([], me)
reads (capacity ∷ capacities) me =
    let polled = poll_read capacity me in
    let rest = reads capacities polled.1 in (bytes_of polled.0 ++ rest.0, rest.1)

drop_nil : (n : ℕ) → drop {A = ℕ} n [] ≡ []
drop_nil zero = refl
drop_nil (suc n) = refl

shifted : (a b : ℕ) → suc (a + b) ≡ suc a + b
shifted a b = omega arith

drop-drop : (a b : ℕ) (xs : Bytes) → drop b (drop a xs) ≡ drop (a + b) xs
drop-drop zero b xs = ap (λ n. drop n xs) (omega arith)
drop-drop (suc a) b [] = drop_nil b ∙ sym (drop_nil (suc a + b))
drop-drop (suc a) b (x ∷ xs) = drop-drop a b xs ∙ ap (λ n. drop n (x ∷ xs)) (shifted a b)

pub drop_all : (n : ℕ) (xs : Bytes) → length xs ≤ n → drop n xs ≡ []
drop_all zero [] h = refl
drop_all zero (x ∷ xs) h = absurd (omega arith)
drop_all (suc n) [] h = refl
drop_all (suc n) (x ∷ xs) h = drop_all n xs (omega arith)

abbrev pub Keeps : WsStream → ReadPoll × WsStream → Type 0
Keeps me (polled, after) = bytes_of polled ++ unread after ≡ unread me

cut :
    (pos n : ℕ) (buf rest : Bytes)
    → take n (drop pos buf) ++ (drop (pos + n) buf ++ rest) ≡ drop pos buf ++ rest
cut pos n buf rest =
    sym (append_assoc (take n (drop pos buf)) (drop (pos + n) buf) rest)
    ∙ ap (λ l. (take n (drop pos buf) ++ l) ++ rest) (sym (drop-drop pos n buf))
    ∙ ap (λ l. l ++ rest) (take-append-drop n (drop pos buf))

drain-Keeps : (capacity : ℕ) (me : WsStream) → Keeps me (drain capacity me)
unfolding drain
drain-Keeps capacity me =
    let n : ℕ = min (length (drop me.read_pos me.read_buf)) capacity in
    let whole = cut me.read_pos n me.read_buf (ahead me.inbox) in
    elim (Bool-cases (leb (length me.read_buf) (me.read_pos + n))) [
      | inl done ↦ rw done (
          ap (λ l. take n (drop me.read_pos me.read_buf) ++ (l ++ ahead me.inbox))
            (sym (drop_all (me.read_pos + n) me.read_buf (leb→le _ _ done)))
          ∙ whole)
      | inr more ↦ rw more whole
    ]

-- The buffer is empty where the messages are polled.
abbrev Read : WsStream → Type 0
Read me = drop me.read_pos me.read_buf ≡ []

buffered_keeps :
    (capacity : ℕ) (bs : Bytes) (me : WsStream)
    → Read me
    → bytes_of (buffered capacity bs me).0 ++ unread (buffered capacity bs me).1
      ≡ bs ++ ahead me.inbox
unfolding buffered
buffered_keeps capacity [] me h = rw h refl
buffered_keeps capacity (b ∷ bs) me h =
    drain-Keeps capacity (record me { read_buf = b ∷ bs; read_pos = 0 })

messages_keep :
    (capacity : ℕ) (inbox : List Inbound) (me : WsStream)
    → Read me
    → bytes_of (poll_messages capacity inbox me).0 ++ unread (poll_messages capacity inbox me).1
      ≡ ahead inbox
unfolding poll_messages
messages_keep capacity [] me h = rw h refl
messages_keep capacity (not_yet ∷ inbox) me h = rw h refl
messages_keep capacity (ended ∷ inbox) me h = rw h refl
messages_keep capacity (failed ∷ inbox) me h = rw h refl
messages_keep capacity (message (binary bs) ∷ inbox) me h =
    buffered_keeps capacity bs (record me { inbox = inbox }) h
messages_keep capacity (message (text bs) ∷ inbox) me h =
    buffered_keeps capacity bs (record me { inbox = inbox }) h
messages_keep capacity (message close ∷ inbox) me h = rw h refl
messages_keep capacity (message ping ∷ inbox) me h = messages_keep capacity inbox me h
messages_keep capacity (message pong ∷ inbox) me h = messages_keep capacity inbox me h
messages_keep capacity (message frame ∷ inbox) me h = messages_keep capacity inbox me h

pub poll_read-Keeps : (capacity : ℕ) (me : WsStream) → Keeps me (poll_read capacity me)
unfolding poll_read
poll_read-Keeps capacity me = elim (Bool-cases (ltb me.read_pos (length me.read_buf))) [
  | inl left ↦ rw left (drain-Keeps capacity me)
  | inr spent ↦
      let empty = drop_all me.read_pos me.read_buf (ground arith) in
      rw spent
        (messages_keep capacity me.inbox me empty ∙ ap (λ l. l ++ ahead me.inbox) (sym empty))
]

-- Whatever the sizes of the buffers that are read into, and whatever the WebSocket answers, the bytes that reads
-- have given, followed by those that are still to be read, are the bytes of all messages in their order: no byte is
-- lost, repeated or moved.
pub reads-unread :
    (capacities : List ℕ) (me : WsStream)
    → (reads capacities me).0 ++ unread (reads capacities me).1 ≡ unread me
unfolding reads
reads-unread [] me = refl
reads-unread (capacity ∷ capacities) me =
    let polled = poll_read capacity me in
    append_assoc (bytes_of polled.0) (reads capacities polled.1).0
      (unread (reads capacities polled.1).1)
    ∙ ap (◌++◌ (bytes_of polled.0)) (reads-unread capacities polled.1)
    ∙ poll_read-Keeps capacity me
