-- ===== src/Bridge/Ws/Stream/RoundTrip.antt =====
-- One `WsStream` of latticeshield-bridge/src/ws.rs writes, another one reads.
use latticeshield.Prelude.{
  ℕ, ◌+◌, ◌≤◌, ◌<◌, ◌≡◌, ◌≢◌, refl, sym, ap, subst, ◌∙◌, min, Bool-cases, inl, inr, List, [], ◌∷◌,
  ◌++◌, append_assoc, append-nil, length, length-append, length-take, length-drop, drop, All, ltb,
  leb, arith,
}
use latticeshield.Prelude.Bytes.{Bytes}
use latticeshield.Bridge.Ws.Stream.{
  Message, binary, Inbound, message, WsStream, new, ReadPoll, drain, buffered, poll_messages,
  poll_read, poll_write, SinkPoll, not_ready, ready_fails, send_fails, sends, hand_over, poll_flush,
}
use latticeshield.Bridge.Ws.Stream.Delivery.{
  payload, ahead, unread, bytes_of, reads, reads-unread, poll_read-Keeps, drop_all,
}

pub data Write : Type 0 where
  writes : Bytes → Write
  flushes : SinkPoll → Write

abbrev pub written : List Write → Bytes
written [] = []
written (writes bs ∷ ops) = bs ++ written ops
written (flushes sink ∷ ops) = written ops

-- The WebSocket takes every message that it was ready for.
abbrev pub Sends : List Write → Type 0
Sends [] = Unit {0}
Sends (writes bs ∷ ops) = Sends ops
Sends (flushes sink ∷ ops) = (sink ≢ send_fails) × Sends ops

unfoldable pub run : List Write → WsStream → WsStream
run [] me = me
run (writes bs ∷ ops) me = run ops (poll_write bs me).1
run (flushes sink ∷ ops) me = run ops (poll_flush sink me)

abbrev Solid : Message → Type 0
Solid m = (b : ℕ) × (bs : Bytes) × (m ≡ binary (b ∷ bs))

-- What the peer receives.
abbrev pub arriving : List Message → List Inbound
arriving [] = []
arriving (m ∷ ms) = message m ∷ arriving ms

ahead-append :
    (ms : List Message) (m : Message)
    → ahead (arriving (ms ++ (m ∷ []))) ≡ ahead (arriving ms) ++ payload m
ahead-append [] m = append-nil (payload m)
ahead-append (n ∷ ms) m =
    ap (◌++◌ (payload n)) (ahead-append ms m)
    ∙ sym (append_assoc (payload n) (ahead (arriving ms)) (payload m))

Solid-append :
    (ms : List Message) (m : Message) → All Solid ms → Solid m → All Solid (ms ++ (m ∷ []))
Solid-append [] m a s = (s, tt)
Solid-append (n ∷ ms) m a s = (a.0, Solid-append ms m a.1 s)

-- The bytes handed over and those still buffered.
abbrev Owed : WsStream → Bytes
Owed me = ahead (arriving me.outbox) ++ me.write_buf

hand_over_owes :
    (sink : SinkPoll) (buf : Bytes) (me : WsStream)
    → me.write_buf ≡ buf
    → sink ≢ send_fails
    → Owed (hand_over sink buf me) ≡ Owed me
unfolding hand_over
hand_over_owes sink [] me h good = refl
hand_over_owes not_ready (b ∷ bs) me h good = refl
hand_over_owes ready_fails (b ∷ bs) me h good = refl
hand_over_owes send_fails (b ∷ bs) me h good = absurd (good refl)
hand_over_owes sends (b ∷ bs) me h good =
    append-nil (ahead (arriving (me.outbox ++ (binary (b ∷ bs) ∷ []))))
    ∙ ahead-append me.outbox (binary (b ∷ bs))
    ∙ ap (◌++◌ (ahead (arriving me.outbox))) (sym h)

hand_over-Solid :
    (sink : SinkPoll) (buf : Bytes) (me : WsStream)
    → All Solid me.outbox
    → All Solid (hand_over sink buf me).outbox
unfolding hand_over
hand_over-Solid sink [] me s = s
hand_over-Solid not_ready (b ∷ bs) me s = s
hand_over-Solid ready_fails (b ∷ bs) me s = s
hand_over-Solid send_fails (b ∷ bs) me s = s
hand_over-Solid sends (b ∷ bs) me s = Solid-append me.outbox (binary (b ∷ bs)) s (b, bs, refl)

run_owes :
    (ops : List Write) (me : WsStream) → Sends ops → Owed (run ops me) ≡ Owed me ++ written ops
unfolding run poll_write poll_flush
run_owes [] me good = sym (append-nil (Owed me))
run_owes (writes bs ∷ ops) me good =
    run_owes ops (record me { write_buf = me.write_buf ++ bs }) good
    ∙ ap (λ l. l ++ written ops) (sym (append_assoc (ahead (arriving me.outbox)) me.write_buf bs))
    ∙ append_assoc (Owed me) bs (written ops)
run_owes (flushes sink ∷ ops) me good =
    run_owes ops (hand_over sink me.write_buf me) good.1
    ∙ ap (λ l. l ++ written ops) (hand_over_owes sink me.write_buf me refl good.0)

run-Solid : (ops : List Write) (me : WsStream) → All Solid me.outbox → All Solid (run ops me).outbox
unfolding run poll_write poll_flush
run-Solid [] me s = s
run-Solid (writes bs ∷ ops) me s = run-Solid ops (record me { write_buf = me.write_buf ++ bs }) s
run-Solid (flushes sink ∷ ops) me s =
    run-Solid ops (hand_over sink me.write_buf me) (hand_over-Solid sink me.write_buf me s)

-- A reader whose messages to come are solid.
abbrev Fed : WsStream → Type 0
Fed me = (ms : List Message) × (me.inbox ≡ arriving ms) × All Solid ms

drain_progress :
    (capacity : ℕ) (me : WsStream)
    → 1 ≤ capacity
    → me.read_pos < length me.read_buf
    → (1 ≤ length (bytes_of (drain capacity me).0)) × ((drain capacity me).1.inbox ≡ me.inbox)
unfolding drain
drain_progress capacity me one left =
    let remaining = drop me.read_pos me.read_buf in
    let n : ℕ = min (length remaining) capacity in
    (
      omega (arith, length-take n remaining, length-drop me.read_pos me.read_buf),
      elim (Bool-cases (leb (length me.read_buf) (me.read_pos + n))) [
        | inl e ↦ rw e refl
        | inr e ↦ rw e refl
      ],
    )

-- A read of a stream that has bytes left gives at least one.
abbrev Progress : WsStream → ReadPoll × WsStream → Type 0
Progress me (polled, after) = Fed after × (1 ≤ length (bytes_of polled))

poll_messages-Progress :
    (capacity : ℕ) (ms : List Message) (me : WsStream)
    → 1 ≤ capacity
    → All Solid ms
    → ahead (arriving ms) ≢ []
    → Progress me (poll_messages capacity (arriving ms) me)
unfolding poll_messages buffered
poll_messages-Progress capacity [] me one s more = absurd (more refl)
poll_messages-Progress capacity (m ∷ ms) me one ((b, bs, e), s) more =
    let (some_bytes, same) =
      drain_progress capacity (record me { inbox = arriving ms; read_buf = b ∷ bs; read_pos = 0 })
        one (omega arith) in
    rw e ((ms, same, s), some_bytes)

poll_read-Progress :
    (capacity : ℕ) (me : WsStream)
    → 1 ≤ capacity
    → Fed me
    → unread me ≢ []
    → Progress me (poll_read capacity me)
unfolding poll_read
poll_read-Progress capacity me one (ms, e, s) more =
    elim (Bool-cases (ltb me.read_pos (length me.read_buf))) [
      | inl left ↦
          let (some_bytes, same) = drain_progress capacity me one (ground arith) in
          rw left ((ms, same ∙ e, s), some_bytes)
      | inr spent ↦
          let empty = drop_all me.read_pos me.read_buf (ground arith) in
          rw spent (
            subst (λ i. Progress me (poll_messages capacity i me)) (sym e)
              (poll_messages-Progress capacity ms me one s
                (λ z. more (ap (λ l. l ++ ahead me.inbox) empty ∙ ap ahead e ∙ z))))
    ]

right_nil : (xs ys : Bytes) → xs ++ ys ≡ [] → ys ≡ []
right_nil [] ys h = h
right_nil (x ∷ xs) ys h = cc

no_bytes : (xs : Bytes) → length xs ≤ 0 → xs ≡ []
no_bytes [] h = refl
no_bytes (x ∷ xs) h = absurd (omega arith)

abbrev Positive : List ℕ → Type 0
Positive = All λ n. 1 ≤ n

read_up :
    (capacities : List ℕ) (me : WsStream)
    → Positive capacities
    → Fed me
    → length (unread me) ≤ length capacities
    → unread (reads capacities me).1 ≡ []
unfolding reads
read_up [] me positive fed short = no_bytes (unread me) short
read_up (capacity ∷ capacities) me positive fed short =
    go (unread me) refl (λ after f l. read_up capacities after positive.1 f l)
  where
    go :
        (left : Bytes)
        → unread me ≡ left
        → ((after : WsStream)
            → Fed after
            → length (unread after) ≤ length capacities
            → unread (reads capacities after).1 ≡ [])
        → unread (reads capacities (poll_read capacity me).1).1 ≡ []
    go [] e ih = right_nil _ _ (reads-unread (capacity ∷ capacities) me ∙ e)
    go (b ∷ bs) e ih =
        let (fed', some_bytes) = poll_read-Progress capacity me positive.0 fed (λ z. cc) in
        ih (poll_read capacity me).1 fed' (
          omega (
            arith,
            some_bytes,
            ap length (poll_read-Keeps capacity me),
            length-append (bytes_of (poll_read capacity me).0) (unread (poll_read capacity me).1),
          ))

-- One end writes and flushes, its WebSocket never fails after it was ready, and at the end nothing is buffered. The other end gets
-- the messages and reads into buffers of at least a byte, at least as many as there are bytes. Then the bytes read are
-- exactly the bytes written, in order.
pub reads-run :
    (ops : List Write) (capacities : List ℕ)
    → Sends ops
    → (run ops (new [])).write_buf ≡ []
    → Positive capacities
    → length (written ops) ≤ length capacities
    → (reads capacities (new (arriving (run ops (new [])).outbox))).0 ≡ written ops
unfolding new
reads-run ops capacities good flushed positive enough =
    let writer = run ops (new []) in
    let reader = new (arriving writer.outbox) in
    let owed : ahead (arriving writer.outbox) ≡ written ops =
      sym (append-nil (ahead (arriving writer.outbox)))
      ∙ ap (◌++◌ (ahead (arriving writer.outbox))) (sym flushed)
      ∙ run_owes ops (new []) good in
    let nothing =
      read_up capacities reader positive (writer.outbox, refl, run-Solid ops (new []) tt)
        (omega (arith, ap length owed)) in
    sym (append-nil (reads capacities reader).0)
    ∙ ap (◌++◌ (reads capacities reader).0) (sym nothing)
    ∙ reads-unread capacities reader
    ∙ owed
