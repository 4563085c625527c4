-- ===== src/Tests/Messages.antt =====
-- A WebSocket end that writes in two messages, and one that reads byte by byte.
use latticeshield.Prelude.{◌≡◌, refl, [], ◌∷◌, ◌++◌, arith}
use latticeshield.Bridge.Ws.Stream.{
  binary, ping, not_yet, message, WsStream, new, sends, not_ready, poll_write, poll_flush,
  hand_over,
}
use latticeshield.Bridge.Ws.Stream.Delivery.{reads, unread, reads-unread}
use latticeshield.Bridge.Ws.Stream.RoundTrip.{writes, flushes, arriving, run, reads-run}

abbrev me : WsStream
me = record {
  inbox =
      message (binary (1 ∷ 2 ∷ 3 ∷ [])) ∷ not_yet ∷ message ping ∷ message (binary (4 ∷ [])) ∷ [];
  read_buf = [];
  read_pos = 0;
  write_buf = [];
  outbox = [];
}

reads-unread_example :
    (reads (2 ∷ 2 ∷ 2 ∷ []) me).0 ++ unread (reads (2 ∷ 2 ∷ 2 ∷ []) me).1 ≡ 1 ∷ 2 ∷ 3 ∷ 4 ∷ []
unfolding new
reads-unread_example = reads-unread (2 ∷ 2 ∷ 2 ∷ []) me

reads-run_example :
    (reads (1 ∷ 1 ∷ 1 ∷ 1 ∷ []) (
      new (
        arriving
          (run
            (writes (1 ∷ 2 ∷ []) ∷ flushes not_ready ∷ writes (3 ∷ []) ∷ flushes sends ∷ [])
            (new [])).outbox))).0
    ≡ 1 ∷ 2 ∷ 3 ∷ []
unfolding new run poll_write poll_flush hand_over
reads-run_example =
    reads-run (writes (1 ∷ 2 ∷ []) ∷ flushes not_ready ∷ writes (3 ∷ []) ∷ flushes sends ∷ [])
      (1 ∷ 1 ∷ 1 ∷ 1 ∷ []) ((λ e. cc), ((λ e. cc), tt)) refl
      (omega arith, (omega arith, (omega arith, (omega arith, tt)))) (omega arith)
