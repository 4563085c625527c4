-- ===== src/Tests/Relaying.antt =====
-- A request in two reads that is relayed, and a stream of QUIC whose client ends its side first.
use latticeshield.Prelude.{
  ◌≡◌, List, [], ◌∷◌, true, ◌⊎◌, length, leb, if◌then◌else◌, Option, some, Result, ok,
}
use latticeshield.Prelude.Bytes.{Bytes}
use latticeshield.Prelude.Text.{codes}
use latticeshield.Bridge.Relay.{
  Direction, client_to_backend, backend_to_client, CopyEvent, moved, ended, Surroundings, Status,
  complete, partial, handle, relay_stream, returns, waits,
}
use latticeshield.Bridge.Relay.Verbatim.{Refused, RelaysHead, gathered, handle-RelaysHead}
use latticeshield.Bridge.Relay.Streams.{relay_stream-stream_of}

abbrev reads : List (Option Bytes)
reads = some (codes "GET / HT") ∷ some (codes "TP/1.1\r\n\r\nbody") ∷ []

abbrev parse : Bytes → Result (Unit {0}) Status
parse buf = if leb 18 (length buf) then ok (complete 18) else ok partial

abbrev copied : List (Direction × CopyEvent)
copied =
    (client_to_backend, moved (codes "more"))
    ∷ (backend_to_client, moved (codes "HTTP/1.1 200"))
    ∷ (client_to_backend, ended)
    ∷ (backend_to_client, moved (codes " OK"))
    ∷ (backend_to_client, ended)
    ∷ []

abbrev around : Surroundings
around = record { backend_connects = true; backend_room = 100; client_room = 100; events = copied }

handle-RelaysHead_example :
    let out = handle parse around reads [] in
    Refused out.1 ⊎ RelaysHead parse (gathered reads) around out
handle-RelaysHead_example = handle-RelaysHead parse around reads

relay_stream-stream_of_example :
    let out = relay_stream true copied in
    (out.sent.to_backend ≡ codes "more")
    × (out.sent.to_client ≡ codes "HTTP/1.1 200 OK")
    × (out.finished ≡ true)
    × (out.result ≡ (if out.finished then returns else waits))
relay_stream-stream_of_example =
    relay_stream-stream_of copied
      ((λ h. cc), ((λ h. cc), ((λ h. cc), ((λ h. cc), ((λ h. cc), tt)))))
