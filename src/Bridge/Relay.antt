-- ===== src/Bridge/Relay.antt =====
-- The copying of two connections into each other: latticeshield-bridge/src/http_relay.rs and `QuicRelay` of
-- latticeshield-bridge/src/quic.rs. What the two calls of `tokio::io::copy` do, in the order in which it happens, is a list
-- of events. The crate httparse and the connections are arguments.
pub mod Verbatim
pub mod Streams
use latticeshield.Prelude.{
  ℕ, ◌+◌, ◌*◌, Bool, true, false, ◌&&◌, List, [], ◌∷◌, ◌++◌, length, take, leb, if◌then◌else◌,
  Option, none, some, Result, ok, err, ◌>>=?◌,
}
use latticeshield.Prelude.Bytes.{Bytes}
use latticeshield.Prelude.Text.{Text, codes}

pub data Direction : Type 0 where
  client_to_backend backend_to_client : Direction

-- A copy has read bytes from its source and written them; or its source has ended and it returns `Ok`; or it returns `Err`.
pub data CopyEvent : Type 0 where
  moved : Bytes → CopyEvent
  ended broke : CopyEvent

-- What has been written to the two ends.
pub record Sent : Type 0 where
  pub to_backend : Bytes
  pub to_client : Bytes

-- How a relay ends: with `Ok`, with `Err`, or not yet.
pub data Ended : Type 0 where
  returns errors waits : Ended

abbrev pub carry : Direction → Bytes → Sent → Sent
carry client_to_backend bytes s = record s { to_backend = s.to_backend ++ bytes }
carry backend_to_client bytes s = record s { to_client = s.to_client ++ bytes }

-- `select!` over the two copies: the first that returns ends the relay, and the other is dropped.
unfoldable pub copy_select : List (Direction × CopyEvent) → Sent → Ended × Sent
copy_select [] s = (waits, s)
copy_select ((d, moved bytes) ∷ events) s = copy_select events (carry d bytes s)
copy_select ((d, ended) ∷ events) s = (returns, s)
copy_select ((d, broke) ∷ events) s = (errors, s)

abbrev pub crlf : Text
crlf = 13 ∷ 10 ∷ []

abbrev empty_response : (status : Text) → Bytes
empty_response status =
    codes "HTTP/1.1 "
    ++ (status
        ++ (crlf
            ++ (codes "Content-Length: 0"
                ++ (crlf ++ (codes "Connection: close" ++ (crlf ++ crlf))))))

abbrev pub bad_request : Bytes
bad_request = empty_response (codes "400 Bad Request")

abbrev pub bad_gateway : Bytes
bad_gateway = empty_response (codes "502 Bad Gateway")

abbrev pub head_buf_max : ℕ
head_buf_max = 8 * 1024

-- What a connection meets: whether the backend accepts, how many bytes of the head it takes, how many bytes of a
-- response of the bridge the client takes, and the events of the copying.
pub record Surroundings : Type 0 where
  pub backend_connects : Bool
  pub backend_room : ℕ
  pub client_room : ℕ
  pub events : List (Direction × CopyEvent)

-- A failure to write the bridge's own response is not looked at.
abbrev pub answer : Surroundings → Bytes → Ended × Sent
answer around response =
    (returns, record { to_backend = []; to_client = take around.client_room response })

unfoldable pub handle_with_preread : Surroundings → (preread : Bytes) → Ended × Sent
handle_with_preread around preread =
    if around.backend_connects
    then if leb (length preread) around.backend_room
      then copy_select around.events (record { to_backend = preread; to_client = [] })
      else (errors, record { to_backend = take around.backend_room preread; to_client = [] })
    else answer around bad_gateway

-- What httparse says of the bytes of a head.
pub data Status : Type 0 where
  complete : ℕ → Status
  partial : Status

module _ (parse : Bytes → Result (Unit {0}) Status) where
  unfoldable pub parse_head : Bytes → Result (Unit {0}) (Option ℕ)
  parse_head buf = parse buf >>=? consumed_of
    where
      consumed_of : Status → Result (Unit {0}) (Option ℕ)
      consumed_of (complete consumed) = ok (some consumed)
      consumed_of partial = ok none

  -- What `handle` does once `parse_head` has looked at the bytes so far, where `later` is the rest of the loop.
  unfoldable pub after_parse :
      Surroundings
      → Result (Unit {0}) (Option ℕ)
      → (buf : Bytes) (later : Ended × Sent) → Ended × Sent
  after_parse around (ok (some consumed)) buf later = handle_with_preread around buf
  after_parse around (ok none) buf later =
      if leb head_buf_max (length buf) then answer around bad_request else later
  after_parse around (err e) buf later = answer around bad_request

  -- The loop over what the reads from the client give: an error, or a chunk, which is empty at the end of the stream.
  unfoldable pub handle : Surroundings → List (Option Bytes) → (buf : Bytes) → Ended × Sent
  handle around [] buf = (waits, record { to_backend = []; to_client = [] })
  handle around (none ∷ reads) buf = (errors, record { to_backend = []; to_client = [] })
  handle around (some [] ∷ reads) buf = (returns, record { to_backend = []; to_client = [] })
  handle around (some (b ∷ bs) ∷ reads) buf =
      let later = handle around reads (buf ++ (b ∷ bs)) in
      after_parse around (parse_head (buf ++ (b ∷ bs))) (buf ++ (b ∷ bs)) later

-- Which copies have returned.
pub record Progress : Type 0 where
  pub backend_done : Bool
  pub client_done : Bool

abbrev pub is_done : Direction → Progress → Bool
is_done client_to_backend j = j.backend_done
is_done backend_to_client j = j.client_done

abbrev pub mark : Direction → Progress → Progress
mark client_to_backend j = record j { backend_done = true }
mark backend_to_client j = record j { client_done = true }

-- `try_join!` over the two copies: it returns when both have, or at the first error. A copy that has returned does nothing more.
unfoldable pub copy_join : Progress → List (Direction × CopyEvent) → Sent → Ended × Sent
copy_join j [] s = (waits, s)
copy_join j ((d, moved bytes) ∷ events) s =
    copy_join j events (if is_done d j then s else carry d bytes s)
copy_join j ((d, ended) ∷ events) s =
    let later = copy_join (mark d j) events s in
    if (mark d j).backend_done && (mark d j).client_done then (returns, s) else later
copy_join j ((d, broke) ∷ events) s =
    let later = copy_join j events s in if is_done d j then later else (errors, s)

-- A stream of QUIC after its relay: the result, what was sent, and whether `finish` has told the peer that it has everything.
pub record StreamEnd : Type 0 where
  pub result : Ended
  pub sent : Sent
  pub finished : Bool

unfoldable pub finish : Ended × Sent → StreamEnd
finish (waits, s) = record { result = waits; sent = s; finished = false }
finish (returns, s) = record { result = returns; sent = s; finished = true }
finish (errors, s) = record { result = returns; sent = s; finished = true }

unfoldable pub relay_stream : (backend_connects : Bool) → List (Direction × CopyEvent) → StreamEnd
relay_stream backend_connects events =
    if backend_connects
    then finish (
        copy_join (record { backend_done = false; client_done = false }) events
          (record { to_backend = []; to_client = [] }))
    else record {
      result = errors;
      sent = record { to_backend = []; to_client = [] };
      finished = false;
    }

-- What `accept_bi` gives.
pub data Accepted : Type 0 where
  stream application_closed locally_closed lost : Accepted

-- The number of streams that are relayed, each in a task of its own.
unfoldable pub relay_connection : List Accepted → Ended × ℕ
relay_connection [] = (waits, 0)
relay_connection (stream ∷ rest) = let r = relay_connection rest in (r.0, r.1 + 1)
relay_connection (application_closed ∷ rest) = (returns, 0)
relay_connection (locally_closed ∷ rest) = (returns, 0)
relay_connection (lost ∷ rest) = (errors, 0)
