-- ===== src/Bridge/Relay/Streams.antt =====
-- The relay of a QUIC stream (latticeshield-bridge/src/quic.rs) delivers both directions to their ends.
use latticeshield.Prelude.{
  ◌≡◌, ◌≢◌, refl, sym, ◌∙◌, ap, Bool, true, false, ◌&&◌, ◌||◌, List, [], ◌∷◌, ◌++◌, All, append-nil,
  append_assoc, if◌then◌else◌,
}
use latticeshield.Prelude.Bytes.{Bytes}
use latticeshield.Bridge.Relay.{
  Direction, client_to_backend, backend_to_client, CopyEvent, moved, ended, broke, Sent, Ended,
  returns, waits, carry, Progress, copy_join, finish, relay_stream,
}

abbrev pub same : Direction → Direction → Bool
same client_to_backend client_to_backend = true
same backend_to_client backend_to_client = true
same _ _ = false

-- The bytes that a direction carries until its source ends.
abbrev pub stream_of : Direction → List (Direction × CopyEvent) → Bytes
stream_of d [] = []
stream_of d ((e, moved bytes) ∷ events) =
    let rest = stream_of d events in if same d e then bytes ++ rest else rest
stream_of d ((e, ended) ∷ events) = let rest = stream_of d events in if same d e then [] else rest
stream_of d ((e, broke) ∷ events) = stream_of d events

-- Whether the source of a direction ends.
abbrev pub ends : Direction → List (Direction × CopyEvent) → Bool
ends d [] = false
ends d ((e, ended) ∷ events) = let rest = ends d events in if same d e then true else rest
ends d ((e, moved bytes) ∷ events) = ends d events
ends d ((e, broke) ∷ events) = ends d events

abbrev pub Unbroken : List (Direction × CopyEvent) → Type 0
Unbroken events = All (λ e. e.1 ≢ broke) events

abbrev joined : Bool → Bool → Progress
joined b c = record { backend_done = b; client_done = c }

abbrev Delivers : Bool → Bool → List (Direction × CopyEvent) → Sent → Ended × Sent → Type 0
Delivers b c events s (r, t) =
    (t.to_backend ≡ s.to_backend ++ (if b then [] else stream_of client_to_backend events))
    × (t.to_client ≡ s.to_client ++ (if c then [] else stream_of backend_to_client events))
    × (r ≡ (
        if (b || ends client_to_backend events) && (c || ends backend_to_client events)
        then returns
        else waits))

copy_join-Delivers :
    (b c : Bool) (events : List (Direction × CopyEvent)) (s : Sent)
    → b && c ≡ false
    → Unbroken events
    → Delivers b c events s (copy_join (joined b c) events s)
unfolding copy_join
copy_join-Delivers true true [] s h u = absurd cc
copy_join-Delivers true false [] s h u = (sym (append-nil _), sym (append-nil _), refl)
copy_join-Delivers false true [] s h u = (sym (append-nil _), sym (append-nil _), refl)
copy_join-Delivers false false [] s h u = (sym (append-nil _), sym (append-nil _), refl)
copy_join-Delivers true c ((client_to_backend, moved bytes) ∷ events) s h u =
    copy_join-Delivers true c events s h u.1
copy_join-Delivers false c ((client_to_backend, moved bytes) ∷ events) s h u =
    let r = copy_join-Delivers false c events (carry client_to_backend bytes s) h u.1 in
    (r.0 ∙ append_assoc s.to_backend bytes (stream_of client_to_backend events), r.1, r.2)
copy_join-Delivers b true ((backend_to_client, moved bytes) ∷ events) s h u =
    copy_join-Delivers b true events s h u.1
copy_join-Delivers b false ((backend_to_client, moved bytes) ∷ events) s h u =
    let r = copy_join-Delivers b false events (carry backend_to_client bytes s) h u.1 in
    (r.0, r.1 ∙ append_assoc s.to_client bytes (stream_of backend_to_client events), r.2)
copy_join-Delivers true true ((client_to_backend, ended) ∷ events) s h u = absurd cc
copy_join-Delivers true false ((client_to_backend, ended) ∷ events) s h u =
    copy_join-Delivers true false events s h u.1
copy_join-Delivers false true ((client_to_backend, ended) ∷ events) s h u =
    (sym (append-nil _), sym (append-nil _), refl)
copy_join-Delivers false false ((client_to_backend, ended) ∷ events) s h u =
    copy_join-Delivers true false events s refl u.1
copy_join-Delivers true true ((backend_to_client, ended) ∷ events) s h u = absurd cc
copy_join-Delivers false true ((backend_to_client, ended) ∷ events) s h u =
    copy_join-Delivers false true events s h u.1
copy_join-Delivers true false ((backend_to_client, ended) ∷ events) s h u =
    (sym (append-nil _), sym (append-nil _), refl)
copy_join-Delivers false false ((backend_to_client, ended) ∷ events) s h u =
    copy_join-Delivers false true events s refl u.1
copy_join-Delivers b c ((d, broke) ∷ events) s h u = absurd (u.0 refl)

finish_lem :
    (t : Bool) (r : Ended) (s : Sent)
    → r ≡ (if t then returns else waits)
    → finish (r, s) ≡ record { result = if t then returns else waits; sent = s; finished = t }
unfolding finish
finish_lem true r s h = ap (λ x. finish (x, s)) h
finish_lem false r s h = ap (λ x. finish (x, s)) h

-- While no copy of a stream breaks, the backend gets exactly what the client sends until it ends its side, and the client
-- exactly what the backend sends until it ends, in whatever order the two sides go and end, and the peer is told that it has
-- everything, and the relay returns, exactly when both sides have ended.
pub relay_stream-stream_of :
    (events : List (Direction × CopyEvent))
    → Unbroken events
    → let out = relay_stream true events in
      (out.sent.to_backend ≡ stream_of client_to_backend events)
      × (out.sent.to_client ≡ stream_of backend_to_client events)
      × (out.finished ≡ ends client_to_backend events && ends backend_to_client events)
      × (out.result ≡ (if out.finished then returns else waits))
unfolding relay_stream finish
relay_stream-stream_of events u =
    let nothing : Sent = record { to_backend = []; to_client = [] } in
    let out = copy_join (joined false false) events nothing in
    let d = copy_join-Delivers false false events nothing refl u in
    let e =
      finish_lem (ends client_to_backend events && ends backend_to_client events) out.0 out.1 d.2 in
    (
      ap (λ x. x.sent.to_backend) e ∙ d.0,
      ap (λ x. x.sent.to_client) e ∙ d.1,
      ap (λ x. x.finished) e,
      ap (λ x. x.result) e ∙ sym (ap (λ t. if t then returns else waits) (ap (λ x. x.finished) e)),
    )
