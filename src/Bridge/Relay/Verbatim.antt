-- ===== src/Bridge/Relay/Verbatim.antt =====
-- What the relay of http_relay.rs sends to either side, of all that it reads.
use latticeshield.Prelude.{
  ℕ, ◌≡◌, ◌⊎◌, inl, inr, refl, sym, ◌∙◌, subst, List, Bool-cases, [], ◌∷◌, ◌++◌, append-nil,
  append_assoc, length, take, drop, leb, take-append-drop, Option, none, some, Result, ok, err,
}
use latticeshield.Prelude.Bytes.{Bytes}
use latticeshield.Bridge.Relay.{
  Direction, client_to_backend, backend_to_client, CopyEvent, moved, ended, broke, Sent, Ended,
  errors, carry, copy_select, bad_request, bad_gateway, head_buf_max, Surroundings,
  handle_with_preread, Status, parse_head, after_parse, handle,
}

-- The chunks that are read before the end of the stream or an error.
abbrev pub gathered : List (Option Bytes) → Bytes
gathered [] = []
gathered (none ∷ reads) = []
gathered (some [] ∷ reads) = []
gathered (some (b ∷ bs) ∷ reads) = (b ∷ bs) ++ gathered reads

-- What a direction has moved when the first of the two copies returns.
abbrev pub moved_before : Direction → List (Direction × CopyEvent) → Bytes
moved_before d [] = []
moved_before client_to_backend ((client_to_backend, moved bytes) ∷ events) =
    bytes ++ moved_before client_to_backend events
moved_before client_to_backend ((backend_to_client, moved bytes) ∷ events) =
    moved_before client_to_backend events
moved_before backend_to_client ((client_to_backend, moved bytes) ∷ events) =
    moved_before backend_to_client events
moved_before backend_to_client ((backend_to_client, moved bytes) ∷ events) =
    bytes ++ moved_before backend_to_client events
moved_before d ((e, ended) ∷ events) = []
moved_before d ((e, broke) ∷ events) = []

abbrev pub IsPrefix : Bytes → Bytes → Type 0
IsPrefix p xs = (rest : Bytes) × p ++ rest ≡ xs

-- The backend has got nothing, and the client nothing but a response of the bridge.
abbrev pub Refused : Sent → Type 0
Refused s =
    (s.to_backend ≡ []) × (IsPrefix s.to_client bad_request ⊎ IsPrefix s.to_client bad_gateway)

-- The backend has got the head, then what was moved, and the client what was moved; or the head could not be written.
abbrev pub Relayed : Bytes → Surroundings → Ended × Sent → Type 0
Relayed head around (r, s) =
    ((s.to_backend ≡ head ++ moved_before client_to_backend around.events)
      × (s.to_client ≡ moved_before backend_to_client around.events))
    ⊎ ((r ≡ errors) × (IsPrefix s.to_backend head) × (s.to_client ≡ []))

copy_select-moved_before :
    (events : List (Direction × CopyEvent)) (s : Sent)
    → let t = (copy_select events s).1 in
      (t.to_backend ≡ s.to_backend ++ moved_before client_to_backend events)
      × (t.to_client ≡ s.to_client ++ moved_before backend_to_client events)
unfolding copy_select
copy_select-moved_before [] s = (sym (append-nil _), sym (append-nil _))
copy_select-moved_before ((client_to_backend, moved bytes) ∷ events) s =
    let r = copy_select-moved_before events (carry client_to_backend bytes s) in
    (r.0 ∙ append_assoc s.to_backend bytes (moved_before client_to_backend events), r.1)
copy_select-moved_before ((backend_to_client, moved bytes) ∷ events) s =
    let r = copy_select-moved_before events (carry backend_to_client bytes s) in
    (r.0, r.1 ∙ append_assoc s.to_client bytes (moved_before backend_to_client events))
copy_select-moved_before ((d, ended) ∷ events) s = (sym (append-nil _), sym (append-nil _))
copy_select-moved_before ((d, broke) ∷ events) s = (sym (append-nil _), sym (append-nil _))

take-IsPrefix : (n : ℕ) (xs : Bytes) → IsPrefix (take n xs) xs
take-IsPrefix n xs = (drop n xs, take-append-drop n xs)

handle_with_preread-Relayed :
    (around : Surroundings) (head : Bytes)
    → let out = handle_with_preread around head in Refused out.1 ⊎ Relayed head around out
unfolding handle_with_preread
handle_with_preread-Relayed around head = elim (Bool-cases around.backend_connects) [
  | inr down ↦ rw down (inl (refl, inr (take-IsPrefix around.client_room bad_gateway)))
  | inl up ↦ elim (Bool-cases (leb (length head) around.backend_room)) [
    | inl fits ↦
        let nothing : Sent = record { to_backend = head; to_client = [] } in
        rw (up, fits) (inr (inl (copy_select-moved_before around.events nothing)))
    | inr short ↦ rw (up, short) (inr (inr (refl, take-IsPrefix around.backend_room head, refl)))
  ]
]

module _ (parse : Bytes → Result (Unit {0}) Status) where
  -- A head that begins what was read and that `parse_head` takes for complete has been relayed.
  abbrev pub RelaysHead : Bytes → Surroundings → Ended × Sent → Type 0
  RelaysHead all around out =
      (head : Bytes) × IsPrefix head all
      × ((consumed : ℕ) × parse_head parse head ≡ ok (some consumed))
      × Relayed head around out

  after_parse-RelaysHead :
      (around : Surroundings) (buf rest : Bytes) (later : Ended × Sent)
      → Refused later.1 ⊎ RelaysHead (buf ++ rest) around later
      → (r : Result (Unit {0}) (Option ℕ)) → parse_head parse buf ≡ r
      → let out = after_parse parse around r buf later in
        Refused out.1 ⊎ RelaysHead (buf ++ rest) around out
  unfolding after_parse
  after_parse-RelaysHead around buf rest later h (ok (some consumed)) e =
      elim (handle_with_preread-Relayed around buf) [
        | inl refused ↦ inl refused
        | inr relayed ↦ inr (buf, (rest, refl), (consumed, e), relayed)
      ]
  after_parse-RelaysHead around buf rest later h (ok none) e =
      elim (Bool-cases (leb head_buf_max (length buf))) [
        | inl large ↦ rw large (inl (refl, inl (take-IsPrefix around.client_room bad_request)))
        | inr small ↦ rw small h
      ]
  after_parse-RelaysHead around buf rest later h (err u) e =
      inl (refl, inl (take-IsPrefix around.client_room bad_request))

  handle-RelaysHead-from :
      (around : Surroundings) (reads : List (Option Bytes)) (buf : Bytes)
      → let out = handle parse around reads buf in
        Refused out.1 ⊎ RelaysHead (buf ++ gathered reads) around out
  unfolding handle
  handle-RelaysHead-from around [] buf = inl (refl, inl (bad_request, refl))
  handle-RelaysHead-from around (none ∷ reads) buf = inl (refl, inl (bad_request, refl))
  handle-RelaysHead-from around (some [] ∷ reads) buf = inl (refl, inl (bad_request, refl))
  handle-RelaysHead-from around (some (b ∷ bs) ∷ reads) buf =
      let more = buf ++ (b ∷ bs) in
      subst
        (λ all.
          let out = handle parse around (some (b ∷ bs) ∷ reads) buf in
          Refused out.1 ⊎ RelaysHead all around out)
        (append_assoc buf (b ∷ bs) (gathered reads))
        (after_parse-RelaysHead around more (gathered reads) (handle parse around reads more)
          (handle-RelaysHead-from around reads more) (parse_head parse more) refl)

  -- Whatever is read and in whatever order the two sides go, either the backend gets nothing and the client at most the 400 or
  -- the 502 of the bridge, or the bytes read so far are a complete head and the backend gets them unmodified and then what the
  -- client sends, and the client what the backend sends, up to the first end or error of either side; where the head itself
  -- cannot be written, the backend has a beginning of it, the client nothing, and the relay is an error.
  pub handle-RelaysHead :
      (around : Surroundings) (reads : List (Option Bytes))
      → let out = handle parse around reads [] in
        Refused out.1 ⊎ RelaysHead (gathered reads) around out
  handle-RelaysHead around reads = handle-RelaysHead-from around reads []
