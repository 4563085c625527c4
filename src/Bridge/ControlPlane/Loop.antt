-- ===== src/Bridge/ControlPlane/Loop.antt =====
-- The commands that the heartbeats of latticeshield-bridge/src/control_plane.rs bring in, over a whole run of `start`.
use latticeshield.Prelude.{
  ◌^◌, ◌<◌, ◌≤◌, ◌≡◌, ◌≢◌, refl, sym, ap, ◌∙◌, ◌⊎◌, inl, inr, Bool, true, false, Bool-cases,
  Option-cases, List, [], ◌∷◌, ◌++◌, length, ◌==◌, ==_iff, if◌then◌else◌, All, Option, none, some,
  Result, ok, err, ok_or, ok_or-ok, map_err, map_err-ok, bind-ok, ok_injective, arith,
}
use latticeshield.Prelude.Bytes.{Bytes}
use latticeshield.Prelude.Text.{Text}
use latticeshield.Crypto.Signing.{MlDsa, verifying_key_len, verifying_key_from_bytes, sign}
use latticeshield.Bridge.ControlPlane.Verified.{Trusted, verify_response-Trusted}
use latticeshield.Bridge.ControlPlane.{
  BridgeCommand, HeartbeatResponse, HeartbeatError, RegistrationPayload, Reply, AgentConfig, Codecs,
  Turn, load_cloud_vk, cloud_vk_of, verify_response, send_heartbeat, try_register, dispatched,
  commands_of, commands_sent, heartbeat_loop, max_heartbeat_response_bytes, parsed_response, start,
  heartbeat_url, signed_heartbeat, serialize_failed, sign_failed, request_failed, non_success,
  read_body,
}

-- A file that is not a key leaves the bridge without one.
not_a_key :
    (file : Option Bytes)
    → ((bytes : Bytes) → file ≡ some bytes → length bytes ≢ verifying_key_len)
    → load_cloud_vk file ≡ none
unfolding load_cloud_vk
not_a_key none h = refl
not_a_key (some bytes) h = elim (Bool-cases (length bytes == verifying_key_len)) [
  | inl same ↦ absurd (h bytes refl ((==_iff (length bytes) verifying_key_len).0 same))
  | inr other ↦ rw other refl
]

loaded : (vk : Bytes) → length vk ≡ verifying_key_len → load_cloud_vk (some vk) ≡ some vk
unfolding load_cloud_vk verifying_key_from_bytes
loaded vk h =
    let same : (length vk == verifying_key_len) ≡ true =
      (==_iff (length vk) verifying_key_len).1 h in
    rw same refl

-- A body that is read is the reply's, and is not above the cap.
read_body-ok :
    (reply : Reply) (body : Bytes)
    → read_body reply ≡ ok body
    → (reply.body ≡ some body) × (length body ≤ max_heartbeat_response_bytes)
unfolding read_body
read_body-ok reply body h = ground arith

-- The test of the status, before the body is read.
told :
    (b : Bool) (r : Result HeartbeatError Bytes) (body : Bytes)
    → (if b then r else err non_success) ≡ ok body
    → (b ≡ true) × (r ≡ ok body)
told true r body e = (refl, e)
told false r body e = cc

told_back :
    (b : Bool) (r : Result HeartbeatError Bytes) (body : Bytes)
    → b ≡ true
    → r ≡ ok body
    → (if b then r else err non_success) ≡ ok body
told_back true r body e h = h
told_back false r body e h = cc

module _ (dsa : MlDsa) (codecs : Codecs) where
  abbrev pub ClocksFit : List (Turn dsa codecs) → Type 0
  ClocksFit = All λ t. t.now < 2 ^ 63

  parsed :
      (body : Bytes) (payload : Text)
      → (parsed_response dsa codecs body).signed_payload ≡ some payload
      → codecs.response_from_slice body ≡ some (parsed_response dsa codecs body)
  parsed body payload h = elim (Option-cases (codecs.response_from_slice body)) [
    | inl n ↦ cc (rw (n, parsed_response) at h)
    | inr (r, e) ↦ rw (e, parsed_response) refl
  ]

  parsed_as :
      (body : Bytes) (hb_resp : HeartbeatResponse)
      → codecs.response_from_slice body ≡ some hb_resp
      → parsed_response dsa codecs body ≡ hb_resp
  parsed_as body hb_resp e = rw (e, parsed_response) refl

  module _ (config : AgentConfig) (agent_id : Text) (signing_key vk : Bytes) where
    -- What the network has answered to the signed heartbeat of a turn: a reply that tells success, whose
    -- body is read, is not above 1 MiB, and parses as `hb_resp`.
    abbrev pub Replied : Turn dsa codecs → HeartbeatResponse → Type 0
    Replied t hb_resp =
        (canonical : Bytes) × (sig : Bytes) × (reply : Reply) × (body : Bytes) × (codecs.to_vec
            t.signable
          ≡ some canonical)
        × (sign dsa signing_key canonical t.randomness ≡ ok sig)
        × (t.post (heartbeat_url config agent_id) (signed_heartbeat dsa codecs t.signable sig)
            ≡ some reply)
        × (reply.is_success ≡ true)
        × (read_body reply ≡ ok body)
        × (reply.body ≡ some body)
        × (length body ≤ max_heartbeat_response_bytes)
        × (codecs.response_from_slice body ≡ some hb_resp)

    -- The network's answer to a turn is trusted, and its commands are `known`.
    abbrev pub Commands : Turn dsa codecs → List BridgeCommand → Type 0
    Commands t known =
        (hb_resp : HeartbeatResponse) × Replied t hb_resp
        × Trusted dsa codecs vk t.now hb_resp known

    -- What one turn brings in: nothing without a trusted answer, and the known commands of a trusted one.
    abbrev pub Brings : Turn dsa codecs → List BridgeCommand → Type 0
    Brings t mine =
        ((mine ≡ []) × ¬ ((known : List BridgeCommand) × Commands t known))
        ⊎ ((known : List BridgeCommand) × Commands t known × (mine ≡ dispatched dsa codecs known))

    -- The commands of the turns, one turn after the other.
    abbrev pub Backed : List (Turn dsa codecs) → List BridgeCommand → Type 0
    Backed [] cs = cs ≡ []
    Backed (t ∷ turns) cs =
        (mine : List BridgeCommand) × (later : List BridgeCommand) × (cs ≡ mine ++ later)
        × Brings t mine
        × Backed turns later

    -- What a turn sends and gets.
    abbrev sent_by : Turn dsa codecs → Result HeartbeatError HeartbeatResponse
    sent_by t =
        send_heartbeat dsa codecs t.post config agent_id t.signable signing_key t.randomness
          (some vk) t.now

    sends :
        (t : Turn dsa codecs) (hb_resp : HeartbeatResponse)
        → Replied t hb_resp
        → sent_by t ≡ ok (verify_response dsa codecs vk t.now hb_resp)
    unfolding send_heartbeat
    sends t hb_resp (canonical, sig, reply, body, e1, e2, e3, e4, e5, same, size, e6) =
        rw
          (
            e1,
            e2,
            e3,
            told_back reply.is_success (read_body reply) body e4 e5,
            parsed_as body hb_resp e6,
          )
          refl

    answered :
        (t : Turn dsa codecs) (answer : HeartbeatResponse)
        → sent_by t ≡ ok answer
        → (body : Bytes) × (verify_response dsa codecs vk t.now (parsed_response dsa codecs body)
            ≡ answer)
          × ((payload : Text)
              → (parsed_response dsa codecs body).signed_payload ≡ some payload
              → Replied t (parsed_response dsa codecs body))
    unfolding send_heartbeat
    answered t answer h =
        let (canonical, e1, h1) = bind-ok (ok_or (codecs.to_vec t.signable) serialize_failed) h in
        let (sig, e2, h2) =
          bind-ok (map_err (λ _. sign_failed) (sign dsa signing_key canonical t.randomness)) h1 in
        let (reply, e3, h3) =
          bind-ok
            (ok_or
              (t.post (heartbeat_url config agent_id) (signed_heartbeat dsa codecs t.signable sig))
              request_failed)
            h2 in
        let (body, e4, h4) =
          bind-ok (if reply.is_success then read_body reply else err non_success) h3 in
        let (success, got) = told reply.is_success (read_body reply) body e4 in
        let (same, size) = read_body-ok reply body got in
        (
          body,
          ok_injective h4,
          λ payload p. (
            canonical,
            sig,
            reply,
            body,
            ok_or-ok _ _ canonical e1,
            map_err-ok _ _ sig e2,
            ok_or-ok _ _ reply e3,
            success,
            got,
            same,
            size,
            parsed body payload p,
          ),
        )

    -- Where a turn ends without commands, no answer to it is trusted.
    untrusted :
        (t : Turn dsa codecs) (r : Result HeartbeatError HeartbeatResponse)
        → t.now < 2 ^ 63
        → ((answer : HeartbeatResponse) → r ≡ ok answer → answer.pending_commands ≡ none)
        → sent_by t ≡ r
        → ¬ ((known : List BridgeCommand) × Commands t known)
    untrusted t r clock h same (known, (hb_resp, replied, trusted)) =
        let p = (verify_response-Trusted dsa codecs vk t.now hb_resp known clock).1 trusted in
        let q = h _ (sym same ∙ sends t hb_resp replied) in cc

    turn_Brings :
        (t : Turn dsa codecs) (r : Result HeartbeatError HeartbeatResponse)
        → t.now < 2 ^ 63
        → sent_by t ≡ r
        → Brings t (commands_sent dsa codecs r)
    unfolding commands_sent
    turn_Brings t (err e) clock same = inl (refl, untrusted t (err e) clock (λ a h. cc) same)
    turn_Brings t (ok answer) clock same = go answer.pending_commands refl
      where
        go :
            (o : Option (List BridgeCommand))
            → answer.pending_commands ≡ o
            → Brings t (commands_of dsa codecs o)
        go none e = inl (
          refl,
          untrusted t (ok answer) clock
              (λ a h. ap (λ x. x.pending_commands) (sym (ok_injective h)) ∙ e) same,
        )
        go (some known) e =
            let (body, checked, replied) = answered t answer same in
            let trusted =
              (verify_response-Trusted dsa codecs vk t.now (parsed_response dsa codecs body) known
                  clock).0
                (ap (λ x. x.pending_commands) checked ∙ e) in
            inr (known, (_, replied trusted.0 trusted.4, trusted), refl)

    loop-Backed :
        (turns : List (Turn dsa codecs))
        → ClocksFit turns
        → Backed turns (heartbeat_loop dsa codecs config agent_id signing_key (some vk) turns)
    unfolding heartbeat_loop
    loop-Backed [] clocks = refl
    loop-Backed (t ∷ turns) clocks =
        (_, _, refl, turn_Brings t _ clocks.0 refl, loop-Backed turns clocks.1)

  -- Without an HTTP client or a registration there are no commands; after a registration they are those of the turns.
  abbrev pub Followed :
      (client : Bool)
      → AgentConfig
      → (signing_key verifying_key vk : Bytes) → (Text → RegistrationPayload → Option Reply)
      → List (Turn dsa codecs)
      → List BridgeCommand
      → Type 0
  Followed client config signing_key verifying_key vk post turns cs =
      ((cs ≡ []) × ((client ≡ false) ⊎ (try_register dsa codecs post config verifying_key ≡ none)))
      ⊎ ((agent_id : Text) × (client ≡ true)
          × (try_register dsa codecs post config verifying_key ≡ some agent_id)
          × Backed config agent_id signing_key vk turns cs)

  -- A bridge whose file of the cloud's key has the length of a key, with clocks below 2^63 seconds:
  -- it gets no command where the HTTP client cannot be built or the registration fails. Else the
  -- commands that reach it over a whole run are those of the turns, in their order. In a turn whose
  -- signed heartbeat, posted to the URL of the agent, the network answers with a success whose
  -- body, which is neither announced as nor is above 1 MiB, parses as a reply that is trusted at
  -- that turn (`Trusted`), they are exactly the known commands of that reply, in their order; in
  -- every other turn there are none.
  pub start-Backed :
      (client : Bool) (config : AgentConfig) (signing_key verifying_key vk : Bytes)
      (post : Text → RegistrationPayload → Option Reply) (turns : List (Turn dsa codecs))
      → length vk ≡ verifying_key_len
      → ClocksFit turns
      → Followed client config signing_key verifying_key vk post turns
          (start dsa codecs (some (some vk)) client config signing_key verifying_key post turns)
  unfolding start cloud_vk_of
  start-Backed false config signing_key verifying_key vk post turns size clocks =
      inl (refl, inl refl)
  start-Backed true config signing_key verifying_key vk post turns size clocks =
      elim (Option-cases (try_register dsa codecs post config verifying_key)) [
        | inl refused ↦ inl (rw refused refl, inr refused)
        | inr (agent_id, registered) ↦ inr (
          agent_id,
          refl,
          registered,
          rw (registered, loaded vk size) (loop-Backed config agent_id signing_key vk turns clocks),
        )
      ]

  -- Where the file of the cloud's key cannot be read or has another length than a key, the bridge runs exactly as
  -- one that is configured without a key, and takes the commands of any reply without a signature.
  pub start_unverified :
      (file : Option Bytes) (client : Bool) (config : AgentConfig)
      (signing_key verifying_key : Bytes) (post : Text → RegistrationPayload → Option Reply)
      (turns : List (Turn dsa codecs))
      → ((bytes : Bytes) → file ≡ some bytes → length bytes ≢ verifying_key_len)
      → start dsa codecs (some file) client config signing_key verifying_key post turns
        ≡ start dsa codecs none client config signing_key verifying_key post turns
  unfolding start cloud_vk_of
  start_unverified file false config signing_key verifying_key post turns h = refl
  start_unverified file true config signing_key verifying_key post turns h =
      elim (Option-cases (try_register dsa codecs post config verifying_key)) [
        | inl refused ↦ rw refused refl
        | inr (agent_id, registered) ↦ rw (registered, not_a_key file h) refl
      ]
