-- ===== src/Bridge/Admin/Sequence.antt =====
-- What the admin channel of latticeshield-bridge/src/admin.rs carries out, connection by connection.
use latticeshield.Prelude.{
  ℕ, ◌<◌, ◌≡◌, refl, sym, subst, ◌∙◌, ◌⊎◌, inl, inr, Bool, true, false, Bool-cases, max, List, [],
  ◌∷◌, take, ltb, ltb→lt, if◌then◌else◌, Option, none, some, Result, ok, err, ok_or, bind-ok, arith,
  ok_or-ok,
}
use latticeshield.Prelude.Bytes.{Bytes}
use latticeshield.Prelude.Text.{Text}
use latticeshield.Crypto.Primitives.{Aead, Hkdf}
use latticeshield.Crypto.Signing.{MlDsa}
use latticeshield.Crypto.Stream.{Stream, read_exact, write_all, write_all-input}
use latticeshield.Crypto.Handshake.{
  HandshakeError, authentication_failed, X25519, MlKem, new, server_hello_bytes,
  server_hello_signed_bytes, complete_from_wire_signed, client_response_len,
  client_response_signed_len,
}
use latticeshield.Crypto.Handshake.Signed.{read, SignedBy, response_signed}
use latticeshield.Crypto.Channel.State.{FrameError, FrameResult, plain, key_rotate}
use latticeshield.Crypto.Channel.Link.{Link}
use latticeshield.Crypto.Channel.Ops.{read_frame}
use latticeshield.Bridge.VkShare.Store.{VkShareStore, VkShareError, too_many_tokens}
use latticeshield.Bridge.Admin.{
  AdminCommand, get_metrics, rotate, get_vk_token, CommandFrame, AdminServices, AdminSetup,
  AdminCodecs, Visit, Served, refused, is_seq_valid, handle_rotate, handle_get_vk_token,
  token_response, dispatch, do_handshake, open_channel, carry_out, check_sequence, read_command,
  after_handshake, handle_admin_connection, visits,
}

-- Frames whose numbers rise, all above the last one.
abbrev pub Ascends : (last : ℕ) → List CommandFrame → Type 0
Ascends last [] = Unit {0}
Ascends last (f ∷ frames) = (last < f.seq) × Ascends f.seq frames

module _ (sha256 : Bytes → Bytes) (setup : AdminSetup) where
  token_response-cmd_seq :
      (r : Result VkShareError (Text × Text) × VkShareStore Text) (services : AdminServices)
      → (token_response sha256 setup r services).1.cmd_seq ≡ services.cmd_seq
  unfolding token_response
  token_response-cmd_seq (ok (token, fingerprint), store) services = refl
  token_response-cmd_seq (err too_many_tokens, store) services = refl

  dispatch-cmd_seq :
      (visit : Visit) (cmd : AdminCommand) (services : AdminServices)
      → (dispatch sha256 setup visit cmd services).1.cmd_seq ≡ services.cmd_seq
  unfolding dispatch handle_rotate handle_get_vk_token
  dispatch-cmd_seq visit get_metrics services = refl
  dispatch-cmd_seq visit rotate services = refl
  dispatch-cmd_seq visit get_vk_token services = token_response-cmd_seq _ services

module _ {Dk Ek : Type 0} (dsa : MlDsa) (x : X25519) (kem : MlKem Dk Ek) (hkdf : Hkdf) (aead : Aead)
    (codecs : AdminCodecs) (sha256 : Bytes → Bytes) (setup : AdminSetup) where
  abbrev Shaken : Visit → Bytes × Stream → Type 0
  Shaken visit r = do_handshake dsa x kem hkdf aead codecs sha256 setup visit ≡ ok r

  -- The frame came over the channel of a handshake, and its number is new.
  abbrev pub Accepted : Visit → AdminServices → CommandFrame → Served → Type 0
  Accepted visit services frame served =
      (r : Bytes × Stream) × (bytes : Bytes) × (l : Link) × Shaken visit r
      × (read_frame aead (open_channel dsa x kem hkdf aead codecs sha256 setup r)
          ≡ (ok (plain bytes), l))
      × (codecs.frame_from_slice bytes ≡ some frame)
      × (services.cmd_seq < frame.seq)
      × (served.services.cmd_seq ≡ frame.seq)
      × (served.command ≡ some frame)

  abbrev pub Does : Visit → AdminServices → Served → Type 0
  Does visit services served =
      ((frame : CommandFrame) × Accepted visit services frame served) ⊎ (served ≡ refused services)

  carried_out :
      (visit : Visit) (frame : CommandFrame) (l : Link) (services : AdminServices)
      → services.cmd_seq < frame.seq
      → ((carry_out dsa x kem hkdf aead codecs sha256 setup visit frame l services).services.cmd_seq
          ≡ frame.seq)
        × ((carry_out dsa x kem hkdf aead codecs sha256 setup visit frame l services).command
            ≡ some frame)
  unfolding carry_out
  carried_out visit frame l services h = (
    dispatch-cmd_seq sha256 setup visit frame.cmd
          (record services { cmd_seq = max services.cmd_seq frame.seq })
        ∙ omega arith,
    refl,
  )

  checked_Does :
      (visit : Visit) (r : Bytes × Stream) (bytes : Bytes) (l : Link) (services : AdminServices)
      → Shaken visit r
      → read_frame aead (open_channel dsa x kem hkdf aead codecs sha256 setup r)
        ≡ (ok (plain bytes), l)
      → (o : Option CommandFrame) → codecs.frame_from_slice bytes ≡ o
      → Does visit services
          (check_sequence dsa x kem hkdf aead codecs sha256 setup visit o l services)
  unfolding check_sequence is_seq_valid
  checked_Does visit r bytes l services shaken got none parsed = inr refl
  checked_Does visit r bytes l services shaken got (some frame) parsed =
      elim (Bool-cases (ltb services.cmd_seq frame.seq)) [
        | inl newer ↦
            let above = ltb→lt services.cmd_seq frame.seq newer in
            let (raised, command) = carried_out visit frame l services above in
            rw newer (inl (frame, (r, bytes, l, shaken, got, parsed, above, raised, command)))
        | inr older ↦ rw older (inr refl)
      ]

  read_Does :
      (visit : Visit) (r : Bytes × Stream) (services : AdminServices)
      → Shaken visit r
      → (f : Result FrameError FrameResult × Link)
      → read_frame aead (open_channel dsa x kem hkdf aead codecs sha256 setup r) ≡ f
      → Does visit services (read_command dsa x kem hkdf aead codecs sha256 setup visit f services)
  unfolding read_command
  read_Does visit r services shaken (ok (plain bytes), l) got =
      checked_Does visit r bytes l services shaken got _ refl
  read_Does visit r services shaken (ok (key_rotate nonce), l) got = inr refl
  read_Does visit r services shaken (err e, l) got = inr refl

  shaken_Does :
      (visit : Visit) (services : AdminServices) (h : Result HandshakeError (Bytes × Stream))
      → do_handshake dsa x kem hkdf aead codecs sha256 setup visit ≡ h
      → Does visit services
          (after_handshake dsa x kem hkdf aead codecs sha256 setup visit h services)
  unfolding after_handshake
  shaken_Does visit services (err e) h = inr refl
  shaken_Does visit services (ok r) h = read_Does visit r services h _ refl

  choice_Does :
      (visit : Visit) (services : AdminServices) (b : Bool) (s t : Served)
      → Does visit services s
      → Does visit services t
      → Does visit services (if b then s else t)
  choice_Does visit services true s t p q = p
  choice_Does visit services false s t p q = q

  connection_Does :
      (visit : Visit) (services : AdminServices)
      → Does visit services
          (handle_admin_connection dsa x kem hkdf aead codecs sha256 setup visit services)
  unfolding handle_admin_connection
  connection_Does visit services =
      choice_Does visit services visit.elapsed _ _ (inr refl) (shaken_Does visit services _ refl)

  do_handshake-SignedBy :
      (visit : Visit) (r : Bytes × Stream)
      → Shaken visit r
      → SignedBy dsa x kem hkdf setup.cp_vk
          (take client_response_signed_len visit.stream.input)
          (server_hello_bytes dsa x kem hkdf (new dsa x kem hkdf visit.draws))
          client_response_len
  unfolding do_handshake server_hello_bytes
  do_handshake-SignedBy visit r h =
      let (hello, _, h1) =
        bind-ok
          (server_hello_signed_bytes dsa x kem hkdf (new dsa x kem hkdf visit.draws)
            setup.signing_key visit.randomness)
          h in
      let (s1, sent, h2) =
        bind-ok (ok_or (write_all hello visit.stream) authentication_failed) h1 in
      let (buf, got, h3) =
        bind-ok (ok_or (read_exact client_response_signed_len s1) authentication_failed) h2 in
      let (key, completed, _) =
        bind-ok
          (complete_from_wire_signed dsa x kem hkdf (new dsa x kem hkdf visit.draws) buf.0
            setup.cp_vk)
          h3 in
      let same = write_all-input hello visit.stream s1 (ok_or-ok _ authentication_failed s1 sent) in
      rw
        (
          same,
          (read client_response_signed_len s1 buf (ok_or-ok _ authentication_failed buf got)).0,
        )
        (response_signed dsa x kem hkdf (new dsa x kem hkdf visit.draws) buf.0 setup.cp_vk key
          completed)

  abbrev Goes : List Visit → AdminServices → Served → Type 0
  Goes vs services served = Ascends services.cmd_seq (elim served.command [
    | none ↦ (visits dsa x kem hkdf aead codecs sha256 setup vs served.services).0
    | some f ↦ f ∷ (visits dsa x kem hkdf aead codecs sha256 setup vs served.services).0
  ])

  goes :
      (v : Visit) (vs : List Visit) (services : AdminServices) (served : Served)
      → Ascends served.services.cmd_seq
          (visits dsa x kem hkdf aead codecs sha256 setup vs served.services).0
      → Does v services served
      → Goes vs services served
  goes v vs services served later
        (inl (frame, (r, bytes, l, shaken, got, parsed, above, raised, command))) =
      rw command (
        above,
        subst (λ n. Ascends n (visits dsa x kem hkdf aead codecs sha256 setup vs served.services).0)
            raised later,
      )
  goes v vs services served later (inr same) = subst (Goes vs services) (sym same) (
      subst
        (λ s.
          Ascends s.services.cmd_seq
            (visits dsa x kem hkdf aead codecs sha256 setup vs s.services).0)
        same later)

  -- Over any sequence of connections to the admin channel, one after the other, the commands that are carried out have strictly
  -- rising sequence numbers, all above the last one at the start. So no command frame is carried out twice,
  -- and 0 never where nothing was accepted before.
  pub visits-Ascends :
      (vs : List Visit) (services : AdminServices)
      → Ascends services.cmd_seq (visits dsa x kem hkdf aead codecs sha256 setup vs services).0
  unfolding visits
  visits-Ascends [] services = tt
  visits-Ascends (v ∷ vs) services =
      let served = handle_admin_connection dsa x kem hkdf aead codecs sha256 setup v services in
      goes v vs services served (visits-Ascends vs served.services) (connection_Does v services)

  -- A connection to the admin channel either changes nothing and carries out no command, or it carries out exactly one, and
  -- then its response bears a signature that verifies under the control plane's key over the response and the hello that
  -- the bridge drew for this connection, the frame decrypted under the channel of this handshake, its bytes parse to
  -- the command, and its number is above the last one and becomes the last one.
  pub handle_admin_connection-Accepted :
      (visit : Visit) (services : AdminServices)
      → ((frame : CommandFrame) × Accepted visit services frame
            (handle_admin_connection dsa x kem hkdf aead codecs sha256 setup visit services)
          × SignedBy dsa x kem hkdf setup.cp_vk
              (take client_response_signed_len visit.stream.input)
              (server_hello_bytes dsa x kem hkdf (new dsa x kem hkdf visit.draws))
              client_response_len)
        ⊎ (handle_admin_connection dsa x kem hkdf aead codecs sha256 setup visit services
            ≡ refused services)
  handle_admin_connection-Accepted visit services = elim (connection_Does visit services) [
    | inl (frame, accepted) ↦
        inl (frame, accepted, do_handshake-SignedBy visit accepted.0 accepted.3)
    | inr same ↦ inr same
  ]
