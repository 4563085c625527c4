-- ===== src/Cli/VkShare.antt =====
-- `vk-share` of latticeshield-cli/src/main.rs against the admin channel of latticeshield-bridge/src/admin.rs.
use latticeshield.Prelude.{
  ℕ, ◌*◌, ◌<◌, ◌≤◌, ◌≡◌, refl, sym, ap, subst, ◌∙◌, false, inl, inr, [], ◌++◌, append-nil, length,
  Option, none, some, Option-cases, Result, ok, err, arith,
}
use latticeshield.Prelude.Bytes.{Bytes}
use latticeshield.Crypto.Primitives.{Aead, AeadLaws, Hkdf}
use latticeshield.Crypto.Signing.{MlDsa, MlDsaLaws, generate_keypair}
use latticeshield.Crypto.Stream.{Stream}
use latticeshield.Crypto.Handshake.{X25519, X25519Laws, MlKem, MlKemLaws}
use latticeshield.Crypto.Channel.State
use latticeshield.Crypto.Channel.State.{FrameError}
use latticeshield.Crypto.Channel.Link.{Link, Writer, fed, wrote}
use latticeshield.Crypto.Channel.Wire.{sent_one, received_one}
use latticeshield.Crypto.Channel.Ops.{read_frame, write_frame}
use latticeshield.Bridge.Admin
use latticeshield.Bridge.Admin.{
  AdminCodecs, AdminServices, AdminSetup, CommandFrame, Visit, Served, handle_admin_connection,
}
use latticeshield.Cli.{
  CliCodecs, CliDraws, sequence_of, open_channel, printed, read_response, request,
}
use latticeshield.Cli.Delivered.{read_frame-write_frame}
use latticeshield.Cli.Exchange.{
  known, SameJson, fresh_fits, requested, Greeting, shaken, welcomed, handled, carried, max-newer,
}

module _ {Dk Ek : Type 0} (dsa : MlDsa) (x : X25519) (kem : MlKem Dk Ek) (hkdf : Hkdf) (aead : Aead)
    (dsa_laws : MlDsaLaws dsa) (x_laws : X25519Laws x) (kem_laws : MlKemLaws kem)
    (aead_laws : AeadLaws aead) (cli : CliCodecs) (codecs : AdminCodecs)
    (json : SameJson cli codecs) (sha256 : Bytes → Bytes) (setup : AdminSetup) where
  -- What became of the bridge's response `made`: it could not be encoded, its write failed, or its bytes are one reply after
  -- `before`, and the tool, which reads that reply next on `l`, returns what it says.
  abbrev pub Responds :
      (made : Admin.AdminResponse) (before : Bytes) (l : Link)
      → Option (Admin.AdminResponse × Option (Result FrameError (Unit {0}) × Link))
      → Type 0
  Responds made before l none = ⊥
  Responds made before l (some (answer, none)) =
      (answer ≡ made) × (codecs.response_to_vec made ≡ none)
  Responds made before l (some (answer, some (err e, m))) =
      (answer ≡ made) × (bytes : Bytes) × (codecs.response_to_vec made ≡ some bytes)
  Responds made before l (some (answer, some (ok u, m))) =
      (answer ≡ made)
      × (reply : Bytes) × (m.output.sent ≡ before ++ reply)
      × (read_response dsa x kem hkdf aead cli (read_frame aead (fed reply l))
          ≡ printed dsa x kem hkdf aead cli (known made))

  written-Responds :
      (made : Admin.AdminResponse) (key bytes : Bytes) (b l : Link)
      → codecs.response_to_vec made ≡ some bytes
      → length bytes ≤ 64 * 1024
      → b.channel ≡ received_one (State.new key (64 * 1024)) 0
      → l.channel ≡ sent_one (State.new key (64 * 1024))
      → (r : Result FrameError (Unit {0}) × Link) → write_frame aead bytes b ≡ r
      → Responds made b.output.sent l (some (made, some r))
  unfolding State.new read_response
  written-Responds made key bytes b l encoded small opened chan (err e, m) back =
      (refl, bytes, encoded)
  written-Responds made key bytes b l encoded small opened chan (ok _, m) back =
      let (reply, sent, _, _, reads) = read_frame-write_frame aead aead_laws bytes b m back in
      let heard = rw (append-nil reply) at (
        reads l [] (ap (λ c. c.key_bytes) chan ∙ sym (ap (λ c. c.key_bytes) opened)) (
          rw (chan, opened)
            (record { newer = refl; fits = small; u32 = omega arith; u64 = omega arith }))) in
      (refl, reply, sent, rw (heard, json.response_known made bytes encoded) refl)

  -- The bridge's response to the command of the tool.
  carried-Responds :
      (visit : Visit) (services : AdminServices) (seq : ℕ) (key : Bytes) (b l : Link)
      → services.cmd_seq < seq
      → ((bytes : Bytes)
          → codecs.response_to_vec
              (handled dsa x kem hkdf aead dsa_laws x_laws kem_laws aead_laws cli codecs json sha256
                setup visit services seq).0
            ≡ some bytes
          → length bytes ≤ 64 * 1024)
      → b.channel ≡ received_one (State.new key (64 * 1024)) 0
      → l.channel ≡ sent_one (State.new key (64 * 1024))
      → Responds
          (handled dsa x kem hkdf aead dsa_laws x_laws kem_laws aead_laws cli codecs json sha256
            setup visit services seq).0
          b.output.sent
          l
          (Admin.carry_out dsa x kem hkdf aead codecs sha256 setup visit
            (record { seq = seq; cmd = Admin.get_vk_token })
            b
            services).response
  unfolding Admin.carry_out Admin.dispatch
  carried-Responds visit services seq key b l newer small opened chan =
      let made =
        (handled dsa x kem hkdf aead dsa_laws x_laws kem_laws aead_laws cli codecs json sha256 setup
          visit services seq).0 in
      let last =
        max-newer dsa x kem hkdf aead dsa_laws x_laws kem_laws aead_laws cli codecs json sha256
          setup services.cmd_seq seq newer in
      elim (Option-cases (codecs.response_to_vec made)) [
        | inl unencoded ↦ rw (last, unencoded) (refl, unencoded)
        | inr (bytes, encoded) ↦
            rw (last, encoded)
              (written-Responds made key bytes b l encoded (small bytes encoded) opened chan _ refl)
      ]

  numbered_after :
      (visit : Visit) (services : AdminServices) (seq : ℕ) (l : Link)
      → services.cmd_seq < seq
      → (Admin.carry_out dsa x kem hkdf aead codecs sha256 setup visit
          (record { seq = seq; cmd = Admin.get_vk_token })
          l
          services).services
        ≡ (handled dsa x kem hkdf aead dsa_laws x_laws kem_laws aead_laws cli codecs json sha256
            setup visit services seq).1
  unfolding Admin.carry_out Admin.dispatch
  numbered_after visit services seq l newer =
      rw
        (max-newer dsa x kem hkdf aead dsa_laws x_laws kem_laws aead_laws cli codecs json sha256
          setup services.cmd_seq seq newer)
        refl

  -- The tool and the bridge know each other's keys, the bridge's handshake is not timed out and its
  -- hello goes out, the tool's number is above the last one, the two programs have one JSON, and
  -- the bridge's response is at most 64 KiB, where it can be encoded. Then, where the tool's
  -- request has gone out and reaches the bridge, the bridge carries out exactly that command: its
  -- services are those after one `GetVkToken` under the tool's number. Its response is the one to
  -- that command. Unless it cannot be encoded or its write fails, the bytes after the bridge's
  -- hello are one reply, and the tool, which reads that reply next, returns the token and the URL
  -- that the bridge has made, or the bridge's error.
  pub request-handle_admin_connection :
      (visit : Visit) (services : AdminServices) (cdraws : CliDraws) (micros : ℕ)
      (seed admin_seed hello rest : Bytes) (w : Writer) (l : Link)
      → visit.elapsed ≡ false
      → length visit.draws.nonce ≡ 32
      → setup.signing_key ≡ (generate_keypair dsa seed).0
      → setup.cp_vk ≡ (generate_keypair dsa admin_seed).1
      → Greeting dsa x kem hkdf aead dsa_laws x_laws kem_laws aead_laws cli codecs json sha256 setup
          visit.draws seed visit.randomness hello
      → length hello ≤ visit.stream.output.room
      → w.sent ≡ []
      → request dsa x kem hkdf aead cli cdraws
          (generate_keypair dsa seed).1
          (generate_keypair dsa admin_seed).0
          micros
          (record { input = hello ++ rest; output = w })
        ≡ ok l
      → visit.stream.input ≡ l.output.sent
      → services.cmd_seq < sequence_of micros
      → ((bytes : Bytes)
          → codecs.response_to_vec
              (handled dsa x kem hkdf aead dsa_laws x_laws kem_laws aead_laws cli codecs json sha256
                setup visit services
                (sequence_of micros)).0
            ≡ some bytes
          → length bytes ≤ 64 * 1024)
      → ((handle_admin_connection dsa x kem hkdf aead codecs sha256 setup visit services).command
          ≡ some (record { seq = sequence_of micros; cmd = Admin.get_vk_token }))
        × ((handle_admin_connection dsa x kem hkdf aead codecs sha256 setup visit services).services
            ≡ (handled dsa x kem hkdf aead dsa_laws x_laws kem_laws aead_laws cli codecs json sha256
                setup visit services
                (sequence_of micros)).1)
        × Responds
            (handled dsa x kem hkdf aead dsa_laws x_laws kem_laws aead_laws cli codecs json sha256
              setup visit services
              (sequence_of micros)).0
            (visit.stream.output.sent ++ hello)
            l
            (handle_admin_connection dsa x kem hkdf aead codecs sha256 setup visit
              services).response
  unfolding State.new Admin.open_channel open_channel Admin.carry_out
  request-handle_admin_connection visit services cdraws micros seed admin_seed hello rest w l quick
        n sk vk g room fresh asked arrives newer small =
      let seq = sequence_of micros in
      let (r, cmd, shook, enc, wrote_cmd) =
        requested dsa x kem hkdf aead cli cdraws _ _ micros _ l asked in
      let (signed, size, completed, moved) =
        shaken dsa x kem hkdf aead dsa_laws x_laws kem_laws aead_laws cli codecs json sha256 setup
          visit.draws cdraws seed visit.randomness hello rest admin_seed w r n g shook in
      let (frame, sent, kept, chan, reads) =
        read_frame-write_frame aead aead_laws cmd (open_channel dsa x kem hkdf aead cli r) l
          wrote_cmd in
      let input : visit.stream.input ≡ signed ++ frame =
        arrives
        ∙ sent
        ∙ ap (λ s. s.output.sent ++ frame) (sym moved)
        ∙ ap (λ o. (o ++ signed) ++ frame) fresh in
      let greeted =
        welcomed dsa x kem hkdf aead dsa_laws x_laws kem_laws aead_laws cli codecs json sha256 setup
          visit seed admin_seed hello signed frame r.0 sk vk g room input size completed in
      let s0 : Stream = record { input = frame; output = wrote hello visit.stream.output } in
      let bl : Link = Admin.open_channel dsa x kem hkdf aead codecs sha256 setup (r.0, s0) in
      let bl' : Link = record bl { channel = received_one bl.channel 0; input = [] } in
      let got =
        rw (append-nil frame) at
          (reads bl [] refl (fresh_fits r.0 (length cmd) (json.short seq cmd enc))) in
      let done =
        carried dsa x kem hkdf aead dsa_laws x_laws kem_laws aead_laws cli codecs json sha256 setup
          visit services seq r.0 cmd s0 bl' quick greeted got (json.command_read seq cmd enc)
          newer in
      let responded = carried-Responds visit services seq r.0 bl' l newer small refl chan in
      (
        ap (λ s. s.command) done,
        ap (λ s. s.services) done ∙ numbered_after visit services seq bl' newer,
        subst
            (λ (s : Served).
              Responds
                (handled dsa x kem hkdf aead dsa_laws x_laws kem_laws aead_laws cli codecs json
                  sha256 setup visit services seq).0
                (visit.stream.output.sent ++ hello) l s.response)
            (sym done) responded,
      )
