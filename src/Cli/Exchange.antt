-- ===== src/Cli/Exchange.antt =====
-- The steps of `vk-share` of latticeshield-cli/src/main.rs and of the admin channel of latticeshield-bridge/src/admin.rs that
-- meet: the handshake and the command.
use latticeshield.Prelude.{
  ℕ, ◌*◌, ◌<◌, ◌≤◌, ◌≡◌, refl, ap, ◌∙◌, false, ◌++◌, length, max, lt→ltb, some, Result, ok, err,
  bind-ok, ok_injective, ok_or-ok, map_err-ok, arith,
}
use latticeshield.Prelude.Bytes.{Bytes}
use latticeshield.Prelude.Text.{codes}
use latticeshield.Crypto.Primitives.{Aead, AeadLaws, Hkdf}
use latticeshield.Crypto.Signing.{MlDsa, MlDsaLaws, generate_keypair}
use latticeshield.Crypto.Stream.{Stream, read_exact-append, write_all_fits, write_all-some}
use latticeshield.Crypto.Handshake.{
  X25519, X25519Laws, MlKem, MlKemLaws, ServerDraws, new, server_hello_signed_bytes,
  complete_from_wire_signed,
}
use latticeshield.Crypto.Handshake.Sizes.{
  length-server_hello_signed_bytes, take-server_hello_signed_bytes, length-response_signed,
}
use latticeshield.Crypto.Handshake.Agreement.{
  parse_server_hello_signed-server_hello_signed_bytes, complete_from_wire_signed-client_respond,
}
use latticeshield.Crypto.Channel.State
use latticeshield.Crypto.Channel.State.{FrameError, plain}
use latticeshield.Crypto.Channel.Link.{Link, Writer, wrote}
use latticeshield.Crypto.Channel.Wire.{Acceptable}
use latticeshield.Crypto.Channel.Ops.{read_frame, write_frame}
use latticeshield.Bridge.Admin
use latticeshield.Bridge.Admin.{
  AdminCodecs, AdminServices, AdminSetup, Visit, Served, handle_get_vk_token,
  handle_admin_connection,
}
use latticeshield.Cli.{
  AdminResponse, vk_token, error, unknown, CliCodecs, CliDraws, sequence_of, handshake,
  open_channel, sent_command, send_command, request,
}

-- A response of the bridge as the command line tool knows it; the others fall under `#[serde(other)]`.
abbrev pub known : Admin.AdminResponse → AdminResponse
known (Admin.vk_token token url) = vk_token token url
known (Admin.error message) = error message
known (Admin.metrics text) = unknown
known (Admin.rotated count) = unknown

-- The two programs have one JSON, and a command is short.
pub record SameJson (cli : CliCodecs) (codecs : AdminCodecs) : Type 0 where
  pub command_read :
      (seq : ℕ) (bytes : Bytes)
      → cli.frame_to_vec (record { seq = seq; cmd = codes "GetVkToken" }) ≡ some bytes
      → codecs.frame_from_slice bytes ≡ some (record { seq = seq; cmd = Admin.get_vk_token })
  pub short :
      (seq : ℕ) (bytes : Bytes)
      → cli.frame_to_vec (record { seq = seq; cmd = codes "GetVkToken" }) ≡ some bytes
      → length bytes ≤ 64 * 1024
  pub response_known :
      (response : Admin.AdminResponse) (bytes : Bytes)
      → codecs.response_to_vec response ≡ some bytes
      → cli.response_from_slice bytes ≡ some (known response)

pub fresh_fits : (key : Bytes) (n : ℕ) → n ≤ 64 * 1024 → Acceptable (State.new key (64 * 1024)) 0 n
unfolding State.new
fresh_fits key n h = record { newer = refl; fits = h; u32 = omega arith; u64 = omega arith }

module _ {Dk Ek : Type 0} (dsa : MlDsa) (x : X25519) (kem : MlKem Dk Ek) (hkdf : Hkdf) (aead : Aead)
    (cli : CliCodecs) where
  sent_command-ok :
      (r : Result FrameError (Unit {0}) × Link) (l : Link)
      → sent_command dsa x kem hkdf aead cli r ≡ ok l
      → r ≡ (ok tt, l)
  unfolding sent_command
  sent_command-ok (ok _, m) l h = ap (λ k. (ok tt, k)) (ok_injective h)
  sent_command-ok (err e, m) l h = cc

  -- A request that has gone out: the session key with the stream after the handshake, and the command's bytes.
  pub requested :
      (draws : CliDraws) (vk sk : Bytes) (micros : ℕ) (s : Stream) (l : Link)
      → request dsa x kem hkdf aead cli draws vk sk micros s ≡ ok l
      → (r : Bytes × Stream) × (cmd : Bytes) × (handshake dsa x kem hkdf aead cli draws vk sk s
          ≡ ok r)
        × (cli.frame_to_vec (record { seq = sequence_of micros; cmd = codes "GetVkToken" })
            ≡ some cmd)
        × (write_frame aead cmd (open_channel dsa x kem hkdf aead cli r) ≡ (ok tt, l))
  unfolding request send_command
  requested draws vk sk micros s l h =
      let (r, shaken, h1) = bind-ok _ h in
      let (cmd, encoded, h2) = bind-ok _ h1 in
      (r, cmd, shaken, ok_or-ok _ _ cmd encoded, sent_command-ok _ l h2)

module _ {Dk Ek : Type 0} (dsa : MlDsa) (x : X25519) (kem : MlKem Dk Ek) (hkdf : Hkdf) (aead : Aead)
    (dsa_laws : MlDsaLaws dsa) (x_laws : X25519Laws x) (kem_laws : MlKemLaws kem)
    (aead_laws : AeadLaws aead) (cli : CliCodecs) (codecs : AdminCodecs)
    (json : SameJson cli codecs) (sha256 : Bytes → Bytes) (setup : AdminSetup) where
  abbrev pub Greeting : ServerDraws → (seed randomness hello : Bytes) → Type 0
  Greeting draws seed randomness hello =
      server_hello_signed_bytes dsa x kem hkdf (new dsa x kem hkdf draws)
        (generate_keypair dsa seed).0 randomness
      ≡ ok hello

  -- What a handshake of the tool that succeeds has sent: a signed response, which completes the bridge's handshake with the tool's key.
  pub shaken :
      (draws : ServerDraws) (cdraws : CliDraws) (seed randomness hello rest admin_seed : Bytes)
      (w : Writer) (r : Bytes × Stream)
      → length draws.nonce ≡ 32
      → Greeting draws seed randomness hello
      → handshake dsa x kem hkdf aead cli cdraws
          (generate_keypair dsa seed).1
          (generate_keypair dsa admin_seed).0
          (record { input = hello ++ rest; output = w })
        ≡ ok r
      → (signed : Bytes) × (length signed ≡ 4429)
        × (complete_from_wire_signed dsa x kem hkdf
              (new dsa x kem hkdf draws)
              signed
              (generate_keypair dsa admin_seed).1
            ≡ ok r.0)
        × (record { input = rest; output = wrote signed w } ≡ r.1)
  unfolding handshake
  shaken draws cdraws seed randomness hello rest admin_seed w r n g h =
      let reads = read_exact-append 4557 hello rest w (
        length-server_hello_signed_bytes dsa x kem hkdf dsa_laws x_laws kem_laws draws seed
          randomness hello n g) in
      let parses =
        parse_server_hello_signed-server_hello_signed_bytes dsa x kem hkdf dsa_laws x_laws kem_laws
          draws seed randomness hello n g in
      let raw =
        take-server_hello_signed_bytes dsa x kem hkdf dsa_laws x_laws kem_laws draws seed randomness
          hello n g in
      let h1 = rw (reads, parses, raw) at h in
      let (k, answered, h2) = bind-ok _ h1 in
      let (signed, signs, h3) = bind-ok _ h2 in
      let (s1, writes, h4) = bind-ok _ h3 in
      let answer = map_err-ok _ _ k answered in
      let signing = map_err-ok _ _ signed signs in
      (
        signed,
        length-response_signed dsa x kem hkdf dsa_laws x_laws kem_laws draws cdraws.x25519_secret
            cdraws.kem_randomness k.0 k.1 _ _ _ signed answer signing,
        complete_from_wire_signed-client_respond dsa x kem hkdf dsa_laws x_laws kem_laws draws
              cdraws.x25519_secret cdraws.kem_randomness k.0 k.1 admin_seed cdraws.sign_randomness
              signed answer signing
            ∙ ap (λ r. ok r.0) (ok_injective h4),
        write_all-some signed (record { input = rest; output = w }) s1 (ok_or-ok _ _ s1 writes)
            ∙ ap (λ r. r.1) (ok_injective h4),
      )

  -- The bridge's handshake on what the tool sent.
  pub welcomed :
      (visit : Visit) (seed admin_seed hello signed after key : Bytes)
      → setup.signing_key ≡ (generate_keypair dsa seed).0
      → setup.cp_vk ≡ (generate_keypair dsa admin_seed).1
      → Greeting visit.draws seed visit.randomness hello
      → length hello ≤ visit.stream.output.room
      → visit.stream.input ≡ signed ++ after
      → length signed ≡ 4429
      → complete_from_wire_signed dsa x kem hkdf
          (new dsa x kem hkdf visit.draws)
          signed
          (generate_keypair dsa admin_seed).1
        ≡ ok key
      → Admin.do_handshake dsa x kem hkdf aead codecs sha256 setup visit
        ≡ ok (key, record { input = after; output = wrote hello visit.stream.output })
  unfolding Admin.do_handshake
  welcomed visit seed admin_seed hello signed after key sk vk g room arrives n completed =
      rw
        (
          sk,
          vk,
          g,
          write_all_fits hello visit.stream room,
          arrives,
          read_exact-append 4429 signed after (wrote hello visit.stream.output) n,
          completed,
        )
        refl

  -- The services at the command: its number is the last one.
  abbrev pub numbered : AdminServices → ℕ → AdminServices
  numbered services seq = record services { cmd_seq = seq }

  abbrev pub handled : Visit → AdminServices → ℕ → Admin.AdminResponse × AdminServices
  handled visit services seq =
      handle_get_vk_token sha256 setup visit.now visit.token (numbered services seq)

  -- The bridge carries the command out that it reads.
  pub carried :
      (visit : Visit) (services : AdminServices) (seq : ℕ) (key cmd : Bytes) (s : Stream) (l : Link)
      → visit.elapsed ≡ false
      → Admin.do_handshake dsa x kem hkdf aead codecs sha256 setup visit ≡ ok (key, s)
      → read_frame aead (Admin.open_channel dsa x kem hkdf aead codecs sha256 setup (key, s))
        ≡ (ok (plain cmd), l)
      → codecs.frame_from_slice cmd ≡ some (record { seq = seq; cmd = Admin.get_vk_token })
      → services.cmd_seq < seq
      → handle_admin_connection dsa x kem hkdf aead codecs sha256 setup visit services
        ≡ Admin.carry_out dsa x kem hkdf aead codecs sha256 setup visit
            (record { seq = seq; cmd = Admin.get_vk_token })
            l
            services
  unfolding handle_admin_connection Admin.after_handshake Admin.read_command Admin.check_sequence
      Admin.is_seq_valid
  carried visit services seq key cmd s l quick shook got parsed newer =
      rw (shook, got, parsed, lt→ltb services.cmd_seq seq newer, quick) refl

  pub max-newer : (a b : ℕ) → a < b → max a b ≡ b
  max-newer a b h = omega arith
