-- ===== src/Tests/VkShares.antt =====
-- `vk-share` against a bridge, over a toy JSON.
use latticeshield.Prelude.{
  zero, suc, ◌*◌, ◌≤◌, ◌≡◌, refl, sym, ap, ◌∙◌, true, false, [], ◌∷◌, ◌++◌, length, take, drop,
  take-append, drop-append, Option, none, some, Result, ok, err, arith,
}
use latticeshield.Prelude.Bytes.{Bytes, to_be_bytes, from_be_bytes}
use latticeshield.Prelude.Text.{codes, text_eq}
use latticeshield.Crypto.Signing.{generate_keypair, signature_from_bytes, verify, sign}
use latticeshield.Crypto.Channel.State.{new, FrameError}
use latticeshield.Crypto.Channel.Link.{Link, Writer, write_all, flush, read_exact}
use latticeshield.Prelude.Dict.{insert, retain}
use latticeshield.Bridge.VkShare.Store.{create_token}
use latticeshield.Bridge.VkShare.Hex.{hex_encode}
use latticeshield.Bridge.Admin
use latticeshield.Bridge.Admin.{
  AdminServices, AdminSetup, AdminCodecs, Visit, Served, handle_admin_connection,
}
use latticeshield.Crypto.Stream
use latticeshield.Crypto.Handshake
use latticeshield.Crypto.Handshake.{
  server_hello_bytes, parse_server_hello_signed, client_respond, derive_session_key,
  serialize_client_response_signed, serialize_client_response, parse_server_hello,
  complete_from_wire_signed, complete_from_wire, complete, server_hello_signed_bytes,
}
use latticeshield.Crypto.Channel.Ops.{
  write_frame, data_nonce, read_frame, frame_arm, read_data, read_payload,
}
use latticeshield.Cli.{
  handshake, send_command, sent_command, open_channel, AdminResponse, vk_token, error, unknown,
  CliCodecs, CliError, CliDraws, request,
}
use latticeshield.Cli.Exchange.{known, SameJson, handled}
use latticeshield.Cli.VkShare.{Responds, request-handle_admin_connection}
use latticeshield.Tests.Cipher.{toy_aead, toy_aead_laws, toy_hkdf}
use latticeshield.Tests.Exchange.{
  toy_dsa, toy_dsa_laws, toy_x25519, toy_x25519_laws, toy_kem, toy_kem_laws,
}
use latticeshield.Tests.Sessions.{draws, seed, hello, greeting}

abbrev encoded : Admin.AdminResponse → Option Bytes
encoded (Admin.vk_token token url) = some (1 ∷ length token ∷ (token ++ url))
encoded (Admin.error message) = some (2 ∷ message)
encoded (Admin.metrics text) = some (3 ∷ [])
encoded (Admin.rotated count) = some (3 ∷ [])

abbrev decoded : Bytes → Option AdminResponse
decoded [] = none
decoded (zero ∷ bytes) = none
decoded (suc zero ∷ []) = none
decoded (suc zero ∷ n ∷ bytes) = some (vk_token (take n bytes) (drop n bytes))
decoded (suc (suc zero) ∷ bytes) = some (error bytes)
decoded (suc (suc (suc n)) ∷ bytes) = some unknown

abbrev cli : CliCodecs
cli = record { frame_to_vec = λ f. some (f.seq ∷ []); response_from_slice = decoded }

abbrev read_seq : Bytes → Option Admin.CommandFrame
read_seq [] = none
read_seq (n ∷ bytes) = some (record { seq = n; cmd = Admin.get_vk_token })

abbrev codecs : AdminCodecs
codecs = record { frame_from_slice = read_seq; response_to_vec = encoded }

abbrev or_empty : Option Bytes → Bytes
or_empty none = []
or_empty (some bytes) = bytes

known_back : (r : Admin.AdminResponse) → decoded (or_empty (encoded r)) ≡ some (known r)
known_back (Admin.vk_token token url) =
    rw (take-append (length token) token url refl, drop-append (length token) token url refl) refl
known_back (Admin.error message) = refl
known_back (Admin.metrics text) = refl
known_back (Admin.rotated count) = refl

json : SameJson cli codecs
json = record {
  command_read = λ seq bytes h. ap (λ o. read_seq (or_empty o)) (sym h);
  short = λ seq bytes h. let e : 1 ≡ length bytes = ap (λ o. length (or_empty o)) h in omega arith;
  response_known = λ r bytes h. ap (λ o. decoded (or_empty o)) (sym h) ∙ known_back r;
}

abbrev writer : Writer
writer = record { sent = []; room = 9000; flushes = true }

abbrev cdraws : CliDraws
cdraws = record { x25519_secret = 6 ∷ []; kem_randomness = 8 ∷ []; sign_randomness = 9 ∷ [] }

abbrev no_link : Link
no_link = record { channel = new [] 0; input = []; output = writer }

abbrev link_of : Result CliError Link → Link
link_of (ok l) = l
link_of (err e) = no_link

abbrev setup : AdminSetup
setup = record {
  signing_key = (generate_keypair toy_dsa seed).0;
  verifying_key = (generate_keypair toy_dsa seed).1;
  cp_vk = (generate_keypair toy_dsa []).1;
  tls_base_url = codes "https://bridge";
  vk_share_max_tokens = 10;
}

abbrev services : AdminServices
services = record { cmd_seq = 6; vk_store = []; rotations = 0 }

hello_fits : length hello ≤ 9000
unfolding server_hello_bytes Handshake.new
hello_fits = omega arith

-- The request of the tool at the time 7, which nothing follows.
requested : Result CliError Link
requested =
    request toy_dsa toy_x25519 toy_kem toy_hkdf toy_aead cli cdraws
      (generate_keypair toy_dsa seed).1 (generate_keypair toy_dsa []).0 7
      (record { input = hello ++ []; output = writer })

abbrev visit : Visit
visit = record {
  elapsed = false;
  stream = record { input = (link_of requested).output.sent; output = writer };
  draws = draws;
  randomness = [];
  now = 0;
  token = codes "t";
  rendered = [];
  connections_active = 1;
}

went_out : requested ≡ ok (link_of requested)
unfolding requested request handshake Stream.read_exact server_hello_bytes Handshake.new
    parse_server_hello_signed signature_from_bytes verify text_eq client_respond derive_session_key
    serialize_client_response_signed sign Stream.write_all serialize_client_response send_command
    sent_command write_frame open_channel flush write_all data_nonce new parse_server_hello
    generate_keypair to_be_bytes read_exact
went_out = refl

served : Served
served =
    handle_admin_connection toy_dsa toy_x25519 toy_kem toy_hkdf toy_aead codecs (λ bs. bs) setup
      visit services

abbrev made : Admin.AdminResponse × AdminServices
made =
    handled toy_dsa toy_x25519 toy_kem toy_hkdf toy_aead toy_dsa_laws toy_x25519_laws toy_kem_laws
      toy_aead_laws cli codecs json (λ bs. bs) setup visit services 7

abbrev link_after :
    Option (Admin.AdminResponse × Option (Result FrameError (Unit {0}) × Link)) → Link
link_after none = no_link
link_after (some (answer, none)) = no_link
link_after (some (answer, some (r, l))) = l

-- The response of this bridge is written.
wrote_back : served.response ≡ some (made.0, some (ok tt, link_after served.response))
unfolding served requested request handshake Stream.read_exact server_hello_bytes Handshake.new
    parse_server_hello_signed signature_from_bytes verify text_eq client_respond derive_session_key
    serialize_client_response_signed sign Stream.write_all serialize_client_response send_command
    sent_command write_frame open_channel flush write_all data_nonce new parse_server_hello
    generate_keypair to_be_bytes read_exact handle_admin_connection Admin.after_handshake
    Admin.do_handshake Admin.read_command Admin.check_sequence Admin.carry_out Admin.dispatch
    Admin.handle_get_vk_token Admin.is_seq_valid Admin.open_channel complete_from_wire_signed
    complete_from_wire complete server_hello_signed_bytes read_frame frame_arm read_data
    read_payload from_be_bytes create_token insert hex_encode retain
wrote_back = refl

short_answer : (bytes : Bytes) → encoded made.0 ≡ some bytes → length bytes ≤ 64 * 1024
unfolding Admin.handle_get_vk_token create_token insert retain
short_answer bytes h =
    let e : length (or_empty (encoded made.0)) ≡ length bytes = ap (λ o. length (or_empty o)) h in
    omega arith

request-handle_admin_connection_example :
    (served.command ≡ some (record { seq = 7; cmd = Admin.get_vk_token }))
    × (served.services ≡ made.1)
    × Responds toy_dsa toy_x25519 toy_kem toy_hkdf toy_aead toy_dsa_laws toy_x25519_laws
        toy_kem_laws toy_aead_laws cli codecs json
        (λ bs. bs)
        setup
        made.0
        ([] ++ hello)
        (link_of requested)
        served.response
unfolding served requested
request-handle_admin_connection_example =
    request-handle_admin_connection toy_dsa toy_x25519 toy_kem toy_hkdf toy_aead toy_dsa_laws
      toy_x25519_laws toy_kem_laws toy_aead_laws cli codecs json (λ bs. bs) setup visit services
      cdraws 7 seed [] hello [] writer (link_of requested) refl refl refl refl greeting hello_fits
      refl went_out refl (omega arith) short_answer
