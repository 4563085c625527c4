-- ===== src/Tests/Browser.antt =====
-- A handshake between a bridge and a browser, and what the browser refuses.
use latticeshield.Prelude.{◌≡◌, refl, [], ◌∷◌, take, Result, ok, err}
use latticeshield.Prelude.Bytes.{Bytes}
use latticeshield.Prelude.Text.{text_eq}
use latticeshield.Crypto.Signing.{generate_keypair}
use latticeshield.Crypto.Handshake.{new, server_hello_bytes, complete_from_wire}
use latticeshield.Wasm.{
  WasmError, handshake_error, wrong_hello_length, generate_client_response,
  parse_server_hello_signed, signature_from_bytes, verifying_key_from_bytes, client_respond,
  derive_session_key,
}
use latticeshield.Wasm.Native.{generate_client_response-native}
use latticeshield.Wasm.Served.{complete_from_wire-generate_client_response}
use latticeshield.Tests.Cipher.{toy_hkdf}
use latticeshield.Tests.Exchange.{
  toy_dsa, toy_dsa_laws, toy_x25519, toy_x25519_laws, toy_kem, toy_kem_laws,
}
use latticeshield.Tests.Sessions.{draws, seed, hello, greeting}

-- A hello that is a byte short.
generate_client_response-native_example :
    generate_client_response toy_dsa toy_x25519 toy_kem toy_hkdf
      (take 4556 hello)
      (generate_keypair toy_dsa seed).1
      (6 ∷ [])
      (8 ∷ [])
    ≡ err (handshake_error (wrong_hello_length 4556))
unfolding server_hello_bytes new
generate_client_response-native_example =
    generate_client_response-native toy_dsa toy_x25519 toy_kem toy_hkdf (take 4556 hello)
      (generate_keypair toy_dsa seed).1 (6 ∷ []) (8 ∷ [])

abbrev answer_of : Result WasmError (Bytes × Bytes) → Bytes × Bytes
answer_of (ok r) = r
answer_of (err e) = ([], [])

answered : Result WasmError (Bytes × Bytes)
answered =
    generate_client_response toy_dsa toy_x25519 toy_kem toy_hkdf hello
      (generate_keypair toy_dsa seed).1 (6 ∷ []) (8 ∷ [])

went_well : answered ≡ ok ((answer_of answered).0, (answer_of answered).1)
unfolding answered generate_client_response server_hello_bytes new generate_keypair
    parse_server_hello_signed signature_from_bytes verifying_key_from_bytes text_eq client_respond
    derive_session_key
went_well = refl

complete_from_wire-generate_client_response_example :
    complete_from_wire toy_dsa toy_x25519 toy_kem toy_hkdf
      (new toy_dsa toy_x25519 toy_kem toy_hkdf draws)
      (answer_of answered).0
    ≡ ok (answer_of answered).1
unfolding answered
complete_from_wire-generate_client_response_example =
    complete_from_wire-generate_client_response toy_dsa toy_x25519 toy_kem toy_hkdf toy_dsa_laws
      toy_x25519_laws toy_kem_laws draws seed [] hello (6 ∷ []) (8 ∷ []) (answer_of answered).0
      (answer_of answered).1 refl greeting went_well
