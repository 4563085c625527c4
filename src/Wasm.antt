-- ===== src/Wasm.antt =====
-- latticeshield-wasm/src: signing.rs, handshake.rs and the calls of lib.rs, which run in the browser and are
-- written apart from latticeshield-crypto. The crates libcrux-ml-dsa, x25519-dalek, ml-kem and hkdf are the same
-- parameters as there; what the generator draws is an argument. The wrapping of values for JavaScript is left out.
pub mod Native
pub mod Served
use latticeshield.Prelude.{
  ℕ, ◌+◌, List, [], ◌∷◌, ◌++◌, length, take, drop, ◌==◌, not, if◌then◌else◌, Option, none, some,
  Result, ok, err, ok_or, ◌>>=?◌,
}
use latticeshield.Prelude.Bytes.{Bytes}
use latticeshield.Prelude.Text.{Text, codes}
use latticeshield.Prelude.Decimal.{decimal}
use latticeshield.Crypto.Primitives.{Hkdf}
use latticeshield.Crypto.Signing.{MlDsa}
use latticeshield.Crypto.Handshake.{X25519, MlKem, ClientHello}

abbrev pub signing_key_len : ℕ
signing_key_len = 4032

abbrev pub verifying_key_len : ℕ
verifying_key_len = 1952

abbrev pub signature_len : ℕ
signature_len = 3309

abbrev pub x25519_key_len : ℕ
x25519_key_len = 32

abbrev pub mlkem768_ek_len : ℕ
mlkem768_ek_len = 1184

abbrev pub nonce_len : ℕ
nonce_len = 32

abbrev pub server_hello_len : ℕ
server_hello_len = x25519_key_len + mlkem768_ek_len + nonce_len

abbrev pub server_hello_signed_len : ℕ
server_hello_signed_len = server_hello_len + signature_len

abbrev pub session_key_len : ℕ
session_key_len = 32

abbrev pub hkdf_info : Bytes
hkdf_info = codes "latticeshield-v1-session-key"

abbrev pub signing_context : Bytes
signing_context = codes "latticeshield-v1"

pub data WasmError : Type 0 where
  invalid_key_length invalid_signature_length : (expected got : ℕ) → WasmError
  sign_error verify_error : WasmError
  handshake_error js_error : Text → WasmError

-- `from_bytes` of the three types: the bytes, where there are as many as the type has.
unfoldable pub signing_key_from_bytes : Bytes → Result WasmError Bytes
signing_key_from_bytes bytes =
    if length bytes == signing_key_len
    then ok bytes
    else err (invalid_key_length signing_key_len (length bytes))

unfoldable pub verifying_key_from_bytes : Bytes → Result WasmError Bytes
verifying_key_from_bytes bytes =
    if length bytes == verifying_key_len
    then ok bytes
    else err (invalid_key_length verifying_key_len (length bytes))

unfoldable pub signature_from_bytes : Bytes → Result WasmError Bytes
signature_from_bytes bytes =
    if length bytes == signature_len
    then ok bytes
    else err (invalid_signature_length signature_len (length bytes))

module _ (dsa : MlDsa) where
  unfoldable pub generate_keypair : (seed : Bytes) → Bytes × Bytes
  generate_keypair seed = dsa.generate_key_pair seed

  unfoldable pub sign_msg : (sk_bytes msg randomness : Bytes) → Result WasmError Bytes
  sign_msg sk_bytes msg randomness = signing_key_from_bytes sk_bytes >>=? λ sk.
      ok_or (dsa.sign_with sk msg signing_context randomness) sign_error

  unfoldable pub verify_msg : (vk_bytes msg sig_bytes : Bytes) → Result WasmError (Unit {0})
  verify_msg vk_bytes msg sig_bytes = verifying_key_from_bytes vk_bytes >>=? λ vk.
      signature_from_bytes sig_bytes >>=? λ sig.
      if dsa.verifies vk msg signing_context sig then ok tt else err verify_error

  -- The functions that JavaScript calls test the length of the key once more, before.
  unfoldable pub wasm_sign : (sk_bytes msg randomness : Bytes) → Result WasmError Bytes
  wasm_sign sk_bytes msg randomness =
      if not (length sk_bytes == signing_key_len)
      then err (invalid_key_length signing_key_len (length sk_bytes))
      else sign_msg sk_bytes msg randomness

  unfoldable pub wasm_verify : (vk_bytes msg sig_bytes : Bytes) → Result WasmError (Unit {0})
  wasm_verify vk_bytes msg sig_bytes =
      if not (length vk_bytes == verifying_key_len)
      then err (invalid_key_length verifying_key_len (length vk_bytes))
      else verify_msg vk_bytes msg sig_bytes

-- `format!("server_hello_signed must be {} bytes, got {}")`.
abbrev pub wrong_hello_length : ℕ → Text
wrong_hello_length got =
    codes "server_hello_signed must be "
    ++ (decimal server_hello_signed_len ++ (codes " bytes, got " ++ decimal got))

module _ {Dk Ek : Type 0} (dsa : MlDsa) (x : X25519) (kem : MlKem Dk Ek) (hkdf : Hkdf) where
  unfoldable pub parse_server_hello : Bytes → ClientHello Ek
  parse_server_hello bytes = record {
    x25519_public = take x25519_key_len bytes;
    kem_encap_key = kem.from_bytes (take mlkem768_ek_len (drop x25519_key_len bytes));
    nonce = drop (x25519_key_len + mlkem768_ek_len) bytes;
  }

  unfoldable pub parse_server_hello_signed :
      (bytes vk_bytes : Bytes) → Result WasmError (ClientHello Ek)
  parse_server_hello_signed bytes vk_bytes =
      signature_from_bytes (drop server_hello_len bytes) >>=? λ sig.
      verifying_key_from_bytes vk_bytes >>=? λ vk.
      if dsa.verifies vk (take server_hello_len bytes) signing_context sig
      then ok (parse_server_hello (take server_hello_len bytes))
      else err (handshake_error (codes "server authentication failed"))

  unfoldable pub derive_session_key :
      (x25519_secret kem_secret nonce : Bytes) → Result WasmError Bytes
  derive_session_key x25519_secret kem_secret nonce =
      ok_or (hkdf.expand nonce (x25519_secret ++ kem_secret) hkdf_info session_key_len)
        (handshake_error (codes "HKDF expansion failed"))

  -- The response in bytes, and the session key.
  unfoldable pub client_respond :
      ClientHello Ek → (secret randomness : Bytes) → Result WasmError (Bytes × Bytes)
  client_respond hello secret randomness =
      ok_or (kem.encapsulate hello.kem_encap_key randomness)
        (handshake_error (codes "ML-KEM encapsulation failed"))
      >>=? λ kem_out.
          derive_session_key (x.diffie_hellman secret hello.x25519_public) kem_out.1 hello.nonce
          >>=? λ session_key. ok (x.public_key secret ++ kem_out.0, session_key)

  unfoldable pub generate_client_response :
      (server_hello_signed server_vk_bytes secret randomness : Bytes)
      → Result WasmError (Bytes × Bytes)
  generate_client_response server_hello_signed server_vk_bytes secret randomness =
      if not (length server_hello_signed == server_hello_signed_len)
      then err (handshake_error (wrong_hello_length (length server_hello_signed)))
      else if not (length server_vk_bytes == verifying_key_len)
      then err (invalid_key_length verifying_key_len (length server_vk_bytes))
      else parse_server_hello_signed server_hello_signed server_vk_bytes >>=? λ hello.
          client_respond hello secret randomness
