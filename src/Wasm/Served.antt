-- ===== src/Wasm/Served.antt =====
-- The browser's handshake (latticeshield-wasm/src/handshake.rs) against the server of latticeshield-crypto/src/handshake.rs.
use latticeshield.Prelude.{
  ◌≡◌, sym, ap, ◌∙◌, ==_iff, length, ok, map_err, bind-ok, ok_injective, map_err-ok,
}
use latticeshield.Prelude.Bytes.{Bytes}
use latticeshield.Crypto.Primitives.{Hkdf}
use latticeshield.Crypto.Signing.{MlDsa, MlDsaLaws, generate_keypair}
use latticeshield.Crypto.Handshake.{
  X25519, X25519Laws, MlKem, MlKemLaws, ServerDraws, new, server_hello_signed_bytes,
  complete_from_wire,
}
use latticeshield.Crypto.Handshake.Sizes.{length-server_hello_signed_bytes}
use latticeshield.Crypto.Handshake.Agreement.{
  parse_server_hello_signed-server_hello_signed_bytes, complete_from_wire-client_respond,
}
use latticeshield.Wasm.{generate_client_response}
use latticeshield.Wasm.Native.{renamed, native, generate_client_response-native}

module _ {Dk Ek : Type 0} (dsa : MlDsa) (x : X25519) (kem : MlKem Dk Ek) (hkdf : Hkdf)
    (dsa_laws : MlDsaLaws dsa) (x_laws : X25519Laws x) (kem_laws : MlKemLaws kem) where
  -- Where the browser has answered the signed hello of a server whose key it knows, that server completes the
  -- handshake with the bytes of the answer, and the two have the same session key.
  pub complete_from_wire-generate_client_response :
      (draws : ServerDraws) (seed sig_randomness hello secret randomness response key : Bytes)
      → length draws.nonce ≡ 32
      → server_hello_signed_bytes dsa x kem hkdf
          (new dsa x kem hkdf draws)
          (generate_keypair dsa seed).0
          sig_randomness
        ≡ ok hello
      → generate_client_response dsa x kem hkdf hello
          (generate_keypair dsa seed).1
          secret
          randomness
        ≡ ok (response, key)
      → complete_from_wire dsa x kem hkdf (new dsa x kem hkdf draws) response ≡ ok key
  unfolding generate_keypair
  complete_from_wire-generate_client_response draws seed sig_randomness hello secret randomness
        response key n g h =
      let vk = (generate_keypair dsa seed).1 in
      let whole = (==_iff _ _).1 (
        length-server_hello_signed_bytes dsa x kem hkdf dsa_laws x_laws kem_laws draws seed
          sig_randomness hello n g) in
      let key_whole = (==_iff _ _).1 (dsa_laws.length-vk seed) in
      let parsed =
        parse_server_hello_signed-server_hello_signed_bytes dsa x kem hkdf dsa_laws x_laws kem_laws
          draws seed sig_randomness hello n g in
      let renamed_h : map_err renamed (native dsa x kem hkdf hello vk secret randomness)
          ≡ ok (response, key) =
        rw
          (
            generate_client_response-native dsa x kem hkdf hello vk secret randomness,
            whole,
            key_whole,
          )
          at h in
      let same = rw parsed at (map_err-ok renamed _ _ renamed_h) in
      let (out, answered, written) = bind-ok _ same in
      let completed =
        complete_from_wire-client_respond dsa x kem hkdf dsa_laws x_laws kem_laws draws secret
          randomness out.0 out.1 answered in
      ap (λ r. complete_from_wire dsa x kem hkdf (new dsa x kem hkdf draws) r.0)
        (sym (ok_injective written))
      ∙ completed
      ∙ ap (λ r. ok r.1) (ok_injective written)
