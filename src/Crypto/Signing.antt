-- ===== src/Crypto/Signing.antt =====
-- latticeshield-crypto/src/signing.rs. ML-DSA-65 of the crate libcrux-ml-dsa is a parameter. A key or a
-- signature is its bytes; what the generator draws is an argument.
use latticeshield.Prelude.{
  ℕ, ◌≡◌, Bool, true, length, ◌==◌, if◌then◌else◌, Option, some, Result, ok, err, ok_or,
}
use latticeshield.Prelude.Bytes.{Bytes}
use latticeshield.Prelude.Text.{codes}

abbrev pub signing_key_len : ℕ
signing_key_len = 4032

abbrev pub verifying_key_len : ℕ
verifying_key_len = 1952

abbrev pub signature_len : ℕ
signature_len = 3309

abbrev pub signing_context : Bytes
signing_context = codes "latticeshield-v1"

pub data SigningError : Type 0 where
  signing verification invalid_length : SigningError

-- `portable::generate_key_pair`, `sign` and `verify`: the seed; the key, the message, the context and the
-- randomness; the key, the message, the context and the signature.
pub record MlDsa : Type 0 where
  pub generate_key_pair : Bytes → Bytes × Bytes
  pub sign_with : Bytes → Bytes → Bytes → Bytes → Option Bytes
  pub verifies : Bytes → Bytes → Bytes → Bytes → Bool

-- Signatures of a generated pair verify, and keys and signatures have their lengths.
pub record MlDsaLaws (m : MlDsa) : Type 0 where
  pub verifies-sign_with :
      (seed msg context randomness sig : Bytes)
      → m.sign_with (m.generate_key_pair seed).0 msg context randomness ≡ some sig
      → m.verifies (m.generate_key_pair seed).1 msg context sig ≡ true
  pub length-sig :
      (sk msg context randomness sig : Bytes)
      → m.sign_with sk msg context randomness ≡ some sig
      → length sig ≡ signature_len
  pub length-sk : (seed : Bytes) → length (m.generate_key_pair seed).0 ≡ signing_key_len
  pub length-vk : (seed : Bytes) → length (m.generate_key_pair seed).1 ≡ verifying_key_len

-- `try_into` of a slice to an array of `n` bytes.
abbrev exactly : ℕ → Bytes → Result SigningError Bytes
exactly n bytes = if length bytes == n then ok bytes else err invalid_length

-- `from_bytes` of the three types.
unfoldable pub signing_key_from_bytes : Bytes → Result SigningError Bytes
signing_key_from_bytes = exactly signing_key_len

unfoldable pub verifying_key_from_bytes : Bytes → Result SigningError Bytes
verifying_key_from_bytes = exactly verifying_key_len

unfoldable pub signature_from_bytes : Bytes → Result SigningError Bytes
signature_from_bytes = exactly signature_len

module _ (dsa : MlDsa) where
  unfoldable pub generate_keypair : Bytes → Bytes × Bytes
  generate_keypair seed = dsa.generate_key_pair seed

  unfoldable pub sign : Bytes → Bytes → Bytes → Result SigningError Bytes
  sign key msg randomness = ok_or (dsa.sign_with key msg signing_context randomness) signing

  unfoldable pub verify : Bytes → Bytes → Bytes → Result SigningError (Unit {0})
  verify key msg sig = if dsa.verifies key msg signing_context sig then ok tt else err verification
