-- ===== src/Crypto/Primitives.antt =====
-- The third-party primitives that latticeshield-crypto calls, as parameters: AES-256-GCM of the
-- crate aes-gcm and HKDF-SHA256 of the crates hkdf and sha2. The laws are their documented behaviour.
use latticeshield.Prelude.{ℕ, ◌≤◌, ◌≡◌, Option, some, length}
use latticeshield.Prelude.Bytes.{Bytes}

-- `encrypt_in_place_detached` and `decrypt_in_place_detached`: the arguments are the key, the
-- nonce, the associated data and the text, for decryption also the tag.
pub record Aead : Type 0 where
  pub encrypt : Bytes → Bytes → Bytes → Bytes → Option (Bytes × Bytes)
  pub decrypt : Bytes → Bytes → Bytes → Bytes → Bytes → Option Bytes

-- Decryption inverts encryption; the ciphertext has the length of the text and the tag 16 bytes.
pub record AeadLaws (a : Aead) : Type 0 where
  pub decrypt-encrypt :
      (key nonce aad text ct tag : Bytes)
      → a.encrypt key nonce aad text ≡ some (ct, tag)
      → a.decrypt key nonce aad ct tag ≡ some text
  pub length-ct :
      (key nonce aad text ct tag : Bytes)
      → a.encrypt key nonce aad text ≡ some (ct, tag)
      → length ct ≡ length text
  pub length-tag :
      (key nonce aad text ct tag : Bytes)
      → a.encrypt key nonce aad text ≡ some (ct, tag)
      → length tag ≡ 16
  pub length-text :
      (key nonce aad ct tag text : Bytes)
      → a.decrypt key nonce aad ct tag ≡ some text
      → length text ≡ length ct

-- `Hkdf::<Sha256>::new(Some(salt), ikm)` and `expand(info, okm)` for an `okm` of a given length.
pub record Hkdf : Type 0 where
  pub expand : Bytes → Bytes → Bytes → ℕ → Option Bytes

-- `expand` fails only for more than 255 blocks of 32 bytes, and fills the buffer.
pub record HkdfLaws (h : Hkdf) : Type 0 where
  pub expands :
      (salt ikm info : Bytes) (len : ℕ)
      → len ≤ 8160
      → (okm : Bytes) × (h.expand salt ikm info len ≡ some okm) × (length okm ≡ len)
