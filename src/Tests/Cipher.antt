-- ===== src/Tests/Cipher.antt =====
-- A cipher and a key derivation that satisfy the laws and can be run. They hide nothing.
use latticeshield.Prelude.{
  ℕ, ◌≡◌, ◌++◌, length, length-append, length-take, length-replicate, take, replicate, leb, le→leb,
  if◌then◌else◌, Option, none, some, arith,
}
use latticeshield.Prelude.Bytes.{Bytes}
use latticeshield.Prelude.Text.{text_eq, text_eq_iff}
use latticeshield.Crypto.Primitives.{Aead, AeadLaws, Hkdf, HkdfLaws}

abbrev tag_of : Bytes → Bytes → Bytes → Bytes
tag_of key nonce aad = take 16 (key ++ (aad ++ (nonce ++ replicate 16 0)))

abbrev open_with : Bytes → Bytes → Bytes → Bytes → Bytes → Option Bytes
open_with key nonce aad ct tag = if text_eq tag (tag_of key nonce aad) then some ct else none

abbrev pub toy_aead : Aead
toy_aead = record {
  encrypt = λ key nonce aad text. some (text, tag_of key nonce aad);
  decrypt = open_with;
}

length-tag_of : (key nonce aad : Bytes) → length (tag_of key nonce aad) ≡ 16
length-tag_of key nonce aad = omega (
  arith,
  length-take 16 (key ++ (aad ++ (nonce ++ replicate 16 0))),
  length-append key (aad ++ (nonce ++ replicate 16 0)),
  length-append aad (nonce ++ replicate 16 0),
  length-append nonce (replicate 16 0),
)

pub toy_aead_laws : AeadLaws toy_aead
toy_aead_laws = record {
  decrypt-encrypt =
      λ key nonce aad text ct tag e. ground (arith, (text_eq_iff tag (tag_of key nonce aad)));
  length-ct = λ key nonce aad text ct tag e. ground arith;
  length-tag = λ key nonce aad text ct tag e. ground (arith, length-tag_of key nonce aad);
  length-text = λ key nonce aad ct tag text e. ground arith;
}

abbrev expand_with : Bytes → Bytes → Bytes → ℕ → Option Bytes
expand_with salt ikm info len =
    if leb len 8160 then some (take len (salt ++ (ikm ++ replicate len 0))) else none

abbrev pub toy_hkdf : Hkdf
toy_hkdf = record { expand = expand_with }

pub toy_hkdf_laws : HkdfLaws toy_hkdf
toy_hkdf_laws = record {
  expands = λ salt ikm info len h. (
    take len (salt ++ (ikm ++ replicate len 0)),
    rw (le→leb len 8160 h),
    omega (
      arith,
      length-take len (salt ++ (ikm ++ replicate len 0)),
      length-append salt (ikm ++ replicate len 0),
      length-append ikm (replicate len 0),
      length-replicate {A = ℕ} len 0,
    ),
  );
}
