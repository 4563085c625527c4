-- ===== src/Tests/Exchange.antt =====
-- Signatures and key exchanges that satisfy the laws and can be run. They hide nothing.
use latticeshield.Prelude.{
  ℕ, ◌+◌, ◌≡◌, refl, sym, ap, ◌∙◌, [], ◌∷◌, ◌++◌, length, length-append, length-take,
  length-replicate, take, replicate, Option, none, some, arith,
}
use latticeshield.Prelude.Bytes.{Bytes}
use latticeshield.Prelude.Text.{text_eq, text_eq_iff}
use latticeshield.Crypto.Signing.{MlDsa, MlDsaLaws}
use latticeshield.Crypto.Handshake.{X25519, X25519Laws, MlKem, MlKemLaws}

abbrev pub the_signature : Bytes
the_signature = replicate 3309 7

abbrev pub toy_dsa : MlDsa
toy_dsa = record {
  generate_key_pair = λ seed. (replicate 4032 0, replicate 1952 0);
  sign_with = λ sk msg context randomness. some the_signature;
  verifies = λ vk msg context sig. text_eq sig the_signature;
}

signature_of : (sig : Bytes) → some the_signature ≡ some sig → the_signature ≡ sig
signature_of sig h = ap (λ o. elim o [ none ↦ [] | some s ↦ s ]) h

pub toy_dsa_laws : MlDsaLaws toy_dsa
toy_dsa_laws = record {
  verifies-sign_with = λ seed msg context randomness sig h.
      (text_eq_iff sig the_signature).1 (sym (signature_of sig h));
  length-sig = λ sk msg context randomness sig h.
      ap length (sym (signature_of sig h)) ∙ length-replicate {A = ℕ} 3309 7;
  length-sk = λ seed. length-replicate {A = ℕ} 4032 0;
  length-vk = λ seed. length-replicate {A = ℕ} 1952 0;
}

abbrev head : Bytes → ℕ
head [] = 0
head (b ∷ bs) = b

abbrev public : Bytes → Bytes
public [] = replicate 32 0
public (b ∷ bs) = b ∷ replicate 31 0

abbrev pub toy_x25519 : X25519
toy_x25519 = record { public_key = public; diffie_hellman = λ a p. (head a + head p) ∷ [] }

head-public : (a : Bytes) → head (public a) ≡ head a
head-public [] = refl
head-public (b ∷ bs) = refl

length-public : (a : Bytes) → length (public a) ≡ 32
length-public [] = refl
length-public (b ∷ bs) = refl

add_heads : (a b : Bytes) → head a + head (public b) ≡ head b + head (public a)
add_heads a b = omega (arith, head-public a, head-public b)

pub toy_x25519_laws : X25519Laws toy_x25519
toy_x25519_laws = record {
  commutes = λ a b. ap (λ n. n ∷ []) (add_heads a b);
  length-public_key = length-public;
}

-- The one key for encapsulation; the ciphertext starts with the secret.
abbrev pub KemKey : Type 0
KemKey = Unit {0}

abbrev pub ciphertext : Bytes → Bytes
ciphertext randomness = take 1088 (randomness ++ replicate 1088 0)

abbrev pub toy_kem : MlKem KemKey KemKey
toy_kem = record {
  generate = λ seed. (tt, tt);
  as_bytes = λ ek. replicate 1184 0;
  from_bytes = λ bs. tt;
  encapsulate = λ ek randomness. some (ciphertext randomness, take 32 (ciphertext randomness));
  decapsulate = λ dk ct. some (take 32 ct);
}

encapsulated :
    (randomness ct ss : Bytes)
    → ◌≡◌ {A = Option (Bytes × Bytes)}
        (some (ciphertext randomness, take 32 (ciphertext randomness)))
        (some (ct, ss))
    → ◌≡◌ {A = Bytes × Bytes} (ciphertext randomness, take 32 (ciphertext randomness)) (ct, ss)
encapsulated randomness ct ss h =
    ap {B = Bytes × Bytes} (λ o. elim o [ none ↦ ([], []) | some p ↦ p ]) h

length-ciphertext : (randomness : Bytes) → length (ciphertext randomness) ≡ 1088
length-ciphertext randomness = omega (
  arith,
  length-take 1088 (randomness ++ replicate 1088 0),
  length-append randomness (replicate 1088 0),
  length-replicate {A = ℕ} 1088 0,
)

pub toy_kem_laws : MlKemLaws toy_kem
toy_kem_laws = record {
  decapsulate-encapsulate = λ seed randomness ct ss h.
      let p = encapsulated randomness ct ss h in
      ap some (ap (λ q. take 32 q.0) (sym p) ∙ ap (λ q. q.1) p);
  from_bytes-as_bytes = λ ek. refl;
  length-as_bytes = λ ek. length-replicate {A = ℕ} 1184 0;
  length-ct = λ ek randomness ct ss h.
      ap (λ q. length q.0) (sym (encapsulated randomness ct ss h)) ∙ length-ciphertext randomness;
}
