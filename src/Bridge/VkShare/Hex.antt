-- ===== src/Bridge/VkShare/Hex.antt =====
-- `hex_encode` of latticeshield-bridge/src/vk_share.rs. A text is the list of its code points.
use latticeshield.Prelude.{
  ℕ, ◌+◌, ◌-◌, ◌*◌, ◌/◌, ◌%◌, ◌<◌, ◌≤◌, ◌≡◌, refl, ◌⊎◌, ap₂, List, [], ◌∷◌, length, All, ltb,
  if◌then◌else◌, arith,
}
use latticeshield.Prelude.Bytes.{Bytes}

hex_digit : ℕ → ℕ
hex_digit d = if ltb d 10 then b'0' + d else b'a' + (d - 10)

-- `{b:02x}` of each byte.
unfoldable pub hex_encode : Bytes → List ℕ
unfolding hex_digit
hex_encode [] = []
hex_encode (b ∷ bs) = hex_digit (b / 16) ∷ hex_digit (b % 16) ∷ hex_encode bs

-- A lower-case hexadecimal digit.
abbrev pub IsHexDigit : ℕ → Type 0
IsHexDigit c = ((b'0' ≤ c) × (c ≤ b'9')) ⊎ ((b'a' ≤ c) × (c ≤ b'f'))

pub length-hex_encode : (bs : Bytes) → length (hex_encode bs) ≡ 2 * length bs
unfolding hex_encode
length-hex_encode [] = refl
length-hex_encode (b ∷ bs) = omega (arith, length-hex_encode bs)

hex_digit-IsHexDigit : (d : ℕ) → d < 16 → IsHexDigit (hex_digit d)
unfolding hex_digit
hex_digit-IsHexDigit d h = ground arith

pub hex_encode-IsHexDigit : (bs : Bytes) → All (λ b. b < 256) bs → All IsHexDigit (hex_encode bs)
unfolding hex_encode
hex_encode-IsHexDigit [] h = tt
hex_encode-IsHexDigit (b ∷ bs) h = (
  hex_digit-IsHexDigit (b / 16) (omega (arith, h.0)),
  (hex_digit-IsHexDigit (b % 16) (omega arith), hex_encode-IsHexDigit bs h.1),
)

hex_digit_injective : (d e : ℕ) → d < 16 → e < 16 → hex_digit d ≡ hex_digit e → d ≡ e
unfolding hex_digit
hex_digit_injective d e h k p = ground arith

-- Two byte strings with the same hexadecimal text are equal.
pub hex_encode_injective :
    (bs cs : Bytes)
    → All (λ b. b < 256) bs
    → All (λ b. b < 256) cs
    → hex_encode bs ≡ hex_encode cs
    → bs ≡ cs
unfolding hex_encode
hex_encode_injective [] [] h k e = refl
hex_encode_injective [] (c ∷ cs) h k e = cc
hex_encode_injective (b ∷ bs) [] h k e = cc
hex_encode_injective (b ∷ bs) (c ∷ cs) h k e =
    let hi : hex_digit (b / 16) ≡ hex_digit (c / 16) = cc in
    let lo : hex_digit (b % 16) ≡ hex_digit (c % 16) = cc in
    let rest : hex_encode bs ≡ hex_encode cs = cc in
    ap₂ ◌∷◌
      (omega (
        arith,
        hex_digit_injective (b / 16) (c / 16) (omega (arith, h.0)) (omega (arith, k.0)) hi,
        hex_digit_injective (b % 16) (c % 16) (omega arith) (omega arith) lo,
      ))
      (hex_encode_injective bs cs h.1 k.1 rest)
