-- ===== src/Bridge/ControlPlane/Drift.antt =====
-- The freshness of a signed response in latticeshield-bridge/src/control_plane.rs, in the arithmetic of `i64`.
use latticeshield.Prelude.{
  ℕ, ◌+◌, ◌-◌, ◌^◌, ◌≤◌, ◌<◌, ◌≡◌, ◌↔◌, Bool, true, not, ltb, leb, min, if◌then◌else◌, Option, none,
  some, arith,
}

-- `negsuc n` is -(n + 1).
pub data ℤ : Type 0 where
  pos negsuc : ℕ → ℤ

abbrev i64_max : ℕ
i64_max = 2 ^ 63 - 1

-- `as i64` of a `u64`.
unfoldable pub to_i64 : ℕ → ℤ
to_i64 n = if leb n i64_max then pos n else negsuc (2 ^ 64 - 1 - n)

abbrev difference : ℤ → ℤ → ℤ
difference (pos a) (pos b) = if leb b a then pos (a - b) else negsuc (b - a - 1)
difference (pos a) (negsuc b) = pos (a + b + 1)
difference (negsuc a) (pos b) = negsuc (a + b)
difference (negsuc a) (negsuc b) = if leb a b then pos (b - a) else negsuc (a - b - 1)

abbrev in_i64 : ℤ → Option ℤ
in_i64 (pos n) = if leb n i64_max then some (pos n) else none
in_i64 (negsuc n) = if leb n i64_max then some (negsuc n) else none

unfoldable pub checked_sub : ℤ → ℤ → Option ℤ
checked_sub a b = in_i64 (difference a b)

unfoldable pub saturating_abs : ℤ → ℕ
saturating_abs (pos n) = n
saturating_abs (negsuc n) = min (n + 1) i64_max

abbrev pub abs_or_max : Option ℤ → ℕ
abs_or_max none = i64_max
abs_or_max (some d) = saturating_abs d

-- The time of the bridge in seconds, and the time in the payload.
unfoldable pub drift : (now : ℕ) → (ts : ℤ) → ℕ
drift now ts = abs_or_max (checked_sub (to_i64 now) ts)

abbrev pub signed_response_freshness_secs : ℕ
signed_response_freshness_secs = 300

unfoldable pub is_fresh : (now : ℕ) → (ts : ℤ) → Bool
is_fresh now ts = not (ltb signed_response_freshness_secs (drift now ts))

-- At most five minutes apart, over the integers.
abbrev pub Near : ℕ → ℤ → Type 0
Near now (pos t) = (now ≤ t + 300) × (t ≤ now + 300)
Near now (negsuc t) = now + t + 1 ≤ 300

pub is_fresh-Near : (now : ℕ) (ts : ℤ) → now < 2 ^ 63 → (is_fresh now ts ≡ true) ↔ Near now ts
unfolding is_fresh drift checked_sub to_i64 saturating_abs
is_fresh-Near now (pos t) h = ground arith
is_fresh-Near now (negsuc t) h = ground arith
