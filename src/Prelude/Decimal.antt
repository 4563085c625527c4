-- ===== src/Prelude/Decimal.antt =====
-- A number as `format!("{}")` writes it.
use Prim.Native.Nat.{ℕ, zero, suc, ◌+◌, ◌-◌, ◌*◌, ◌/◌, ◌%◌, ◌^◌}
use mathlib.Core.Bool.{◌&&◌}
use mathlib.Core.Option.{Option, none, some}
use mathlib.Core.List.{[], ◌∷◌, ◌++◌}
use latticeshield.Prelude.Tests.{ltb, leb, ◌==◌, if◌then◌else◌}
use latticeshield.Prelude.Text.{Text}

decimal_digits : ℕ → ℕ → Text
decimal_digits zero n = []
decimal_digits (suc fuel) n =
    let front = decimal_digits fuel (n / 10) in
    if ltb n 10 then (b'0' + n) ∷ [] else front ++ ((b'0' + n % 10) ∷ [])

-- Each round takes a digit off, so `n + 1` rounds are enough.
unfoldable pub decimal : ℕ → Text
unfolding decimal_digits
decimal n = decimal_digits (n + 1) n

digits_value : ℕ → Text → Option ℕ
digits_value acc [] = some acc
digits_value acc (c ∷ s) =
    let rest = digits_value (acc * 10 + (c - b'0')) s in
    if leb b'0' c && leb c b'9' then rest else none

abbrev in_u64 : Option ℕ → Option ℕ
in_u64 none = none
in_u64 (some n) = if ltb n (2 ^ 64) then some n else none

-- `str::parse::<u64>`, which is also that of `usize`: digits, after a plus sign if there is one.
unfoldable pub parse_u64 : Text → Option ℕ
unfolding digits_value
parse_u64 [] = none
parse_u64 (c ∷ []) = in_u64 (digits_value 0 (c ∷ []))
parse_u64 (c ∷ d ∷ s) = in_u64 (digits_value 0 (if c == b'+' then d ∷ s else c ∷ d ∷ s))
