-- ===== src/Bridge/Admin/Rate.antt =====
-- The limit on connections per second in `spawn_admin_listener` of latticeshield-bridge/src/admin.rs. Times are nanoseconds.
use latticeshield.Prelude.{
  ℕ, ◌+◌, ◌-◌, ◌%◌, ◌^◌, ◌≤◌, ◌<◌, Bool, not, List, [], ◌∷◌, length, All, ltb, leb, if◌then◌else◌,
  arith,
}

abbrev pub second : ℕ
second = 1000000000

pub record RateWindow : Type 0 where
  pub rate_window_start : ℕ
  pub rate_count : ℕ

-- The two readings of the clock for a connection: for the age of the window, and for the start of a new one.
pub record Arrival : Type 0 where
  pub seen : ℕ
  pub restarted : ℕ

-- The window in which a connection is counted.
unfoldable pub rolled : Arrival → RateWindow → RateWindow
rolled a w =
    if leb second (a.seen - w.rate_window_start)
    then record { rate_window_start = a.restarted; rate_count = 0 }
    else w

-- Whether the connection is taken, and the window afterwards.
unfoldable pub take_connection : (limit : ℕ) → Arrival → RateWindow → Bool × RateWindow
take_connection limit a w =
    let v = rolled a w in
    let count : ℕ = (v.rate_count + 1) % 2 ^ 32 in
    (not (ltb limit count), record v { rate_count = count })

-- How many of the connections are taken.
unfoldable pub taken : (limit : ℕ) → List Arrival → RateWindow → ℕ
taken limit [] w = 0
taken limit (a ∷ arrivals) w =
    let (b, v) = take_connection limit a w in
    let rest : ℕ = taken limit arrivals v in if b then rest + 1 else rest

-- Arrivals before the end of the window.
abbrev Within : RateWindow → List Arrival → Type 0
Within w = All λ a. a.seen < w.rate_window_start + second

taken-Within :
    (limit : ℕ) (arrivals : List Arrival) (w : RateWindow)
    → Within w arrivals
    → w.rate_count + length arrivals < 2 ^ 32
    → taken limit arrivals w ≤ limit - w.rate_count
unfolding taken take_connection rolled
taken-Within limit [] w h fits = omega arith
taken-Within limit (a ∷ arrivals) w h fits =
    let count : RateWindow = record w { rate_count = (w.rate_count + 1) % 2 ^ 32 } in
    ground (arith, taken-Within limit arrivals count h.1 (omega arith))

-- Arrivals within one second from `begin` on.
abbrev pub InSecond : (begin : ℕ) → List Arrival → Type 0
InSecond begin = All λ a. (begin ≤ a.restarted) × (a.seen < begin + second)

in_window :
    (begin : ℕ) (w : RateWindow) (arrivals : List Arrival)
    → begin ≤ w.rate_window_start
    → InSecond begin arrivals
    → Within w arrivals
in_window begin w [] h s = tt
in_window begin w (a ∷ arrivals) h s = (omega (arith, s.0.1), in_window begin w arrivals h s.1)

-- Whatever the state of the window, of the connections that arrive within any one second at most twice
-- `rate_limit_per_second` are taken, where they and those counted before are below 2^32: at most what is left of the
-- limit in the current window, and one whole limit in a window that begins in this second.
pub taken-InSecond :
    (limit begin : ℕ) (arrivals : List Arrival) (w : RateWindow)
    → InSecond begin arrivals
    → w.rate_count + length arrivals < 2 ^ 32
    → taken limit arrivals w ≤ (limit - w.rate_count) + limit
unfolding taken take_connection rolled
taken-InSecond limit begin [] w s fits = omega arith
taken-InSecond limit begin (a ∷ arrivals) w s fits =
    let kept : RateWindow = record w { rate_count = (w.rate_count + 1) % 2 ^ 32 } in
    let anew : RateWindow = record { rate_window_start = a.restarted; rate_count = 1 } in
    ground (
      arith,
      taken-InSecond limit begin arrivals kept s.1 (omega arith),
      taken-Within limit arrivals anew (in_window begin anew arrivals s.0.0 s.1) (omega arith),
    )
