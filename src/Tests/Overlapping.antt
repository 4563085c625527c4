-- ===== src/Tests/Overlapping.antt =====
-- Two connections with one number that overlap.
use latticeshield.Prelude.{ℕ, ◌≤◌, refl, [], ◌∷◌, All, arith}
use latticeshield.Bridge.Admin.{is_seq_valid}
use latticeshield.Bridge.Admin.Overlap.{
  Numbers, load_and_check, raise, Run, start, loads, raises, times, Run-times,
}

abbrev both : Numbers
both = record { cmd_seq = 5; checked = []; carried_out = 5 ∷ 5 ∷ [] }

abbrev loaded : Numbers
loaded = record { cmd_seq = 0; checked = 5 ∷ 5 ∷ []; carried_out = [] }

both_loaded : Run 2 loaded
unfolding load_and_check is_seq_valid
both_loaded = loads 5 (loads 5 start (omega arith)) (omega arith)

both_carried_out : Run 2 both
unfolding raise
both_carried_out = raises [] 5 [] (raises [] 5 (5 ∷ []) both_loaded refl) refl

Run-times_example :
    ((n : ℕ) → times n both.carried_out ≤ 2) × All (λ n. n ≤ both.cmd_seq) both.carried_out
Run-times_example = Run-times 2 both both_carried_out
