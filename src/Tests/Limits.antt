-- ===== src/Tests/Limits.antt =====
-- The limit on connections of one address at a concrete run.
use latticeshield.Prelude.{ℕ, [], ◌∷◌, refl, arith}
use latticeshield.Prelude.Dict.{number_key, lookup, insert}
use latticeshield.Bridge.IpLimit
use latticeshield.Bridge.IpLimit.{State, admit, drop_guard, Reachable, Balanced, Reachable-Balanced}

-- With a limit of one, the address 9 connects, is turned away once, and its connection ends.
abbrev ended : State ℕ
ended = record { map = drop_guard 9 ((9, 1) ∷ []); live = [] }

run : Reachable 1 ended
unfolding admit lookup insert
run =
    IpLimit.Reachable.step
      (IpLimit.Reachable.step
        (IpLimit.Reachable.step IpLimit.Reachable.start
          (IpLimit.Step.opened 9 [] ((9, 1) ∷ []) [] refl))
        (IpLimit.Step.refused 9 ((9, 1) ∷ []) ((9, 1) ∷ []) (9 ∷ []) refl))
      (IpLimit.Step.closed 9 ((9, 1) ∷ []) [] [])

Reachable-Balanced_example : Balanced 1 ended
Reachable-Balanced_example = Reachable-Balanced 1 (omega arith) run
