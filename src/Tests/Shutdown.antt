-- ===== src/Tests/Shutdown.antt =====
-- A drain with a session that ends in time and one that has ended, and one with sessions that never end.
use latticeshield.Prelude.{◌+◌, ◌*◌, ◌≤◌, ◌≡◌, List, [], ◌∷◌, length, none, some, arith}
use latticeshield.Bridge.Server.{EndsAt, Listeners, waited_for, drain}
use latticeshield.Bridge.Server.Drain.{unfinished, drain-accounts, drain-in_time}

abbrev listeners : Listeners
listeners = record {
  tls = some (some 100);
  quic = none;
  admin = some (some 101);
  ws = none;
  control_plane = none;
  metrics = some 100;
}

abbrev ending : List EndsAt
ending = some 110 ∷ some 7 ∷ []

abbrev endless : List EndsAt
endless = none ∷ none ∷ some 120 ∷ []

drain-accounts_example :
    let d = drain 30 endless listeners 100 in
    (100 + d.given_up * 30 ≤ d.now)
    × (d.now ≤ 100 + length (waited_for endless listeners) * 30)
    × (unfinished d.now (waited_for endless listeners) ≤ d.given_up)
    × (d.given_up ≤ length (waited_for endless listeners))
drain-accounts_example = drain-accounts 30 endless listeners 100

drain-in_time_example :
    let d = drain 30 ending listeners 100 in
    (d.now ≤ 130) × (d.given_up ≡ 0) × (unfinished d.now (waited_for ending listeners) ≡ 0)
drain-in_time_example =
    drain-in_time 30 ending listeners 100
      (omega arith, (omega arith, (omega arith, (omega arith, (omega arith, tt)))))
