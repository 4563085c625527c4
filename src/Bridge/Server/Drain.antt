-- ===== src/Bridge/Server/Drain.antt =====
-- How long the drain phase of latticeshield-bridge/src/server.rs takes.
use latticeshield.Prelude.{
  ℕ, ◌+◌, ◌*◌, ◌≤◌, ◌≡◌, ◌⊎◌, inl, inr, refl, ap, ◌∙◌, true, List, [], ◌∷◌, length, leb,
  if◌then◌else◌, none, some, All, Bool-cases, arith,
}
use latticeshield.Bridge.Server.{
  EndsAt, Drained, wait_for, wait_for_all, Listeners, waited_for, drain,
}

abbrev pub EndsBy : ℕ → EndsAt → Type 0
EndsBy deadline none = ⊥
EndsBy deadline (some t) = t ≤ deadline

-- The wait for one task at most adds the timeout; where the task is not given up, it has ended.
abbrev Waited : ℕ → EndsAt → Drained → Drained → Type 0
Waited timeout h d d' =
    (d.now ≤ d'.now)
    × (d'.now ≤ d.now + timeout)
    × ((EndsBy d'.now h × (d'.given_up ≡ d.given_up))
        ⊎ ((d'.now ≡ d.now + timeout) × (d'.given_up ≡ d.given_up + 1)))

wait_for-Waited :
    (timeout : ℕ) (h : EndsAt) (d : Drained) → Waited timeout h d (wait_for timeout h d)
unfolding wait_for
wait_for-Waited timeout none d = (omega arith, omega arith, inr (refl, refl))
wait_for-Waited timeout (some t) d = elim (Bool-cases (leb t (d.now + timeout))) [
  | inl soon ↦ rw soon (omega arith, ground arith, inl (omega arith, refl))
  | inr late ↦ rw late (omega arith, omega arith, inr (refl, refl))
]

-- A task that ends within the timeout of the start of the drain is not given up, whatever was waited for before it.
wait_for-in_time :
    (timeout start : ℕ) (h : EndsAt) (d : Drained)
    → EndsBy (start + timeout) h
    → start ≤ d.now
    → d.now ≤ start + timeout
    → ((wait_for timeout h d).now ≤ start + timeout)
      × ((wait_for timeout h d).given_up ≡ d.given_up)
unfolding wait_for
wait_for-in_time timeout start none d e low high = absurd e
wait_for-in_time timeout start (some t) d e low high =
    let soon : leb t (d.now + timeout) ≡ true = ground arith in rw soon (omega arith, refl)

-- How many tasks have not ended at this time.
abbrev pub late : ℕ → EndsAt → ℕ
late now none = 1
late now (some t) = if leb t now then 0 else 1

abbrev pub unfinished : ℕ → List EndsAt → ℕ
unfinished now [] = 0
unfinished now (h ∷ handles) = late now h + unfinished now handles

late-EndsBy : (now later : ℕ) (h : EndsAt) → EndsBy now h → now ≤ later → late later h ≡ 0
late-EndsBy now later none e low = absurd e
late-EndsBy now later (some t) e low =
    let ended : leb t later ≡ true = ground arith in rw ended refl

late_one : (now : ℕ) (h : EndsAt) → late now h ≤ 1
late_one now none = omega arith
late_one now (some t) = ground arith

abbrev Accounted : ℕ → List EndsAt → Drained → Drained → Type 0
Accounted timeout handles d e =
    (d.now ≤ e.now)
    × (d.now + e.given_up * timeout ≤ e.now + d.given_up * timeout)
    × (e.now ≤ d.now + length handles * timeout)
    × (unfinished e.now handles + d.given_up ≤ e.given_up)
    × (e.given_up ≤ d.given_up + length handles)

first-Accounted :
    (timeout : ℕ) (h : EndsAt) (handles : List EndsAt) (d m e : Drained)
    → Waited timeout h d m
    → Accounted timeout handles m e
    → Accounted timeout (h ∷ handles) d e
first-Accounted timeout h handles d m e (up, most, inl (ended, same)) (a0, a1, a2, a3, a4) =
    let done = late-EndsBy m.now e.now h ended a0 in
    (omega arith, grind arith, grind arith, grind arith, grind arith)
first-Accounted timeout h handles d m e (up, most, inr (waited, more)) (a0, a1, a2, a3, a4) =
    let one = late_one e.now h in
    let product : m.given_up * timeout ≡ d.given_up * timeout + timeout =
      ap (λ g. g * timeout) more ∙ omega arith in
    (omega arith, omega arith, grind arith, grind arith, grind arith)

wait_for_all-Accounted :
    (timeout : ℕ) (handles : List EndsAt) (d : Drained)
    → Accounted timeout handles d (wait_for_all timeout handles d)
unfolding wait_for_all
wait_for_all-Accounted timeout [] d =
    (omega arith, omega arith, omega arith, omega arith, omega arith)
wait_for_all-Accounted timeout (h ∷ handles) d =
    first-Accounted timeout h handles d (wait_for timeout h d)
      (wait_for_all timeout handles (wait_for timeout h d)) (wait_for-Waited timeout h d)
      (wait_for_all-Accounted timeout handles (wait_for timeout h d))

-- The drain takes at least the timeout for every task that it gives up and at most the timeout for every task, of which there
-- is one for every session that was ever accepted and for every listener; and at its end at most as many tasks still run as it has given up.
pub drain-accounts :
    (timeout : ℕ) (sessions : List EndsAt) (l : Listeners) (start : ℕ)
    → let d = drain timeout sessions l start in
      (start + d.given_up * timeout ≤ d.now)
      × (d.now ≤ start + length (waited_for sessions l) * timeout)
      × (unfinished d.now (waited_for sessions l) ≤ d.given_up)
      × (d.given_up ≤ length (waited_for sessions l))
unfolding drain
drain-accounts timeout sessions l start =
    let a =
      wait_for_all-Accounted timeout (waited_for sessions l)
        (record { now = start; given_up = 0 }) in
    (omega arith, a.2, omega arith, omega arith)

wait_for_all-in_time :
    (timeout start : ℕ) (handles : List EndsAt) (d : Drained)
    → All (EndsBy (start + timeout)) handles
    → start ≤ d.now
    → d.now ≤ start + timeout
    → let e = wait_for_all timeout handles d in
      (e.now ≤ start + timeout) × (e.given_up ≡ d.given_up)
unfolding wait_for_all
wait_for_all-in_time timeout start [] d a low high = (high, refl)
wait_for_all-in_time timeout start (h ∷ handles) d a low high =
    let (on_time, same) = wait_for-in_time timeout start h d a.0 low high in
    let rest =
      wait_for_all-in_time timeout start handles (wait_for timeout h d) a.1
        (omega (arith, (wait_for-Waited timeout h d).0)) on_time in
    (rest.0, rest.1 ∙ same)

-- Where all sessions and listeners end within the timeout of the start of the drain, it ends within that timeout too, however
-- many they are, gives none of them up, and all have ended.
pub drain-in_time :
    (timeout : ℕ) (sessions : List EndsAt) (l : Listeners) (start : ℕ)
    → All (EndsBy (start + timeout)) (waited_for sessions l)
    → let d = drain timeout sessions l start in
      (d.now ≤ start + timeout) × (d.given_up ≡ 0) × (unfinished d.now (waited_for sessions l) ≡ 0)
unfolding drain
drain-in_time timeout sessions l start a =
    let from_start : Drained = record { now = start; given_up = 0 } in
    let (on_time, none_late) =
      wait_for_all-in_time timeout start (waited_for sessions l) from_start a (omega arith)
        (omega arith) in
    let all = wait_for_all-Accounted timeout (waited_for sessions l) from_start in
    (on_time, none_late, omega arith)
