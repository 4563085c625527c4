-- ===== src/Bridge/Admin/Overlap.antt =====
-- Connections to the admin channel of latticeshield-bridge/src/admin.rs that overlap: the check of the number of a command
-- loads `cmd_seq` and raises it later, and other connections come in between.
use latticeshield.Prelude.{
  ℕ, suc, ◌+◌, ◌≤◌, ◌<◌, ◌≡◌, refl, ap, ◌∙◌, inl, inr, Bool, true, false, max, List, [], ◌∷◌, ◌++◌,
  length, length-append, ltb, ltb→lt, ◌==◌, ==_iff, if◌then◌else◌, All, Bool-cases, arith,
}
use latticeshield.Bridge.Admin.{is_seq_valid}

-- `checked` are the numbers of the commands that have passed the check and whose connections have not yet raised `cmd_seq`,
-- `carried_out` those whose connections have, the latest first.
pub record Numbers : Type 0 where
  pub cmd_seq : ℕ
  pub checked : List ℕ
  pub carried_out : List ℕ

-- The `load` and the comparison, of a connection that is refused or goes on.
unfoldable pub load_and_check : (seq : ℕ) → Numbers → Bool × Numbers
load_and_check seq s =
    if is_seq_valid seq s.cmd_seq
    then (true, record s { checked = seq ∷ s.checked })
    else (false, s)

-- `fetch_max`, by a connection that had passed the check.
unfoldable pub raise : (before : List ℕ) (seq : ℕ) (after : List ℕ) → Numbers → Numbers
raise before seq after s = record {
  cmd_seq = max s.cmd_seq seq;
  checked = before ++ after;
  carried_out = seq ∷ s.carried_out;
}

-- Runs in which at most `overlap` connections are past the check and have not raised `cmd_seq`.
pub data Run (overlap : ℕ) : Numbers → Type 0 where
  start : Run overlap (record { cmd_seq = 0; checked = []; carried_out = [] })
  loads :
      (seq : ℕ) {s : Numbers}
      → Run overlap s
      → length (load_and_check seq s).1.checked ≤ overlap
      → Run overlap (load_and_check seq s).1
  raises :
      (before : List ℕ) (seq : ℕ) (after : List ℕ) {s : Numbers}
      → Run overlap s
      → s.checked ≡ before ++ (seq ∷ after)
      → Run overlap (raise before seq after s)

abbrev pub times : ℕ → List ℕ → ℕ
times n [] = 0
times n (m ∷ ms) = if n == m then suc (times n ms) else times n ms

times-append : (n : ℕ) (ms ks : List ℕ) → times n (ms ++ ks) ≡ times n ms + times n ks
times-append n [] ks = omega arith
times-append n (m ∷ ms) ks = ground (arith, times-append n ms ks)

times-length : (n : ℕ) (ms : List ℕ) → times n ms ≤ length ms
times-length n [] = omega arith
times-length n (m ∷ ms) = ground (arith, times-length n ms)

-- What holds of each number in such a run.
pub record Limited (overlap : ℕ) (s : Numbers) : Type 0 where
  pub few : length s.checked ≤ overlap
  pub fresh : (n : ℕ) → s.cmd_seq < n → times n s.carried_out ≡ 0
  pub limited : (n : ℕ) → times n s.checked + times n s.carried_out ≤ overlap

checked-Limited :
    (overlap seq : ℕ) (s : Numbers)
    → Limited overlap s
    → s.cmd_seq < seq
    → length (seq ∷ s.checked) ≤ overlap
    → Limited overlap (record s { checked = seq ∷ s.checked })
checked-Limited overlap seq s l above room = record {
  few = room;
  fresh = l.fresh;
  limited = λ n. elim (Bool-cases (n == seq)) [
    | inl same ↦
        let at = (==_iff n seq).0 same in
        let none_yet = l.fresh n (omega arith) in
        let all = times-length n s.checked in rw same (omega arith)
    | inr other ↦ rw other (l.limited n)
  ];
}

loads-Limited :
    (overlap seq : ℕ) (s : Numbers)
    → Limited overlap s
    → length (load_and_check seq s).1.checked ≤ overlap
    → Limited overlap (load_and_check seq s).1
unfolding load_and_check is_seq_valid
loads-Limited overlap seq s l = elim (Bool-cases (ltb s.cmd_seq seq)) [
  | inl newer ↦ rw newer (checked-Limited overlap seq s l (ltb→lt s.cmd_seq seq newer))
  | inr older ↦ rw older (λ room. l)
]

raises-Limited :
    (overlap : ℕ) (before : List ℕ) (seq : ℕ) (after : List ℕ) (s : Numbers)
    → Limited overlap s
    → s.checked ≡ before ++ (seq ∷ after)
    → Limited overlap (raise before seq after s)
unfolding raise
raises-Limited overlap before seq after s l split = record {
  few =
      let all = l.few in
      let whole = ap length split ∙ length-append before (seq ∷ after) in
      let parts = length-append before after in omega arith;
  fresh = λ n above.
      let old = l.fresh n (omega arith) in
      let apart : (n == seq) ≡ false = ground arith in rw apart old;
  limited = λ n.
      let old = l.limited n in
      let whole = ap (times n) split ∙ times-append n before (seq ∷ after) in
      ground (arith, old, whole, times-append n before after);
}

Run-Limited : (overlap : ℕ) {s : Numbers} → Run overlap s → Limited overlap s
Run-Limited overlap start = record {
  few = omega arith;
  fresh = λ n h. refl;
  limited = λ n. omega arith;
}
Run-Limited overlap (loads seq {s = s} r room) =
    loads-Limited overlap seq s (Run-Limited overlap r) room
Run-Limited overlap (raises before seq after {s = s} r split) =
    raises-Limited overlap before seq after s (Run-Limited overlap r) split

absent_above :
    (bound : ℕ) (ms : List ℕ) → ((n : ℕ) → bound < n → times n ms ≡ 0) → All (λ n. n ≤ bound) ms
absent_above bound [] absent = tt
absent_above bound (m ∷ ms) absent = (
  elim (Bool-cases (ltb bound m)) [
    | inl above ↦
        let none_here = absent m (ltb→lt bound m above) in
        let itself : (m == m) ≡ true = (==_iff m m).1 refl in ground (arith, none_here, itself)
    | inr below ↦ ground arith
  ],
  absent_above bound ms (λ n above. let none_here = absent n above in ground (arith, none_here)),
)

-- Of the connections that overlap, however their loads and their raises come, no number is carried out more often than
-- connections were past the check at one time: one at a time, no number is carried out twice. And no number that
-- was carried out is above the last one.
pub Run-times :
    (overlap : ℕ) (s : Numbers)
    → Run overlap s
    → ((n : ℕ) → times n s.carried_out ≤ overlap) × All (λ n. n ≤ s.cmd_seq) s.carried_out
Run-times overlap s r =
    let l = Run-Limited overlap r in
    ((λ n. let m = l.limited n in omega arith), absent_above s.cmd_seq s.carried_out l.fresh)
