-- ===== src/Bridge/IpLimit.antt =====
-- The limit on connections of one address: the accept loops of latticeshield-bridge/src/server.rs and
-- `IpCountGuard` of latticeshield-bridge/src/ws.rs. The mutex makes each access one step.
use latticeshield.Prelude.{
  ℕ, zero, suc, ◌+◌, ◌-◌, ◌≤◌, ◌<◌, ◌≡◌, refl, sym, ap, ◌∙◌, inl, inr, Bool, true, false, List, [],
  ◌∷◌, ◌++◌, ltb, leb, ◌==◌, if◌then◌else◌, Option, none, some, Bool-cases, arith,
}
use latticeshield.Prelude.Dict.{
  Key, Dict, lookup, insert, remove, IsDict, lookup-insert, lookup-remove, insert-IsDict,
  remove-IsDict,
}

abbrev pub IpCounterMap : Type 0 → Type 0
IpCounterMap K = Dict K ℕ

module _ {K : Type 0} ⦃key : Key K⦄ where
  enter : ℕ → K → ℕ → IpCounterMap K → Bool × IpCounterMap K
  enter max_per_ip ip count map =
      if leb max_per_ip count
      then (false, insert ip count map)
      else (true, insert ip (count + 1) map)

  -- The block of the accept loop: `entry(peer_ip).or_insert(0)` and the comparison.
  unfoldable pub admit : ℕ → K → IpCounterMap K → Bool × IpCounterMap K
  unfolding enter
  admit max_per_ip ip map = elim (lookup ip map) [
    | none ↦ enter max_per_ip ip 0 map
    | some count ↦ enter max_per_ip ip count map
  ]

  leave : K → ℕ → IpCounterMap K → IpCounterMap K
  leave ip count map = if count == 0 then remove ip map else insert ip count map

  -- `IpCountGuard::drop`.
  unfoldable pub drop_guard : K → IpCounterMap K → IpCounterMap K
  unfolding leave
  drop_guard ip map = elim (lookup ip map) [
    | none ↦ map
    | some count ↦ leave ip (if ltb 0 count then count - 1 else count) map
  ]

-- The counters, and the addresses of the connections whose guards are alive.
pub record State (K : Type 0) : Type 0 where
  pub map : IpCounterMap K
  pub live : List K

module _ {K : Type 0} ⦃key : Key K⦄ (max_per_ip : ℕ) where
  -- A connection is accepted, is turned away, or ends.
  pub data Step : State K → State K → Type 0 where
    opened :
        (ip : K) (map map' : IpCounterMap K) (live : List K)
        → admit max_per_ip ip map ≡ (true, map')
        → Step (record { map = map; live = live }) (record { map = map'; live = ip ∷ live })
    refused :
        (ip : K) (map map' : IpCounterMap K) (live : List K)
        → admit max_per_ip ip map ≡ (false, map')
        → Step (record { map = map; live = live }) (record { map = map'; live = live })
    closed :
        (ip : K) (map : IpCounterMap K) (before after : List K)
        → Step
            (record { map = map; live = before ++ (ip ∷ after) })
            (record { map = drop_guard ip map; live = before ++ after })

  pub data Reachable : State K → Type 0 where
    start : Reachable (record { map = []; live = [] })
    step : {s t : State K} → Reachable s → Step s t → Reachable t

module _ {K : Type 0} ⦃key : Key K⦄ where
  abbrev pub open_of : K → List K → ℕ
  open_of ip [] = 0
  open_of ip (j ∷ live) = if key.same j ip then suc (open_of ip live) else open_of ip live

  open_of-append : (ip : K) (xs ys : List K) → open_of ip (xs ++ ys) ≡ open_of ip xs + open_of ip ys
  open_of-append ip [] ys = omega arith
  open_of-append ip (x ∷ xs) ys = ground (arith, open_of-append ip xs ys)

-- No entry stands for no connection.
abbrev pub counted : ℕ → Option ℕ
counted n = if n == 0 then none else some n

counted-suc : (n : ℕ) → counted (suc n) ≡ some (suc n)
counted-suc n = ground arith

one_less : (n : ℕ) → (if ltb 0 (suc n) then suc n - 1 else suc n) ≡ n
one_less n = ground arith

module _ {K : Type 0} ⦃key : Key K⦄ (max_per_ip : ℕ) where
  pub record Balanced (s : State K) : Type 0 where
    pub distinct : IsDict s.map
    pub counts : (ip : K) → lookup ip s.map ≡ counted (open_of ip s.live)
    pub below : (ip : K) → open_of ip s.live ≤ max_per_ip

  admit-counted :
      (ip : K) (map : IpCounterMap K) (n : ℕ)
      → lookup ip map ≡ counted n
      → admit max_per_ip ip map
        ≡ (if leb max_per_ip n then (false, insert ip n map) else (true, insert ip (n + 1) map))
  unfolding admit
  admit-counted ip map zero h = rw (h, admit) refl
  admit-counted ip map (suc n) h = rw (h ∙ counted-suc n, admit) refl

  admitted :
      (ip : K) (map map' : IpCounterMap K) (n : ℕ)
      → lookup ip map ≡ counted n
      → admit max_per_ip ip map ≡ (true, map')
      → (n < max_per_ip) × (map' ≡ insert ip (n + 1) map)
  admitted ip map map' n l h = elim (Bool-cases (leb max_per_ip n)) [
    | inl f ↦ cc (rw f at (sym h ∙ admit-counted ip map n l))
    | inr f ↦ (ground arith, ap (λ r. r.1) (rw f at (sym h ∙ admit-counted ip map n l)))
  ]

  turned_away :
      (ip : K) (map map' : IpCounterMap K) (n : ℕ)
      → lookup ip map ≡ counted n
      → admit max_per_ip ip map ≡ (false, map')
      → (max_per_ip ≤ n) × (map' ≡ insert ip n map)
  turned_away ip map map' n l h = elim (Bool-cases (leb max_per_ip n)) [
    | inl f ↦ (ground arith, ap (λ r. r.1) (rw f at (sym h ∙ admit-counted ip map n l)))
    | inr f ↦ cc (rw f at (sym h ∙ admit-counted ip map n l))
  ]

  opened-Balanced :
      (ip : K) (map map' : IpCounterMap K) (live : List K)
      → Balanced (record { map = map; live = live })
      → admit max_per_ip ip map ≡ (true, map')
      → Balanced (record { map = map'; live = ip ∷ live })
  opened-Balanced ip map map' live b h =
      let (room, moved) = admitted ip map map' (open_of ip live) (b.counts ip) h in
      rw moved (record {
        distinct = insert-IsDict ip (open_of ip live + 1) map b.distinct;
        counts = λ j.
            lookup-insert ip j (open_of ip live + 1) map
            ∙ ground (arith, key.same_iff ip j, b.counts j);
        below = λ j. ground (arith, key.same_iff ip j, b.below j);
      })

  refused-Balanced :
      (ip : K) (map map' : IpCounterMap K) (live : List K)
      → 1 ≤ max_per_ip
      → Balanced (record { map = map; live = live })
      → admit max_per_ip ip map ≡ (false, map')
      → Balanced (record { map = map'; live = live })
  refused-Balanced ip map map' live one b h =
      let (full, moved) = turned_away ip map map' (open_of ip live) (b.counts ip) h in
      rw moved (record {
        distinct = insert-IsDict ip (open_of ip live) map b.distinct;
        counts = λ j.
            lookup-insert ip j (open_of ip live) map
            ∙ ground (arith, key.same_iff ip j, b.counts j);
        below = b.below;
      })

  drop_guard-counted :
      (ip : K) (map : IpCounterMap K) (n : ℕ)
      → lookup ip map ≡ some (suc n)
      → drop_guard ip map ≡ (if n == 0 then remove ip map else insert ip n map)
  unfolding drop_guard
  drop_guard-counted ip map n h =
      rw (h, drop_guard) (ap (λ m. if m == 0 then remove ip map else insert ip m map) (one_less n))

  lookup-dropped :
      (ip : K) (map : IpCounterMap K) (n : ℕ) (j : K)
      → IsDict map
      → lookup j (if n == 0 then remove ip map else insert ip n map)
        ≡ (if key.same ip j then counted n else lookup j map)
  lookup-dropped ip map n j d = ground (arith, lookup-remove ip j map d, lookup-insert ip j n map)

  closed-Balanced :
      (ip : K) (map : IpCounterMap K) (before after : List K)
      → Balanced (record { map = map; live = before ++ (ip ∷ after) })
      → Balanced (record { map = drop_guard ip map; live = before ++ after })
  closed-Balanced ip map before after b = rw (drop_guard-counted ip map n here) (record {
    distinct = ground (arith, remove-IsDict ip map b.distinct, insert-IsDict ip n map b.distinct);
    counts = λ j.
        lookup-dropped ip map n j b.distinct
        ∙ ground (arith, key.same_iff ip j, b.counts j, parts j);
    below = λ j. ground (arith, b.below j, parts j);
  })
    where
      n : ℕ
      n = open_of ip (before ++ after)

      parts :
          (j : K)
          → open_of j (before ++ (ip ∷ after)) ≡ (
              if key.same ip j
              then suc (open_of j (before ++ after))
              else open_of j (before ++ after))
      parts j = ground (arith, open_of-append j before (ip ∷ after), open_of-append j before after)

      here : lookup ip map ≡ some (suc n)
      here = b.counts ip ∙ ground (arith, parts ip, key.same_iff ip ip)

  start-Balanced : Balanced (record { map = []; live = [] })
  unfolding lookup
  start-Balanced = record { distinct = tt; counts = λ ip. refl; below = λ ip. omega arith }

  Step-Balanced : 1 ≤ max_per_ip → {s t : State K} → Balanced s → Step max_per_ip s t → Balanced t
  Step-Balanced one b (opened ip map map' live h) = opened-Balanced ip map map' live b h
  Step-Balanced one b (refused ip map map' live h) = refused-Balanced ip map map' live one b h
  Step-Balanced one b (closed ip map before after) = closed-Balanced ip map before after b

  -- Where the limit is at least 1, after any sequence of connections that are let in, turned away or
  -- end, every address has at most that many open connections, its counter is their number, and an
  -- address without open connections has no entry.
  pub Reachable-Balanced : 1 ≤ max_per_ip → {s : State K} → Reachable max_per_ip s → Balanced s
  Reachable-Balanced one start = start-Balanced
  Reachable-Balanced one (step r m) = Step-Balanced one (Reachable-Balanced one r) m
