-- ===== src/Client/Pool/History.antt =====
-- Any sequence of calls on a pool of latticeshield-client/src/pool.rs.
use mathlib.Core.List.{Sublistᴰ, map-append}
use mathlib.Core.List.Sublistᴰ
use latticeshield.Prelude.{
  ℕ, suc, ◌≤◌, ◌≡◌, refl, sym, ap, subst, Bool-cases, ◌⊎◌, inl, inr, List, [], ◌∷◌, ◌++◌,
  append_assoc, append-nil, map, length, length-append, take, leb, ◌==◌, Option, none, some, arith,
}
use latticeshield.Client.Pool.{
  PoolConfig, IdleConn, ConnectionPool, is_stale, evict, pop_or_connect, acquire, to_add, push_new,
  warm_push, shutdown,
}

pub data Call (S : Type 0) : Type 0 where
  acquires : (clock : ℕ → ℕ) (connected : Option S) → Call S
  warms : (current_count : ℕ) (connections : List (IdleConn S)) → Call S
  shuts_down : Call S

abbrev pub streams : {S : Type 0} → List (IdleConn S) → List S
streams = map λ c. c.stream

abbrev pub handed : {S : Type 0} → Option S → List S
handed none = []
handed (some s) = s ∷ []

-- What the answers hand out.
abbrev pub returned : {S : Type 0} → List (Option S) → List S
returned [] = []
returned (answer ∷ answers) = handed answer ++ returned answers

-- The connections that are made for the calls.
abbrev pub offered : {S : Type 0} → List (Call S) → List S
offered [] = []
offered (acquires clock connected ∷ calls) = handed connected ++ offered calls
offered (warms current_count connections ∷ calls) = streams connections ++ offered calls
offered (shuts_down ∷ calls) = offered calls

-- There is an answer for each acquisition, and none is a failure whose new connection was made.
abbrev pub Answered : {S : Type 0} → List (Call S) → List (Option S) → Type 0
Answered [] answers = answers ≡ []
Answered (acquires clock connected ∷ calls) [] = ⊥
Answered {S} (acquires clock connected ∷ calls) (answer ∷ answers) =
    ((connected ≡ none) ⊎ ((s : S) × (answer ≡ some s))) × Answered calls answers
Answered (warms current_count connections ∷ calls) answers = Answered calls answers
Answered (shuts_down ∷ calls) answers = Answered calls answers

take_Sublist : {A : Type 0} (n : ℕ) (xs : List A) → Sublistᴰ (take n xs) xs
take_Sublist ℕ.zero xs = Sublistᴰ.nil-sublist xs
take_Sublist (suc n) [] = Sublistᴰ.slnil
take_Sublist (suc n) (x ∷ xs) = Sublistᴰ.cons-cons refl (take_Sublist n xs)

module _ {S : Type 0} (config : PoolConfig) where
  -- What a call of `acquire` returns.
  abbrev pub answer_of : Call S → ConnectionPool S → List (Option S)
  answer_of (acquires clock connected) pool = (acquire config clock connected pool).0 ∷ []
  answer_of (warms current_count connections) pool = []
  answer_of shuts_down pool = []

  abbrev pub after : Call S → ConnectionPool S → ConnectionPool S
  after (acquires clock connected) pool = (acquire config clock connected pool).1
  after (warms current_count connections) pool = warm_push config current_count connections pool
  after shuts_down pool = shutdown config pool

  pub run : List (Call S) → ConnectionPool S → List (Option S) × ConnectionPool S
  run [] pool = ([], pool)
  run (c ∷ calls) pool = let rest = run calls (after c pool) in (answer_of c pool ++ rest.0, rest.1)

  evict_Sublist :
      (clock : ℕ → ℕ) (idle : List (IdleConn S)) → Sublistᴰ (evict config clock idle) idle
  unfolding evict
  evict_Sublist clock [] = Sublistᴰ.slnil
  evict_Sublist clock (c ∷ idle) = elim (Bool-cases (is_stale config (clock 0) c)) [
    | inl stale ↦ rw stale (Sublistᴰ.cons (evict_Sublist (λ k. clock (suc k)) idle))
    | inr fresh ↦ rw fresh (Sublistᴰ.refl (c ∷ idle))
  ]

  push_new_Sublist : (cs idle : List (IdleConn S)) → Sublistᴰ (push_new config cs idle) (idle ++ cs)
  unfolding push_new
  push_new_Sublist [] idle = rw (append-nil idle) (Sublistᴰ.refl idle)
  push_new_Sublist (c ∷ cs) idle = elim (Bool-cases (leb config.max_size (length idle))) [
    | inl full ↦ rw full (
        subst (λ l. Sublistᴰ l (idle ++ (c ∷ cs))) (append-nil idle)
          (Sublistᴰ.append (Sublistᴰ.refl idle) (Sublistᴰ.nil-sublist (c ∷ cs))))
    | inr room ↦ rw room (
        subst (Sublistᴰ (push_new config cs (idle ++ (c ∷ [])))) (append_assoc idle (c ∷ []) cs)
          (push_new_Sublist cs (idle ++ (c ∷ []))))
  ]

  length-push_new :
      (cs idle : List (IdleConn S))
      → length idle ≤ config.max_size
      → length (push_new config cs idle) ≤ config.max_size
  unfolding push_new
  length-push_new [] idle h = h
  length-push_new (c ∷ cs) idle h =
      ground (arith, length-append idle (c ∷ []), length-push_new cs (idle ++ (c ∷ [])))

  warm_push_Sublist :
      (current_count : ℕ) (cs : List (IdleConn S)) (pool : ConnectionPool S)
      → Sublistᴰ (warm_push config current_count cs pool).idle (pool.idle ++ cs)
  unfolding warm_push
  warm_push_Sublist current_count cs pool = elim (Bool-cases (config.warm_size == 0)) [
    | inl none_wanted ↦ rw none_wanted (
        subst (λ l. Sublistᴰ l (pool.idle ++ cs)) (append-nil pool.idle)
          (Sublistᴰ.append (Sublistᴰ.refl pool.idle) (Sublistᴰ.nil-sublist cs)))
    | inr wanted ↦ rw wanted (
        Sublistᴰ.trans (push_new_Sublist _ pool.idle) (
          Sublistᴰ.append (Sublistᴰ.refl pool.idle)
            (take_Sublist (to_add config current_count) cs)))
  ]

  length-warm_push :
      (current_count : ℕ) (cs : List (IdleConn S)) (pool : ConnectionPool S)
      → length pool.idle ≤ config.max_size
      → length (warm_push config current_count cs pool).idle ≤ config.max_size
  unfolding warm_push
  length-warm_push current_count cs pool h =
      ground (arith, length-push_new (take (to_add config current_count) cs) pool.idle h)

  length-evict :
      (clock : ℕ → ℕ) (idle : List (IdleConn S)) → length (evict config clock idle) ≤ length idle
  unfolding evict
  length-evict clock [] = omega arith
  length-evict clock (c ∷ idle) = ground (arith, length-evict (λ k. clock (suc k)) idle)

  streams_Sublist :
      {xs ys : List (IdleConn S)} → Sublistᴰ xs ys → Sublistᴰ (streams xs) (streams ys)
  streams_Sublist Sublistᴰ.slnil = Sublistᴰ.slnil
  streams_Sublist (Sublistᴰ.cons h) = Sublistᴰ.cons (streams_Sublist h)
  streams_Sublist (Sublistᴰ.cons-cons e h) =
      Sublistᴰ.cons-cons (ap (λ (c : IdleConn S). c.stream) e) (streams_Sublist h)

  popped_Sublist :
      (connected : Option S) (pool : ConnectionPool S) (idle : List (IdleConn S))
      → Sublistᴰ
          (handed (pop_or_connect config connected pool idle).0
            ++ streams (pop_or_connect config connected pool idle).1.idle)
          (streams idle ++ handed connected)
  unfolding pop_or_connect
  popped_Sublist connected pool [] =
      rw (append-nil (handed connected)) (Sublistᴰ.refl (handed connected))
  popped_Sublist connected pool (c ∷ idle) =
      subst (λ l. Sublistᴰ l (streams (c ∷ idle) ++ handed connected))
        (append-nil (streams (c ∷ idle)))
        (Sublistᴰ.append (Sublistᴰ.refl (streams (c ∷ idle))) (Sublistᴰ.nil-sublist _))

  -- What `acquire` returns and what it leaves were idle before, or made for it.
  acquire_Sublist :
      (clock : ℕ → ℕ) (connected : Option S) (pool : ConnectionPool S)
      → Sublistᴰ
          (handed (acquire config clock connected pool).0
            ++ streams (acquire config clock connected pool).1.idle)
          (streams pool.idle ++ handed connected)
  unfolding acquire
  acquire_Sublist clock connected pool =
      Sublistᴰ.trans (popped_Sublist connected pool (evict config clock pool.idle)) (
        Sublistᴰ.append (streams_Sublist (evict_Sublist clock pool.idle))
          (Sublistᴰ.refl (handed connected)))

  length-popped :
      (connected : Option S) (pool : ConnectionPool S) (idle : List (IdleConn S))
      → length (pop_or_connect config connected pool idle).1.idle ≤ length idle
  unfolding pop_or_connect
  length-popped connected pool [] = omega arith
  length-popped connected pool (c ∷ idle) = omega arith

  length-acquire :
      (clock : ℕ → ℕ) (connected : Option S) (pool : ConnectionPool S)
      → length (acquire config clock connected pool).1.idle ≤ length pool.idle
  unfolding acquire
  length-acquire clock connected pool = omega (
    arith,
    length-popped connected pool (evict config clock pool.idle),
    length-evict clock pool.idle,
  )

  popped_answered :
      (connected : Option S) (pool : ConnectionPool S) (idle : List (IdleConn S))
      → (connected ≡ none) ⊎ ((s : S) × ((pop_or_connect config connected pool idle).0 ≡ some s))
  unfolding pop_or_connect
  popped_answered none pool idle = inl refl
  popped_answered (some s) pool [] = inr (s, refl)
  popped_answered (some s) pool (c ∷ idle) = inr (c.stream, refl)

  acquire_answered :
      (clock : ℕ → ℕ) (connected : Option S) (pool : ConnectionPool S)
      → (connected ≡ none) ⊎ ((s : S) × ((acquire config clock connected pool).0 ≡ some s))
  unfolding acquire
  acquire_answered clock connected pool =
      popped_answered connected pool (evict config clock pool.idle)

  run-Answered :
      (calls : List (Call S)) (pool : ConnectionPool S) → Answered calls (run calls pool).0
  unfolding run
  run-Answered [] pool = refl
  run-Answered (acquires clock connected ∷ calls) pool =
      (acquire_answered clock connected pool, run-Answered calls _)
  run-Answered (warms current_count cs ∷ calls) pool = run-Answered calls _
  run-Answered (shuts_down ∷ calls) pool = run-Answered calls _

  -- A call that gives `a` and leaves `next` of what was idle and `made`, before calls that give `later`.
  joined :
      (a later next final idle made offers : List S)
      → Sublistᴰ (a ++ next) (idle ++ made)
      → Sublistᴰ (later ++ final) (next ++ offers)
      → Sublistᴰ ((a ++ later) ++ final) (idle ++ (made ++ offers))
  joined a later next final idle made offers now rest =
      subst (λ l. Sublistᴰ l (idle ++ (made ++ offers))) (sym (append_assoc a later final))
        (Sublistᴰ.trans (Sublistᴰ.append (Sublistᴰ.refl a) rest) (
          subst (λ l. Sublistᴰ l (idle ++ (made ++ offers))) (append_assoc a next offers)
            (subst (Sublistᴰ ((a ++ next) ++ offers)) (append_assoc idle made offers)
              (Sublistᴰ.append now (Sublistᴰ.refl offers)))))

  run-within :
      (calls : List (Call S)) (pool : ConnectionPool S)
      → length pool.idle ≤ config.max_size
      → Sublistᴰ
          (returned (run calls pool).0 ++ streams (run calls pool).1.idle)
          (streams pool.idle ++ offered calls)
        × (length (run calls pool).1.idle ≤ config.max_size)
  unfolding run shutdown
  run-within [] pool h =
      (rw (append-nil (streams pool.idle)) (Sublistᴰ.refl (streams pool.idle)), h)
  run-within (acquires clock connected ∷ calls) pool h =
      let next = (acquire config clock connected pool).1 in
      let size = length-acquire clock connected pool in
      let (found, bound) = run-within calls next (omega arith) in
      (
        joined (handed (acquire config clock connected pool).0) (returned (run calls next).0)
            (streams next.idle) (streams (run calls next).1.idle) (streams pool.idle)
            (handed connected) (offered calls) (acquire_Sublist clock connected pool) found,
        bound,
      )
  run-within (warms current_count cs ∷ calls) pool h =
      let next = warm_push config current_count cs pool in
      let (found, bound) = run-within calls next (length-warm_push current_count cs pool h) in
      (
        joined [] (returned (run calls next).0) (streams next.idle)
            (streams (run calls next).1.idle) (streams pool.idle) (streams cs) (offered calls)
            (subst (Sublistᴰ (streams next.idle))
              (map-append (λ (c : IdleConn S). c.stream) pool.idle cs)
              (streams_Sublist (warm_push_Sublist current_count cs pool)))
            found,
        bound,
      )
  run-within (shuts_down ∷ calls) pool h =
      let (found, bound) = run-within calls (shutdown config pool) (omega arith) in
      (
        Sublistᴰ.trans found (
            Sublistᴰ.append (Sublistᴰ.nil-sublist (streams pool.idle))
              (Sublistᴰ.refl (offered calls))),
        bound,
      )

  -- Over any sequence of acquisitions, rounds of the warmer and shutdowns on one pool: the
  -- connections that the acquisitions return, in order, followed by those that are idle at the end,
  -- are among the connections that were idle at the start or that connecting has made (by the
  -- warmer, or for an acquisition), in the order in which they came, none twice. Every acquisition
  -- has its answer, which is a connection unless connecting failed. The pool never holds more than
  -- `max_size` connections, where it does not at the start.
  pub run_Sublist :
      (calls : List (Call S)) (pool : ConnectionPool S)
      → length pool.idle ≤ config.max_size
      → Sublistᴰ
          (returned (run calls pool).0 ++ streams (run calls pool).1.idle)
          (streams pool.idle ++ offered calls)
        × Answered calls (run calls pool).0
        × (length (run calls pool).1.idle ≤ config.max_size)
  run_Sublist calls pool h =
      let (found, bound) = run-within calls pool h in (found, run-Answered calls pool, bound)
