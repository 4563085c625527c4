-- ===== src/Prelude/Dict.antt =====
-- `HashMap` as an association list without repeated keys, over any type of keys with a test for
-- equality. The order of the entries is not observed.
use Prim.Native.Nat.{ℕ, ◌+◌, ◌≤◌}
use mathlib.Core.Path.{◌≡◌, refl}
use mathlib.Core.Logic.{◌↔◌}
use mathlib.Core.Bool.{Bool, true}
use mathlib.Core.Option.{Option, none, some}
use mathlib.Core.List.{List, [], ◌∷◌}
use native.Mathlib.Omega.{arith}
use latticeshield.Prelude.Tests.{if◌then◌else◌, ◌==◌, ==_iff}
use latticeshield.Prelude.Lists.{length}

pub record Key (K : Type 0) : Type 0 where
  pub same : K → K → Bool
  pub same_iff : (a b : K) → (same a b ≡ true) ↔ (a ≡ b)

instance abbrev pub number_key : Key ℕ
number_key = record { same = ◌==◌; same_iff = ==_iff }

abbrev pub Dict : Type 0 → Type 0 → Type 0
Dict K V = List (K × V)

abbrev pub keep_if : {V : Type 0} → (V → Bool) → Option V → Option V
keep_if p none = none
keep_if p (some v) = if p v then some v else none

module _ {K V : Type 0} ⦃key : Key K⦄ where
  unfoldable pub lookup : K → Dict K V → Option V
  lookup k [] = none
  lookup k ((j, v) ∷ m) = if key.same j k then some v else lookup k m

  unfoldable pub insert : K → V → Dict K V → Dict K V
  insert k v [] = (k, v) ∷ []
  insert k v ((j, w) ∷ m) = if key.same j k then (k, v) ∷ m else (j, w) ∷ insert k v m

  unfoldable pub remove : K → Dict K V → Dict K V
  remove k [] = []
  remove k ((j, w) ∷ m) = if key.same j k then m else (j, w) ∷ remove k m

  unfoldable pub retain : (V → Bool) → Dict K V → Dict K V
  retain p [] = []
  retain p ((j, w) ∷ m) = if p w then (j, w) ∷ retain p m else retain p m

  -- No key stands twice.
  abbrev pub IsDict : Dict K V → Type 0
  IsDict [] = Unit {0}
  IsDict ((j, v) ∷ m) = (lookup j m ≡ none) × IsDict m

  pub lookup-insert :
      (k j : K) (v : V) (m : Dict K V)
      → lookup j (insert k v m) ≡ (if key.same k j then some v else lookup j m)
  unfolding lookup insert
  lookup-insert k j v [] = refl
  lookup-insert k j v ((i, w) ∷ m) =
      ground (arith, key.same_iff k j, key.same_iff i k, key.same_iff i j, lookup-insert k j v m)

  pub insert-IsDict : (k : K) (v : V) (m : Dict K V) → IsDict m → IsDict (insert k v m)
  unfolding insert lookup
  insert-IsDict k v [] d = (refl, tt)
  insert-IsDict k v ((i, w) ∷ m) d =
      ground
        (arith, key.same_iff i k, key.same_iff k i, lookup-insert k i v m, insert-IsDict k v m d.1)

  pub lookup-remove :
      (k j : K) (m : Dict K V)
      → IsDict m
      → lookup j (remove k m) ≡ (if key.same k j then none else lookup j m)
  unfolding lookup remove
  lookup-remove k j [] d = ground arith
  lookup-remove k j ((i, w) ∷ m) d =
      ground (arith, key.same_iff k j, key.same_iff i k, key.same_iff i j, lookup-remove k j m d.1)

  pub lookup-retain :
      (p : V → Bool) (j : K) (m : Dict K V)
      → IsDict m
      → lookup j (retain p m) ≡ keep_if p (lookup j m)
  unfolding lookup retain
  lookup-retain p j [] d = refl
  lookup-retain p j ((i, w) ∷ m) d = ground (arith, key.same_iff i j, lookup-retain p j m d.1)

  pub length-retain-le : (p : V → Bool) (m : Dict K V) → length (retain p m) ≤ length m
  unfolding retain
  length-retain-le p [] = omega arith
  length-retain-le p ((i, w) ∷ m) = ground (arith, length-retain-le p m)

  pub length-remove-le : (k : K) (m : Dict K V) → length (remove k m) ≤ length m
  unfolding remove
  length-remove-le k [] = omega arith
  length-remove-le k ((i, w) ∷ m) = ground (arith, length-remove-le k m)

  pub length-insert-le : (k : K) (v : V) (m : Dict K V) → length (insert k v m) ≤ length m + 1
  unfolding insert
  length-insert-le k v [] = omega arith
  length-insert-le k v ((i, w) ∷ m) = ground (arith, length-insert-le k v m)

  pub remove-IsDict : (k : K) (m : Dict K V) → IsDict m → IsDict (remove k m)
  unfolding remove
  remove-IsDict k [] d = tt
  remove-IsDict k ((i, w) ∷ m) d =
      ground (arith, key.same_iff k i, lookup-remove k i m d.1, remove-IsDict k m d.1)

  pub retain-IsDict : (p : V → Bool) (m : Dict K V) → IsDict m → IsDict (retain p m)
  unfolding retain
  retain-IsDict p [] d = tt
  retain-IsDict p ((i, w) ∷ m) d = ground (arith, lookup-retain p i m d.1, retain-IsDict p m d.1)

  pub insert_new :
      (k : K) (v : V) (m : Dict K V) → lookup k m ≡ none → length (insert k v m) ≡ length m + 1
  unfolding insert lookup
  insert_new k v [] h = omega arith
  insert_new k v ((i, w) ∷ m) h = ground (arith, insert_new k v m)

  pub insert_old :
      (k : K) (v u : V) (m : Dict K V) → lookup k m ≡ some u → length (insert k v m) ≡ length m
  unfolding insert lookup
  insert_old k v u [] h = cc
  insert_old k v u ((i, w) ∷ m) h = ground (arith, insert_old k v u m)
