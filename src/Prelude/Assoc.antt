-- ===== src/Prelude/Assoc.antt =====
-- Go's `map[K]V` as an association list.
use mathlib.Core.Path.{◌≡◌, refl}
use mathlib.Core.Bool.{true, false, ◌||◌}
use mathlib.Core.Option.{Option, none, some}
use mathlib.Core.List.{List, [], ◌∷◌}
use native.Mathlib.Omega.{arith}
use chat_room.Prelude.Tests.{Eq, ◌==◌, if◌then◌else◌}
use chat_room.Prelude.Sets.{contains, Distinct}

module _ {ℓ} {K : Type 0} {V : Type ℓ} ⦃e : Eq K⦄ where
  unfoldable pub lookup : K → List (K × V) → Option V
  lookup k [] = none
  lookup k ((j, v) ∷ m) = if j == k then some v else lookup k m

  -- `m[k] = v`
  unfoldable pub assign : K → V → List (K × V) → List (K × V)
  assign k v [] = (k, v) ∷ []
  assign k v ((j, w) ∷ m) = if j == k then (k, v) ∷ m else (j, w) ∷ assign k v m

  -- `delete(m, k)`
  unfoldable pub drop_key : K → List (K × V) → List (K × V)
  drop_key k [] = []
  drop_key k ((j, w) ∷ m) = if j == k then drop_key k m else (j, w) ∷ drop_key k m

  abbrev pub keys : List (K × V) → List K
  keys [] = []
  keys ((k, v) ∷ m) = k ∷ keys m

  pub lookup-assign :
      (k j : K) (v : V) (m : List (K × V))
      → lookup j (assign k v m) ≡ (if k == j then some v else lookup j m)
  unfolding lookup assign
  lookup-assign k j v [] = refl
  lookup-assign k j v ((i, w) ∷ m) =
      ground (arith, e.test_iff k j, e.test_iff i k, e.test_iff i j, lookup-assign k j v m)

  pub lookup-drop_key :
      (k j : K) (m : List (K × V)) → lookup j (drop_key k m) ≡ (if k == j then none else lookup j m)
  unfolding lookup drop_key
  lookup-drop_key k j [] = ground arith
  lookup-drop_key k j ((i, w) ∷ m) =
      ground (arith, e.test_iff k j, e.test_iff i k, e.test_iff i j, lookup-drop_key k j m)

  pub contains-keys-assign :
      (k j : K) (v : V) (m : List (K × V))
      → contains j (keys (assign k v m)) ≡ (k == j || contains j (keys m))
  unfolding assign
  contains-keys-assign k j v [] = refl
  contains-keys-assign k j v ((i, w) ∷ m) =
      ground (arith, e.test_iff k j, e.test_iff i k, e.test_iff i j, contains-keys-assign k j v m)

  pub contains-keys-drop_key :
      (k j : K) (m : List (K × V))
      → contains j (keys (drop_key k m)) ≡ (if k == j then false else contains j (keys m))
  unfolding drop_key
  contains-keys-drop_key k j [] = ground arith
  contains-keys-drop_key k j ((i, w) ∷ m) =
      ground (arith, e.test_iff k j, e.test_iff i k, e.test_iff i j, contains-keys-drop_key k j m)

  pub Distinct-keys-assign :
      (k : K) (v : V) (m : List (K × V)) → Distinct (keys m) → Distinct (keys (assign k v m))
  unfolding assign
  Distinct-keys-assign k v [] d = (refl, tt)
  Distinct-keys-assign k v ((i, w) ∷ m) d = ground (
    arith,
    e.test_iff i k,
    e.test_iff k i,
    Distinct-keys-assign k v m,
    contains-keys-assign k i v m,
  )

  pub Distinct-keys-drop_key :
      (k : K) (m : List (K × V)) → Distinct (keys m) → Distinct (keys (drop_key k m))
  unfolding drop_key
  Distinct-keys-drop_key k [] d = tt
  Distinct-keys-drop_key k ((i, w) ∷ m) d =
      ground (arith, Distinct-keys-drop_key k m, contains-keys-drop_key k i m)

  -- A key is present exactly when a lookup finds a value.
  pub contains-keys :
      (k : K) (m : List (K × V))
      → contains k (keys m) ≡ (elim (lookup k m) [ none ↦ false | some _ ↦ true ])
  unfolding lookup
  contains-keys k [] = refl
  contains-keys k ((j, w) ∷ m) = ground (arith, contains-keys k m)
