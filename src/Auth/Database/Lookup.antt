-- ===== src/Auth/Database/Lookup.antt =====
-- What the queries find after a statement.
use chat_room.Prelude.{
  String, ◌≡◌, refl, if◌then◌else◌, ap, true, none, some, List, [], ◌∷◌, ◌++◌, Distinct, contains,
  ◌==◌, nat_eq, string_eq, lookup, nat_beq_iff, Bool-cases, inl, inr, arith,
}
use text.Mathlib.TextEquality.{eq_iff}
use chat_room.Auth.Database.{Account, find_id, ids}

pub lookup-append :
    {V : Type 0} (k : String) (v : V) (m : List (String × V))
    → lookup k m ≡ none
    → lookup k (m ++ (k, v) ∷ []) ≡ some v
unfolding lookup
lookup-append k v [] e = ground (arith, eq_iff k k)
lookup-append k v ((j, w) ∷ m) e = ground (arith, lookup-append k v m)

pub lookup-appended :
    {V : Type 0} (k j : String) (v : V) (m : List (String × V))
    → lookup k m ≡ none
    → lookup j (m ++ (k, v) ∷ []) ≡ (if k == j then some v else lookup j m)
unfolding lookup
lookup-appended k j v [] e = refl
lookup-appended k j v ((i, w) ∷ m) e =
    ground (arith, eq_iff i k, eq_iff i j, eq_iff k j, lookup-appended k j v m)

contains-ids :
    (u : String) (a : Account) (m : List (String × Account))
    → lookup u m ≡ some a
    → contains a.id (ids m) ≡ true
unfolding lookup
contains-ids u a [] e = cc
contains-ids u a ((j, b) ∷ m) e = ground (arith, contains-ids u a m, nat_beq_iff b.id a.id)

-- An account that is found by its name is found by its id, which no other has.
pub find_id-lookup :
    (u : String) (a : Account) (m : List (String × Account))
    → Distinct (ids m)
    → lookup u m ≡ some a
    → find_id a.id m ≡ some (record { id = a.id; username = u; display_name = a.display_name })
unfolding lookup
find_id-lookup u a [] d e = cc
find_id-lookup u a ((j, b) ∷ m) d e = elim (Bool-cases (j == u)) [
  | inl here ↦ ground (arith, eq_iff j u, nat_beq_iff b.id a.id)
  | inr other ↦ ground (
    arith,
    find_id-lookup u a m,
    contains-ids u a m,
    nat_beq_iff b.id a.id,
    λ (p : b.id ≡ a.id). ap (λ x. contains x (ids m)) p,
  )
]
