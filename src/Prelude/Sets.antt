-- ===== src/Prelude/Sets.antt =====
-- Go's `map[K]struct{}`, a set, as a list without repetition.
use Prim.Native.Nat.{ℕ, suc, ◌+◌}
use mathlib.Core.Path.{◌≡◌, refl, sym, ap, ◌∙◌}
use mathlib.Core.Bool.{Bool, true, false, ◌||◌, false≢true}
use mathlib.Core.Logic.{◌↔◌, inl, inr}
use mathlib.Core.Logic.Or
use mathlib.Core.List.{
  List, [], ◌∷◌, ◌++◌, Mem, Nodup, Perm, Nodup-cons, Nodup-nil, not-mem-nil, mem-cons_self,
  mem-cons_of_mem, eq-or-mem_of_mem-cons,
}
use mathlib.Core.List.Perm
use native.Mathlib.Omega.{arith}
use chat_room.Prelude.Tests.{Eq, ◌==◌, if◌then◌else◌, Bool-cases}

module _ {ℓ} {A : Type ℓ} where
  abbrev pub length : List A → ℕ
  length [] = 0
  length (x ∷ xs) = suc (length xs)

  pub length-append : (xs ys : List A) → length (xs ++ ys) ≡ length xs + length ys
  length-append [] ys = omega arith
  length-append (x ∷ xs) ys = omega (arith, length-append xs ys)

Bool-set : IsSet Bool
Bool-set = hlevel

eq_of_iff : (b c : Bool) → (b ≡ true → c ≡ true) → (c ≡ true → b ≡ true) → b ≡ c
eq_of_iff true c f g = sym (f refl)
eq_of_iff false true f g = g refl
eq_of_iff false false f g = refl

module _ {ℓ} {A : Type ℓ} ⦃e : Eq A⦄ where
  abbrev pub contains : A → List A → Bool
  contains a [] = false
  contains a (x ∷ xs) = x == a || contains a xs

  -- `s[a] = struct{}{}`
  unfoldable pub insert : A → List A → List A
  insert a xs = if contains a xs then xs else a ∷ xs

  -- `delete(s, a)`
  unfoldable pub delete : A → List A → List A
  delete a [] = []
  delete a (x ∷ xs) = if x == a then delete a xs else x ∷ delete a xs

  abbrev pub Distinct : List A → Type 0
  Distinct [] = Unit
  Distinct (x ∷ xs) = (contains x xs ≡ false) × Distinct xs

  pub ==_refl : (a : A) → (a == a) ≡ true
  ==_refl a = (e.test_iff a a).1 refl

  pub contains-insert :
      (a b : A) (xs : List A) → contains b (insert a xs) ≡ (a == b || contains b xs)
  unfolding insert
  contains-insert a b xs = ground (arith, e.test_iff a b, λ (p : a ≡ b). ap (λ c. contains c xs) p)

  pub contains-delete :
      (a b : A) (xs : List A) → contains b (delete a xs) ≡ (if a == b then false else contains b xs)
  unfolding delete
  contains-delete a b [] = ground arith
  contains-delete a b (x ∷ xs) =
      ground (arith, contains-delete a b xs, e.test_iff x a, e.test_iff x b, e.test_iff a b)

  pub Distinct-insert : (a : A) (xs : List A) → Distinct xs → Distinct (insert a xs)
  unfolding insert
  Distinct-insert a xs d = ground arith

  pub Distinct-delete : (a : A) (xs : List A) → Distinct xs → Distinct (delete a xs)
  unfolding delete
  Distinct-delete a [] d = tt
  Distinct-delete a (x ∷ xs) d = ground (arith, Distinct-delete a xs, contains-delete a x xs)

  mem_of_contains : (a : A) (xs : List A) → contains a xs ≡ true → Mem a xs
  mem_of_contains a [] h = absurd (false≢true h)
  mem_of_contains a (x ∷ xs) h = elim (Bool-cases (x == a)) [
    | inl here ↦ rw ((e.test_iff x a).0 here) mem-cons_self
    | inr there ↦ mem-cons_of_mem x (mem_of_contains a xs (ground arith))
  ]

  contains_of_mem : (a : A) (xs : List A) → Mem a xs → contains a xs ≡ true
  contains_of_mem a [] m = absurd (not-mem-nil m)
  contains_of_mem a (x ∷ xs) m =
      Or.elim (Bool-set _ _) (eq-or-mem_of_mem-cons m) (λ here. ground (arith, e.test_iff x a))
        (λ there. ground (arith, contains_of_mem a xs there))

  pub contains_iff : (a : A) (xs : List A) → (contains a xs ≡ true) ↔ Mem a xs
  contains_iff a xs = (mem_of_contains a xs, contains_of_mem a xs)

  -- A set does not depend on the order in which it is listed.
  pub contains-perm : (a : A) {xs ys : List A} → Perm xs ys → contains a xs ≡ contains a ys
  contains-perm a {xs} {ys} p =
      eq_of_iff (contains a xs) (contains a ys)
        (λ h. contains_of_mem a ys ((Perm.mem_iff p).0 (mem_of_contains a xs h)))
        (λ h. contains_of_mem a xs ((Perm.mem_iff p).1 (mem_of_contains a ys h)))

  Nodup-of_Distinct : (xs : List A) → Distinct xs → Nodup xs
  Nodup-of_Distinct [] d = Nodup-nil
  Nodup-of_Distinct (x ∷ xs) d =
      Nodup-cons.1 (λ m. false≢true (sym d.0 ∙ contains_of_mem x xs m), Nodup-of_Distinct xs d.1)

  Distinct-of_Nodup : (xs : List A) → Nodup xs → Distinct xs
  Distinct-of_Nodup [] n = tt
  Distinct-of_Nodup (x ∷ xs) n = elim (Bool-cases (contains x xs)) [
    | inl h ↦ absurd ((Nodup-cons.0 n).0 (mem_of_contains x xs h))
    | inr h ↦ (h, Distinct-of_Nodup xs (Nodup-cons.0 n).1)
  ]

  pub Distinct-perm : {xs ys : List A} → Perm xs ys → Distinct xs → Distinct ys
  Distinct-perm {xs} {ys} p d = Distinct-of_Nodup ys (Perm.nodup p (Nodup-of_Distinct xs d))
