-- ===== src/Prelude/Slices.antt =====
-- The first and the last elements of a list.
use chat_room.Prelude.Sets.{length, length-append}
use chat_room.Prelude.Tests.{ltb, if◌then◌else◌}
use mathlib.Core.Path.{◌≡◌, refl, sym, ap, ◌∙◌}
use mathlib.Core.Bool.{Bool, true, false}
use mathlib.Core.List.{
  List, [], ◌∷◌, ◌++◌, map, reverse, reverse-cons, reverse-append, reverse-reverse, map-append,
}
use Prim.Native.Nat.{ℕ, zero, suc}
use native.Mathlib.Omega.{arith}

module _ {ℓ} {A : Type ℓ} where
  unfoldable pub take : ℕ → List A → List A
  take zero xs = []
  take (suc n) [] = []
  take (suc n) (x ∷ xs) = x ∷ take n xs

  -- The last `n`, or all if there are fewer.
  unfoldable pub last : ℕ → List A → List A
  last n [] = []
  last n (x ∷ xs) = let rest = last n xs in if ltb (length xs) n then x ∷ xs else rest

  pub last-zero : (xs : List A) → last 0 xs ≡ []
  unfolding last
  last-zero [] = refl
  last-zero (x ∷ xs) = ground (arith, last-zero xs)

  pub length-reverse : (xs : List A) → length (reverse xs) ≡ length xs
  length-reverse [] = refl
  length-reverse (x ∷ xs) =
      ap length (reverse-cons x xs)
      ∙ length-append (reverse xs) (x ∷ [])
      ∙ omega (arith, length-reverse xs)

  take-snoc :
      (n : ℕ) (xs : List A) (x : A)
      → take n (xs ++ x ∷ []) ≡ (if ltb (length xs) n then xs ++ x ∷ [] else take n xs)
  unfolding take
  take-snoc zero xs x = ground arith
  take-snoc (suc zero) [] x = refl
  take-snoc (suc (suc n)) [] x = ground arith
  take-snoc (suc n) (y ∷ xs) x = ground (arith, take-snoc n xs x)

  reverse-chosen :
      (b : Bool) (n : ℕ) (x : A) (xs : List A)
      → reverse (take n (reverse xs)) ≡ last n xs
      → reverse (if b then reverse xs ++ x ∷ [] else take n (reverse xs))
        ≡ (if b then x ∷ xs else last n xs)
  reverse-chosen true n x xs e =
      reverse-append (reverse xs) (x ∷ []) ∙ ap (λ ys. x ∷ ys) (reverse-reverse xs)
  reverse-chosen false n x xs e = e

  pub reverse-take_lem : (n : ℕ) (xs : List A) → reverse (take n (reverse xs)) ≡ last n xs
  unfolding take last
  reverse-take_lem zero [] = refl
  reverse-take_lem (suc n) [] = refl
  reverse-take_lem n (x ∷ xs) =
      ap (λ ys. reverse (take n ys)) (reverse-cons x xs)
      ∙ ap reverse (take-snoc n (reverse xs) x)
      ∙ ap (λ k. reverse (if ltb k n then reverse xs ++ x ∷ [] else take n (reverse xs)))
          (length-reverse xs)
      ∙ reverse-chosen (ltb (length xs) n) n x xs (reverse-take_lem n xs)

module _ {ℓ μ} {A : Type ℓ} {B : Type μ} (f : A → B) where
  length-map : (xs : List A) → length (map f xs) ≡ length xs
  length-map [] = refl
  length-map (x ∷ xs) = ap suc (length-map xs)

  pub map-last : (n : ℕ) (xs : List A) → map f (last n xs) ≡ last n (map f xs)
  unfolding last
  map-last n [] = refl
  map-last n (x ∷ xs) = ground (arith, map-last n xs, length-map xs)

  pub map-reverse : (xs : List A) → map f (reverse xs) ≡ reverse (map f xs)
  map-reverse [] = refl
  map-reverse (x ∷ xs) =
      ap (map f) (reverse-cons x xs)
      ∙ map-append f (reverse xs) (x ∷ [])
      ∙ ap (λ ys. ys ++ f x ∷ []) (map-reverse xs)
      ∙ sym (reverse-cons (f x) (map f xs))
