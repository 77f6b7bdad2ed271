-- ===== src/Store/Startup/Names.antt =====
-- The order in which the migrations run.
use chat_room.Prelude.{
  Perm, String, ◌≡◌, refl, Bool, true, false, List, [], ◌∷◌, if◌then◌else◌, if_holds, string_ltb,
  string_ltb_asym,
}
use mathlib.Core.List.Perm
use chat_room.Store.Startup.{put, sorted}

-- The first of the names is not smaller than `s`.
abbrev pub StartsAfter : String → List String → Type 0
StartsAfter s [] = Unit {0}
StartsAfter s (t ∷ ts) = string_ltb t s ≡ false

abbrev pub IsSorted : List String → Type 0
IsSorted [] = Unit {0}
IsSorted (s ∷ ss) = StartsAfter s ss × IsSorted ss

put-Perm : (s : String) (ts : List String) → Perm (put s ts) (s ∷ ts)
put-Perm s [] = Perm.refl (s ∷ [])
put-Perm s (t ∷ ts) =
    if_holds (λ l. Perm l (s ∷ t ∷ ts)) (string_ltb t s)
      (Perm.trans (Perm.cons t (put-Perm s ts)) (Perm.swap s t ts)) (Perm.refl (s ∷ t ∷ ts))

pub sorted-Perm : (ss : List String) → Perm (sorted ss) ss
unfolding sorted
sorted-Perm [] = Perm.refl []
sorted-Perm (s ∷ ss) = Perm.trans (put-Perm s (sorted ss)) (Perm.cons s (sorted-Perm ss))

put-StartsAfter :
    (s t : String) (ts : List String)
    → string_ltb s t ≡ false
    → StartsAfter t ts
    → StartsAfter t (put s ts)
put-StartsAfter s t [] e h = e
put-StartsAfter s t (u ∷ us) e h = if_holds (StartsAfter t) (string_ltb u s) h e

put-IsSorted : (s : String) (ts : List String) → IsSorted ts → IsSorted (put s ts)
put-IsSorted s [] h = (tt, tt)
put-IsSorted s (t ∷ ts) (first, rest) = chosen (string_ltb t s) refl (put-IsSorted s ts rest)
  where
    chosen :
        (b : Bool)
        → string_ltb t s ≡ b
        → IsSorted (put s ts)
        → IsSorted (if b then t ∷ put s ts else s ∷ t ∷ ts)
    chosen true e h = (put-StartsAfter s t ts (string_ltb_asym t s e) first, h)
    chosen false e h = (e, (first, rest))

pub sorted-IsSorted : (ss : List String) → IsSorted (sorted ss)
unfolding sorted
sorted-IsSorted [] = tt
sorted-IsSorted (s ∷ ss) = put-IsSorted s (sorted ss) (sorted-IsSorted ss)
