-- ===== src/Store/Table/Order.antt =====
-- The order of the query on rows that stand oldest first.
use chat_room.Prelude.{
  if_holds, String, ◌≡◌, refl, sym, ap, ◌∙◌, Bool, false, List, [], ◌∷◌, ◌++◌, reverse,
  if◌then◌else◌, ◌==◌, nat_eq, string_eq,
}
use chat_room.Store.Table.{Row, in_room, newer, place, newest_first}
use mathlib.Core.List.{reverse-cons}
use mathlib.Core.Path.{subst}

module _ {T : Type 0} (later : T → T → Bool) where
  -- `r` is newer than none of the rows.
  abbrev pub IsOldest : Row T → List (Row T) → Type 0
  IsOldest r [] = Unit {0}
  IsOldest r (s ∷ ss) = (newer later r s ≡ false) × IsOldest r ss

  abbrev pub IsAscending : List (Row T) → Type 0
  IsAscending [] = Unit {0}
  IsAscending (r ∷ rs) = IsOldest r rs × IsAscending rs

  -- None of the rows is newer than `s`.
  abbrev pub IsNewest : Row T → List (Row T) → Type 0
  IsNewest s [] = Unit {0}
  IsNewest s (r ∷ rs) = (newer later r s ≡ false) × IsNewest s rs

  IsOldest-snoc :
      (r s : Row T) (rs : List (Row T))
      → IsOldest r rs
      → newer later r s ≡ false
      → IsOldest r (rs ++ s ∷ [])
  IsOldest-snoc r s [] o e = (e, tt)
  IsOldest-snoc r s (q ∷ rs) (h, o) e = (h, IsOldest-snoc r s rs o e)

  pub IsAscending-snoc :
      (s : Row T) (rs : List (Row T)) → IsAscending rs → IsNewest s rs → IsAscending (rs ++ s ∷ [])
  IsAscending-snoc s [] a n = (tt, tt)
  IsAscending-snoc s (r ∷ rs) (o, a) (h, n) = (IsOldest-snoc r s rs o h, IsAscending-snoc s rs a n)

  IsOldest-in_room :
      (room : String) (r : Row T) (rs : List (Row T)) → IsOldest r rs → IsOldest r (in_room room rs)
  IsOldest-in_room room r [] o = tt
  IsOldest-in_room room r (s ∷ rs) (h, o) =
      let rest = IsOldest-in_room room r rs o in
      if_holds (IsOldest r) (s.room == room) (h, rest) rest

  pub IsAscending-in_room :
      (room : String) (rs : List (Row T)) → IsAscending rs → IsAscending (in_room room rs)
  IsAscending-in_room room [] a = tt
  IsAscending-in_room room (r ∷ rs) (o, a) =
      let rest = IsAscending-in_room room rs a in
      if_holds IsAscending (r.room == room) (IsOldest-in_room room r rs o, rest) rest

  IsOldest-reverse : (r : Row T) (rs : List (Row T)) → IsOldest r rs → IsOldest r (reverse rs)
  IsOldest-reverse r [] o = tt
  IsOldest-reverse r (s ∷ rs) (h, o) =
      subst (λ ss. IsOldest r ss) (sym (reverse-cons s rs))
        (IsOldest-snoc r s (reverse rs) (IsOldest-reverse r rs o) h)

  place-IsOldest : (r : Row T) (rs : List (Row T)) → IsOldest r rs → place later r rs ≡ rs ++ r ∷ []
  place-IsOldest r [] o = refl
  place-IsOldest r (s ∷ rs) (h, o) =
      ap (λ b. if b then r ∷ s ∷ rs else s ∷ place later r rs) h
      ∙ ap (λ ss. s ∷ ss) (place-IsOldest r rs o)

  pub newest_first-IsAscending :
      (rs : List (Row T)) → IsAscending rs → newest_first later rs ≡ reverse rs
  newest_first-IsAscending [] a = refl
  newest_first-IsAscending (r ∷ rs) (o, a) =
      ap (place later r) (newest_first-IsAscending rs a)
      ∙ place-IsOldest r (reverse rs) (IsOldest-reverse r rs o)
      ∙ sym (reverse-cons r rs)
