-- ===== src/Auth/Text.antt =====
-- `strings.TrimSpace`, which internal/auth/auth.go applies to what the user typed.
use Prim.Native.Char.{code}
use Prim.Native.String.{[], ◌∷◌}
use chat_room.Prelude.{
  ◌∙◌, if_false, ap, ℕ, String, ◌≡◌, refl, Bool, true, false, ◌&&◌, ◌||◌, leb, nat_beq,
  if◌then◌else◌, arith, Bool-cases, inl, inr,
}

-- `unicode.IsSpace`
abbrev pub is_space : ℕ → Bool
is_space c =
    (leb 9 c && leb c 13)
    || nat_beq c 0x20
    || nat_beq c 0x85
    || nat_beq c 0xa0
    || nat_beq c 0x1680
    || (leb 0x2000 c && leb c 0x200a)
    || nat_beq c 0x2028
    || nat_beq c 0x2029
    || nat_beq c 0x202f
    || nat_beq c 0x205f
    || nat_beq c 0x3000

abbrev pub is_empty : String → Bool
is_empty [] = true
is_empty (c ∷ s) = false

unfoldable pub trim_left : String → String
trim_left [] = []
trim_left (c ∷ s) = let rest = trim_left s in if is_space (code c) then rest else c ∷ s

unfoldable pub trim_right : String → String
trim_right [] = []
trim_right (c ∷ s) =
    let rest = trim_right s in if is_space (code c) && is_empty rest then [] else c ∷ rest

unfoldable pub trim_space : String → String
unfolding trim_left trim_right
trim_space s = trim_right (trim_left s)

-- A text does not begin, or does not end, with a space.
abbrev pub NoLeadingSpace : String → Type 0
NoLeadingSpace [] = Unit
NoLeadingSpace (c ∷ s) = is_space (code c) ≡ false

abbrev pub NoTrailingSpace : String → Type 0
NoTrailingSpace [] = Unit
NoTrailingSpace (c ∷ s) = NoTrailingSpace s × (is_empty s ≡ true → is_space (code c) ≡ false)

trim_left-NoLeadingSpace : (s : String) → NoLeadingSpace (trim_left s)
unfolding trim_left
trim_left-NoLeadingSpace [] = tt
trim_left-NoLeadingSpace (c ∷ s) = elim (Bool-cases (is_space (code c))) [
  | inl blank ↦ rw blank (trim_left-NoLeadingSpace s)
  | inr solid ↦ rw solid solid
]

solid_of : (a b : Bool) → (a && b) ≡ false → b ≡ true → a ≡ false
solid_of a b h k = ground arith

not_blank : (a b : Bool) → (b ≡ true → a ≡ false) → (a && b) ≡ false
not_blank true true h = h refl
not_blank true false h = refl
not_blank false b h = refl

trim_right-NoTrailingSpace : (s : String) → NoTrailingSpace (trim_right s)
unfolding trim_right
trim_right-NoTrailingSpace [] = tt
trim_right-NoTrailingSpace (c ∷ s) =
    elim (Bool-cases (is_space (code c) && is_empty (trim_right s))) [
      | inl blank ↦ rw blank tt
      | inr solid ↦ rw solid (
        trim_right-NoTrailingSpace s,
        solid_of (is_space (code c)) (is_empty (trim_right s)) solid,
      )
    ]

trim_right-NoLeadingSpace : (s : String) → NoLeadingSpace s → NoLeadingSpace (trim_right s)
unfolding trim_right
trim_right-NoLeadingSpace [] h = tt
trim_right-NoLeadingSpace (c ∷ s) h = rw h h

-- The trimmed text neither begins nor ends with a space.
pub trim_space_trimmed :
    (s : String) → NoLeadingSpace (trim_space s) × NoTrailingSpace (trim_space s)
unfolding trim_space
trim_space_trimmed s = (
  trim_right-NoLeadingSpace (trim_left s) (trim_left-NoLeadingSpace s),
  trim_right-NoTrailingSpace (trim_left s),
)

trim_left_of_NoLeadingSpace : (s : String) → NoLeadingSpace s → trim_left s ≡ s
unfolding trim_left
trim_left_of_NoLeadingSpace [] h = refl
trim_left_of_NoLeadingSpace (c ∷ s) h = rw h refl

trim_right_of_NoTrailingSpace : (s : String) → NoTrailingSpace s → trim_right s ≡ s
unfolding trim_right
trim_right_of_NoTrailingSpace [] h = refl
trim_right_of_NoTrailingSpace (c ∷ s) h = rw (trim_right_of_NoTrailingSpace s h.0) (
    if_false (is_space (code c) && is_empty s) [] (c ∷ s)
      (not_blank (is_space (code c)) (is_empty s) h.1))

-- Trimming a second time changes nothing.
pub trim_space_idem : (s : String) → trim_space (trim_space s) ≡ trim_space s
unfolding trim_space
trim_space_idem s =
    let (leading, trailing) = trim_space_trimmed s in
    let t = trim_right (trim_left s) in
    ap trim_right (trim_left_of_NoLeadingSpace t (unfold trim_space in leading))
    ∙ trim_right_of_NoTrailingSpace t (unfold trim_space in trailing)
