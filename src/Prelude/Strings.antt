-- ===== src/Prelude/Strings.antt =====
-- Prefixes, suffixes and the order of texts, as in Go's package strings and its `<`.
use Prim.Native.Char.{code}
use Prim.Native.String.{String, [], ◌∷◌}
use chat_room.Prelude.Tests.{ltb, nat_beq, if◌then◌else◌, ◌==◌, string_eq}
use mathlib.Core.Path.{◌≡◌, refl}
use native.Mathlib.Omega.{arith}
use mathlib.Core.Bool.{Bool, true, false, ◌&&◌, ◌||◌}

unfoldable pub has_prefix : (s prefix : String) → Bool
has_prefix s [] = true
has_prefix [] (p ∷ ps) = false
has_prefix (c ∷ s) (p ∷ ps) = nat_beq (code c) (code p) && has_prefix s ps

unfoldable pub has_suffix : (s suffix : String) → Bool
has_suffix [] suffix = [] == suffix
has_suffix (c ∷ s) suffix = ((c ∷ s) == suffix) || has_suffix s suffix

-- Without as many characters as the prefix has.
drop_prefix : (s prefix : String) → String
drop_prefix s [] = s
drop_prefix [] (p ∷ ps) = []
drop_prefix (c ∷ s) (p ∷ ps) = drop_prefix s ps

unfoldable pub trim_prefix : (s prefix : String) → String
unfolding drop_prefix has_prefix
trim_prefix s prefix = if has_prefix s prefix then drop_prefix s prefix else s

-- Go compares the bytes of UTF-8, which are in the order of the code points.
unfoldable pub string_ltb : String → String → Bool
string_ltb s [] = false
string_ltb [] (d ∷ t) = true
string_ltb (c ∷ s) (d ∷ t) = ltb (code c) (code d) || (nat_beq (code c) (code d) && string_ltb s t)

pub string_ltb_asym : (s t : String) → string_ltb s t ≡ true → string_ltb t s ≡ false
unfolding string_ltb
string_ltb_asym [] [] h = absurd cc
string_ltb_asym (c ∷ s) [] h = absurd cc
string_ltb_asym [] (d ∷ t) h = refl
string_ltb_asym (c ∷ s) (d ∷ t) h = ground (arith, string_ltb_asym s t)
