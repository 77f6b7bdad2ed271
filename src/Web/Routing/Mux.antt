-- ===== src/Web/Routing/Mux.antt =====
-- What the package net/http documents of `ServeMux`, as hypotheses of the theorems that need it.
use chat_room.Prelude.{
  String, ◌≡◌, Bool, true, false, ◌&&◌, ◌||◌, List, [], ◌∷◌, if◌then◌else◌, ◌==◌, string_eq,
  has_prefix, has_suffix,
}
use chat_room.Web.Routing.{Pattern, Chosen, found, unmatched, Mux}

-- A pattern that ends in a slash matches every path that begins with it.
unfoldable pub matches_path : Pattern → String → Bool
matches_path p path = if has_suffix p.path "/" then has_prefix path p.path else p.path == path

-- GET stands for HEAD too.
unfoldable pub matches_request : Pattern → String → String → Bool
unfolding matches_path
matches_request p method path =
    (p.method == method || (p.method == "GET" && method == "HEAD")) && matches_path p path

module _ (Q : Pattern → Type 0) where
  -- Every pattern that matches satisfies `Q`.
  abbrev pub AllMatching : (method path : String) → List Pattern → Type 0
  AllMatching method path [] = Unit
  AllMatching method path (p ∷ ps) =
      (matches_request p method path ≡ true → Q p) × AllMatching method path ps

  -- A pattern that was chosen satisfies it.
  abbrev pub IsFound : Chosen → Type 0
  IsFound (found p) = Q p
  IsFound (unmatched r) = Unit

-- At its own method and path a pattern that does not end in a slash is chosen, as the most specific.
abbrev pub AllExact : ((method path : String) → Chosen) → List Pattern → Type 0
AllExact choose [] = Unit
AllExact choose (p ∷ ps) =
    (has_suffix p.path "/" ≡ false → choose p.method p.path ≡ found p) × AllExact choose ps

-- `ServeMux` with these patterns.
pub record IsMux (mux : Mux) (ps : List Pattern) : Type 1 where
  -- Only a pattern that matches the request is chosen.
  pub matching :
      (Q : Pattern → Type 0) (method path : String)
      → AllMatching Q method path ps
      → IsFound Q (mux ps method path)
  pub exact : AllExact (mux ps) ps
