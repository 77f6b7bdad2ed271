-- ===== src/Web/Routing/Tests.antt =====
-- A mux that chooses the longest pattern that matches, and answers with 405 or 404 where none does.
use Prim.Native.String.{len}
use chat_room.Prelude.{
  if_holds, String, ◌≡◌, refl, Bool, true, false, ◌||◌, Option, none, some, List, [], ◌∷◌, ltb,
  if◌then◌else◌, string_eq, has_prefix, has_suffix,
}
use chat_room.Web.{get_me, post_login, plain, reply}
use chat_room.Web.Routing.Mux.{matches_path, matches_request, AllMatching, IsFound, AllExact, IsMux}
use chat_room.Web.Routing.{
  static, api, socket, Pattern, pattern, patterns, Chosen, found, unmatched, Mux,
}

abbrev longer : Pattern → Option Pattern → Pattern
longer p none = p
longer p (some q) = if ltb (len p.path) (len q.path) then q else p

unfoldable pub best : String → String → List Pattern → Option Pattern
unfolding matches_request
best method path [] = none
best method path (p ∷ ps) =
    let rest = best method path ps in
    if matches_request p method path then some (longer p rest) else rest

unfoldable pub any_method : String → List Pattern → Bool
unfolding matches_path
any_method path [] = false
any_method path (p ∷ ps) = matches_path p path || any_method path ps

unfoldable pub chosen : Bool → Option Pattern → Chosen
chosen known none = unmatched (
    if known
    then reply 405 (plain "Method Not Allowed")
    else reply 404 (plain "404 page not found"))
chosen known (some p) = found p

unfoldable pub longest : Mux
unfolding best any_method chosen
longest ps method path = chosen (any_method path ps) (best method path ps)

module _ (Q : Pattern → Type 0) (method path : String) where
  abbrev IsBest : Option Pattern → Type 0
  IsBest none = Unit
  IsBest (some p) = Q p

  longer-IsBest : (p : Pattern) (rest : Option Pattern) → Q p → IsBest rest → Q (longer p rest)
  longer-IsBest p none h k = h
  longer-IsBest p (some q) h k = if_holds Q (ltb (len p.path) (len q.path)) k h

  kept-IsBest :
      (b : Bool) (p : Pattern) (rest : Option Pattern)
      → (b ≡ true → Q p)
      → IsBest rest
      → IsBest (if b then some (longer p rest) else rest)
  kept-IsBest true p rest h k = longer-IsBest p rest (h refl) k
  kept-IsBest false p rest h k = k

  best-IsBest : (ps : List Pattern) → AllMatching Q method path ps → IsBest (best method path ps)
  unfolding best
  best-IsBest [] a = tt
  best-IsBest (p ∷ ps) (h, hs) =
      kept-IsBest (matches_request p method path) p (best method path ps) h (best-IsBest ps hs)

  chosen-IsFound : (b : Bool) (o : Option Pattern) → IsBest o → IsFound Q (chosen b o)
  unfolding chosen
  chosen-IsFound b none h = tt
  chosen-IsFound b (some p) h = h

longest-AllExact : AllExact (longest patterns) patterns
unfolding longest patterns best any_method chosen matches_request matches_path has_suffix has_prefix
longest-AllExact = (
  λ e. absurd cc,
  (λ e. refl, (λ e. refl, (λ e. refl, (λ e. refl, (λ e. refl, (λ e. refl, tt)))))),
)

pub longest-IsMux : IsMux longest patterns
unfolding longest
longest-IsMux = record {
  matching = λ Q method path a.
      chosen-IsFound Q method path (any_method path patterns) (best method path patterns)
        (best-IsBest Q method path patterns a);
  exact = longest-AllExact;
}

-- The most specific pattern wins, GET takes HEAD, and every path is served by GET.
routing_test :
    (longest patterns "GET" "/api/me" ≡ found (pattern "GET" "/api/me" (api get_me)))
    × (longest patterns "HEAD" "/ws" ≡ found (pattern "GET" "/ws" socket))
    × (longest patterns "GET" "/api/login" ≡ found (pattern "GET" "/" static))
    × (longest patterns "POST" "/api/login" ≡ found (pattern "POST" "/api/login" (api post_login)))
    × (longest patterns "DELETE" "/api/login" ≡ unmatched (reply 405 (plain "Method Not Allowed")))
unfolding longest patterns best any_method chosen matches_request matches_path has_suffix has_prefix
    reply
routing_test = (refl, refl, refl, refl, refl)
