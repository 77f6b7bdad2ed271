-- ===== src/Web/Safe.antt =====
-- Which requests can change an account or a session.
use chat_room.Prelude.{
  ℕ, String, ◌≡◌, refl, ◌⊎◌, inl, inr, Bool, true, false, List, string_eq, has_suffix, arith,
}
use text.Mathlib.TextEquality.{eq_iff}
use chat_room.Config.{Config}
use chat_room.Hub.Snapshot.{Stats}
use chat_room.Auth.{Store, Crypto, Draw}
use chat_room.Web.{Request, post_register, post_login, post_logout, get_me, get_rooms, serve}
use chat_room.Web.Routing.Mux.{matches_path, matches_request, AllMatching, IsFound, IsMux}
use chat_room.Web.Routing.{
  Target, static, api, socket, pattern, patterns, Chosen, found, unmatched, Mux, answer, dispatch,
  handle_request,
}

-- Its handler writes nothing.
abbrev IsHarmless : Target → Type 0
IsHarmless (api post_register) = ⊥
IsHarmless (api post_login) = ⊥
IsHarmless (api post_logout) = ⊥
IsHarmless _ = Unit

-- A request by POST to one of the three paths that change an account or a session.
abbrev pub IsWrite : (method path : String) → Type 0
IsWrite method path =
    (method ≡ "POST") × ((path ≡ "/api/register") ⊎ (path ≡ "/api/login") ⊎ (path ≡ "/api/logout"))

post_matches :
    (target : Target) (own method path : String)
    → has_suffix own "/" ≡ false
    → matches_request (pattern "POST" own target) method path ≡ true
    → (method ≡ "POST") × (path ≡ own)
unfolding matches_request matches_path
post_matches target own method path n m =
    (ground (arith, eq_iff "POST" method, m), ground (arith, eq_iff own path, n, m))

patterns-AllMatching :
    (method path : String)
    → ¬ IsWrite method path
    → AllMatching (λ p. IsHarmless p.target) method path patterns
unfolding patterns has_suffix
patterns-AllMatching method path h = (
  λ m. tt,
  (
    λ m. absurd (let (e, f) = post_matches _ "/api/register" method path refl m in h (e, inl f)),
    (
      λ m.
          absurd
            (let (e, f) = post_matches _ "/api/login" method path refl m in h (e, inr (inl f))),
      (
        λ m.
            absurd
              (let (e, f) = post_matches _ "/api/logout" method path refl m in h (e, inr (inr f))),
        (λ m. tt, (λ m. tt, (λ m. tt, tt))),
      ),
    ),
  ),
)

module _ {S : Type 0} (mux : Mux) (crypto : Crypto) (store : Store S) (ttl : ℕ)
    (format_int : ℕ → String) (accept : List String → Bool) (c : Config) where
  harmless :
      (t : Target) (d : Draw) (now : Stats) (path : String) (req : Request) (s : S)
      → IsHarmless t
      → (answer mux crypto store ttl format_int accept c t d now path req s).0 ≡ s
  unfolding answer serve
  harmless static d now path req s h = refl
  harmless (api post_register) d now path req s h = absurd h
  harmless (api post_login) d now path req s h = absurd h
  harmless (api post_logout) d now path req s h = absurd h
  harmless (api get_me) d now path req s h = refl
  harmless (api get_rooms) d now path req s h = refl
  harmless socket d now path req s h = refl

  dispatch-IsFound :
      (o : Chosen) (d : Draw) (now : Stats) (method path : String) (req : Request) (s : S)
      → IsFound (λ p. IsHarmless p.target) o
      → (dispatch mux crypto store ttl format_int accept c o d now path req s).0 ≡ s
  unfolding dispatch
  dispatch-IsFound (unmatched r) d now method path req s h = refl
  dispatch-IsFound (found p) d now method path req s h = harmless p.target d now path req s h

  -- With a mux that does what net/http documents, a request leaves all accounts and sessions as they
  -- are, whatever its method and path, its cookie and its body, unless it is a POST to the registration, the login or the logout: no link and no
  -- GET can change them.
  pub handle_request_reads :
      (d : Draw) (now : Stats) (method path : String) (req : Request) (s : S)
      → IsMux mux patterns
      → ¬ IsWrite method path
      → (handle_request mux crypto store ttl format_int accept c d now method path req s).0 ≡ s
  unfolding handle_request
  handle_request_reads d now method path req s law h =
      dispatch-IsFound (mux patterns method path) d now method path req s
        (law.matching (λ p. IsHarmless p.target) method path (patterns-AllMatching method path h))
