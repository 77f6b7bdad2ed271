-- ===== src/Web/Routing.antt =====
-- `New` of internal/web/server.go: the patterns of the mux, and one request through the middleware and
-- the mux to its handler. `ServeMux` is a parameter, at a path that needs no cleaning.
pub mod Mux
pub mod Tests
use Prim.Native.String.{len}
use chat_room.Prelude.{
  ℕ, String, Bool, false, ◌&&◌, ◌||◌, Option, none, some, List, [], ◌∷◌, ltb, if◌then◌else◌, ◌==◌,
  string_eq, has_prefix, has_suffix,
}
use chat_room.Config.{Config}
use chat_room.Hub.Snapshot.{Stats}
use chat_room.Auth.{Store, Crypto, Draw}
use chat_room.Web.Socket.{Upgrade, serve_ws}
use chat_room.Web.{
  Response, Request, Route, post_register, post_login, post_logout, get_me, get_rooms, plain, reply,
  serve,
}

pub data Target : Type 0 where
  static : Target
  api : Route → Target
  socket : Target

pub record Pattern : Type 0 where
  pub method : String
  pub path : String
  pub target : Target

abbrev pub pattern : String → String → Target → Pattern
pattern method path target = record { method = method; path = path; target = target }

-- The patterns that `New` registers.
unfoldable pub patterns : List Pattern
patterns =
    pattern "GET" "/" static
    ∷ pattern "POST" "/api/register" (api post_register)
    ∷ pattern "POST" "/api/login" (api post_login)
    ∷ pattern "POST" "/api/logout" (api post_logout)
    ∷ pattern "GET" "/api/me" (api get_me)
    ∷ pattern "GET" "/api/rooms" (api get_rooms)
    ∷ pattern "GET" "/ws" socket
    ∷ []

-- What `ServeMux` makes of a request: a pattern that it was given, or a response of its own.
pub data Chosen : Type 0 where
  found : Pattern → Chosen
  unmatched : Response → Chosen

abbrev pub Mux : Type 0
Mux = List Pattern → (method path : String) → Chosen

-- What a request gets: a response of the API or of the mux, a static file or its absence, or what
-- becomes of an upgrade.
pub data Answer : Type 0 where
  responded : Response → Answer
  file : String → Answer
  upgraded : Upgrade → Answer

module _ {S : Type 0} (mux : Mux) (crypto : Crypto) (store : Store S) (session_ttl : ℕ)
    (format_int : ℕ → String) (accept : List String → Bool) (c : Config) where
  unfoldable pub answer : Target → Draw → Stats → String → Request → S → S × Answer
  unfolding serve_ws
  answer static d now path req s = (s, file path)
  answer (api route) d now path req s =
      let (s', r) = serve crypto store session_ttl c.secure_cookies d now route req s in
      (s', responded r)
  answer socket d now path req s =
      (s, upgraded (serve_ws format_int accept c crypto store session_ttl d req s))

  unfoldable pub dispatch : Chosen → Draw → Stats → (path : String) → Request → S → S × Answer
  unfolding answer
  dispatch (found p) d now path req s = answer p.target d now path req s
  dispatch (unmatched r) d now path req s = (s, responded r)

  unfoldable pub handle_request : Draw → Stats → (method path : String) → Request → S → S × Answer
  unfolding dispatch patterns
  handle_request d now method path req s = dispatch (mux patterns method path) d now path req s
