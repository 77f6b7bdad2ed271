-- ===== src/Web/Socket/Tests.antt =====
-- Connections at concrete requests, over the store of one account.
use chat_room.Prelude.{
  ℕ, if◌then◌else◌, pos, String, ◌≡◌, refl, ◌↔◌, Bool, true, false, Option, none, some, List, [],
  ◌∷◌, ◌++◌, map, ◌==◌, nat_eq, string_eq,
}
use chat_room.Message.{Envelope, envelope, type_join}
use chat_room.Config.{Config, default_config}
use chat_room.Auth.Tests.{database, crypto, draw, ann, registered}
use chat_room.Hub.Clients.{Client, new_client}
use chat_room.Hub.Pumps.{Loaded, loaded, read_pump}
use chat_room.Web.Sessions.{with_cookie}
use chat_room.Web.Refusals.{HasSession}
use chat_room.Web.Socket.{connected, handle_ws, serve_ws, frames, write}
use chat_room.Web.Socket.Access.{bearer, serve_ws-connected_iff}
use chat_room.Web.Socket.Frames.{read_pump-malformed}

abbrev config : Config
config = record default_config { allowed_origins = "example.org" ∷ [] }

abbrev same_site : List String → Bool
same_site [] = false
same_site (o ∷ os) = o == "example.org"

-- The decimal form of the ids that occur.
abbrev texts : ℕ → String
texts n = if n == 1 then "1" else "2"

abbrev ann_client : Client
ann_client = bearer texts same_site config ann

serve_ws-connected_iff_example :
    (serve_ws texts same_site config crypto database 50 draw (with_cookie "t0k") registered
      ≡ connected ann_client (pos 4096))
    ↔ ((h : HasSession crypto database 50 config.secure_cookies draw (with_cookie "t0k") registered)
        × (same_site config.allowed_origins ≡ true)
        × (ann_client ≡ bearer texts same_site config h.user)
        × (pos 4096 ≡ config.max_message_size))
serve_ws-connected_iff_example =
    serve_ws-connected_iff texts same_site config crypto database 50 draw (with_cookie "t0k")
      registered ann_client (pos 4096)

handle_ws_test :
    handle_ws texts same_site config (some ann)
    ≡ connected (new_client "1" "Ann" 16 30_000_000_000) (pos 4096)
unfolding handle_ws default_config
handle_ws_test = refl

abbrev decode : String → Option Envelope
decode s = if s == "join" then some (envelope type_join "go") else none

abbrev at_no_history : List Envelope → List ((String → Loaded) × Envelope)
at_no_history = map λ env. (λ room. loaded [], env)

malformed_test :
    read_pump 3 (at_no_history (frames decode ((some "join" ∷ []) ++ some "{" ∷ some "join" ∷ [])))
    ≡ read_pump 3 (at_no_history (frames decode (some "join" ∷ [])))
malformed_test =
    read_pump-malformed decode 3 at_no_history (some "join" ∷ []) (some "join" ∷ []) "{" refl

write_test :
    write {B = String} (λ e. some "text") (λ s. s == "text") (envelope type_join "go")
    ≡ (some "text", true)
unfolding write
write_test = refl
