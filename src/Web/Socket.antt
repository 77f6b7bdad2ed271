-- ===== src/Web/Socket.antt =====
-- `handleWS` of internal/web/server.go and the connections of internal/web/conn.go. The packages
-- websocket and JSON are parameters, and so is `strconv.FormatInt` at base 10.
pub mod Access
pub mod Frames
pub mod Tests
use chat_room.Prelude.{ℕ, ℤ, clamp, String, Bool, true, false, Option, none, some, List, [], ◌∷◌}
use chat_room.Message.{Envelope}
use chat_room.Hub.Clients.{Client, new_client}
use chat_room.Config.{Config}
use chat_room.Auth.{User, Store, Crypto, Draw}
use chat_room.Web.{Request, Response, plain, reply, resolve}

-- How the request ends: with a response of the handler, with one that `Accept` has written, or as a
-- connection with its read limit and the client that registers and runs.
pub data Upgrade : Type 0 where
  refused : Response → Upgrade
  not_accepted : Upgrade
  connected : Client → (read_limit : ℤ) → Upgrade

-- `AcceptOptions`; without patterns only the server's own origin is accepted.
unfoldable pub origin_patterns : (allowed_origins : List String) → List String
origin_patterns [] = []
origin_patterns (o ∷ os) = o ∷ os

module _ (format_int : ℕ → String) (accept : (origin_patterns : List String) → Bool)
    (c : Config) where
  -- A negative buffer or interval panics, and `Validate` lets none pass.
  unfoldable pub client_of : User → Client
  client_of user =
      new_client (format_int user.id) user.display_name (clamp c.send_buffer)
        (clamp c.ping_interval)

  unfoldable pub handle_ws : Option User → Upgrade
  unfolding client_of origin_patterns
  handle_ws none = refused (reply 401 (plain "authentication required"))
  handle_ws (some user) = elim (accept (origin_patterns c.allowed_origins)) [
    | true ↦ connected (client_of user) c.max_message_size
    | false ↦ not_accepted
  ]

  -- `GET /ws` through the middleware.
  unfoldable pub serve_ws :
      {S : Type 0} → Crypto → Store S → (session_ttl : ℕ) → Draw → Request → S → Upgrade
  unfolding handle_ws
  serve_ws crypto store session_ttl d req s =
      handle_ws (resolve crypto store session_ttl c.secure_cookies d req s)

module _ {B : Type 0} (unmarshal : B → Option Envelope) where
  -- `Read`, at what the connection gives; `none` is an error.
  unfoldable pub read : Option B → Option Envelope
  read none = none
  read (some data_) = unmarshal data_

  -- What the read pump gets: the frames up to the first error.
  unfoldable pub frames : List (Option B) → List Envelope
  unfolding read
  frames [] = []
  frames (b ∷ bs) = let rest = frames bs in elim (read b) [ none ↦ [] | some env ↦ env ∷ rest ]

-- `Write`: the text that it hands the connection, and whether it returns without an error.
unfoldable pub write :
    {B : Type 0} (marshal : Envelope → Option B) (sends : B → Bool) → Envelope → Option B × Bool
write marshal sends env = elim (marshal env) [
  | none ↦ (none, false)
  | some data_ ↦ (some data_, sends data_)
]
