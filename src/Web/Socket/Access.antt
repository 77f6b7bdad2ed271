-- ===== src/Web/Socket/Access.antt =====
-- Who gets a connection, and as which client.
use chat_room.Prelude.{
  [], ◌∷◌, clamp, false, make_chan, ℕ, ℤ, String, ◌≡◌, refl, sym, ap, ◌∙◌, ◌↔◌, Bool, true, Option,
  none, some, List,
}
use mathlib.Core.Option.{some_inj}
use chat_room.Hub.Clients.{Client, new_client}
use chat_room.Config.{Config}
use chat_room.Auth.{User, Store, Crypto, Draw}
use chat_room.Web.{Request, resolve}
use chat_room.Web.Refusals.{HasSession, session_of, resolved}
use chat_room.Web.Socket.{
  Upgrade, not_accepted, connected, origin_patterns, client_of, handle_ws, serve_ws,
}

origin_patterns_same : (os : List String) → origin_patterns os ≡ os
unfolding origin_patterns
origin_patterns_same [] = refl
origin_patterns_same (o ∷ os) = refl

module _ (format_int : ℕ → String) (accept : List String → Bool) (c : Config) where
  -- The client of a user: the decimal form of the account's id, its display name, and an empty open
  -- channel and the interval as configured.
  abbrev pub bearer : User → Client
  bearer user = record {
    id = format_int user.id;
    name = user.display_name;
    send = record { cap = clamp c.send_buffer; buf = []; closed = false };
    ping_interval = clamp c.ping_interval;
  }

  client_of-bearer : (user : User) → client_of format_int accept c user ≡ bearer user
  unfolding client_of new_client make_chan
  client_of-bearer user = refl

  -- The user who gets the connection.
  connected_user :
      (u : Option User) (client : Client) (limit : ℤ)
      → handle_ws format_int accept c u ≡ connected client limit
      → (user : User) × (u ≡ some user)
        × (accept (origin_patterns c.allowed_origins) ≡ true)
        × (client ≡ client_of format_int accept c user)
        × (limit ≡ c.max_message_size)
  unfolding handle_ws
  connected_user none client limit e = absurd cc
  connected_user (some user) client limit e =
      took (accept (origin_patterns c.allowed_origins)) refl e
    where
      took :
          (b : Bool)
          → accept (origin_patterns c.allowed_origins) ≡ b
          → (elim b as (λ _. Upgrade) [
            | true ↦ connected (client_of format_int accept c user) c.max_message_size
            | false ↦ not_accepted
          ])
            ≡ connected client limit
          → (u : User) × (some user ≡ some u)
            × (accept (origin_patterns c.allowed_origins) ≡ true)
            × (client ≡ client_of format_int accept c u)
            × (limit ≡ c.max_message_size)
      took true accepted e = (user, refl, accepted, cc, cc)
      took false rejected e = absurd cc

  -- A request for a connection gets one exactly if its cookie is not empty and leads to a user at that
  -- time, and `Accept` takes it at the configured origins; the client then bears the id, as text, and the
  -- display name of that user's account, with an empty open channel and an interval as configured, and
  -- the connection has the configured limit.
  pub serve_ws-connected_iff :
      {S : Type 0} (crypto : Crypto) (store : Store S) (ttl : ℕ) (d : Draw) (req : Request) (s : S)
      (client : Client) (limit : ℤ)
      → (serve_ws format_int accept c crypto store ttl d req s ≡ connected client limit) ↔ (
          (h : HasSession crypto store ttl c.secure_cookies d req s) × (accept c.allowed_origins
            ≡ true)
          × (client ≡ bearer h.user)
          × (limit ≡ c.max_message_size))
  unfolding serve_ws handle_ws
  serve_ws-connected_iff crypto store ttl d req s client limit = (
    λ e.
        let (user, found, took, same, limited) =
          connected_user (resolve crypto store ttl c.secure_cookies d req s) client limit e in
        let h = session_of crypto store ttl c.secure_cookies d req s user found in
        let own : user ≡ h.user =
          some_inj.0 (sym found ∙ resolved crypto store ttl c.secure_cookies d req s h) in
        (
          h,
          ap accept (sym (origin_patterns_same c.allowed_origins)) ∙ took,
          same ∙ client_of-bearer user ∙ ap bearer own,
          limited,
        ),
    λ (h, took, same, limited).
        ap (handle_ws format_int accept c) (resolved crypto store ttl c.secure_cookies d req s h)
        ∙ ap
            (λ b. elim b as (λ _. Upgrade) [
              | true ↦ connected (client_of format_int accept c h.user) c.max_message_size
              | false ↦ not_accepted
            ])
            (ap accept (origin_patterns_same c.allowed_origins) ∙ took)
        ∙ ap (λ x. connected x c.max_message_size) (client_of-bearer h.user ∙ sym same)
        ∙ ap (connected client) (sym limited),
  )
