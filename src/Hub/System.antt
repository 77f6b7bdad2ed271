-- ===== src/Hub/System.antt =====
-- The actor and the goroutines beside it, one step at a time, in any order.
use chat_room.Prelude.{
  true, false, none, some, List, [], ◌∷◌, ◌≡◌, receive, Outcome, ok, ◌>>=◌, contains, nat_eq,
}
use chat_room.Message.{Envelope, type_join}
use chat_room.Hub.Clients.{Ref, set_send, enqueue}
use chat_room.Hub.{Hub, Turn, Event, registered, inbound, process}

pub data Move : Type 0 where
  -- one turn of the actor
  acts : Turn → Event → Move
  -- a read pump enqueues a history or an error frame (`handleJoin`)
  pushes : Ref → Envelope → Move
  -- a write pump takes a frame off the send channel
  writes : Ref → Move
  -- the persister takes a message off its queue
  saves : Move

unfoldable pub step : Move → Hub → Outcome Hub
step (acts t e) hub = process t e hub
step (pushes c e) hub = do (h, _) ← enqueue hub.heap c e; ok (record hub { heap = h })
step (writes c) hub = elim (receive (hub.heap c).send) [
  | none ↦ ok hub
  | some (_, ch) ↦ ok (record hub { heap = set_send c ch hub.heap })
]
step saves hub = elim (receive hub.persist) [
  | none ↦ ok hub
  | some (_, q) ↦ ok (record hub { persist = q })
]

unfoldable pub run : List Move → Hub → Outcome Hub
run [] hub = ok hub
run (m ∷ ms) hub = do hub' ← step m hub; run ms hub'

-- A client registers with a fresh channel; joins and pushes come from clients that the hub has not
-- dropped.
abbrev pub IsAllowed : Move → Hub → Type 0
IsAllowed (acts t (registered c)) hub = (hub.heap c).send.closed ≡ false
IsAllowed (acts t (inbound cmd)) hub = cmd.kind ≡ type_join → contains cmd.client hub.clients ≡ true
IsAllowed (pushes c e) hub = contains c hub.clients ≡ true
IsAllowed _ hub = Unit

abbrev pub AllAllowed : List Move → Hub → Type 0
AllAllowed [] hub = Unit
AllAllowed (m ∷ ms) hub =
    IsAllowed m hub × ((hub' : Hub) → step m hub ≡ ok hub' → AllAllowed ms hub')
