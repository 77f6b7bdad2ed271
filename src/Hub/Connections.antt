-- ===== src/Hub/Connections.antt =====
-- The connections together: `Run` of internal/hub/client.go, and `handleWS` of internal/web/server.go
-- around it. Each has a read pump that does one action after the other, beside the actor, the write
-- pumps and the persister.
pub mod Settled
pub mod Continuing
pub mod Dropped
pub mod Manned
pub mod Closing
pub mod Due
pub mod Delivering
pub mod Tests
use chat_room.Prelude.{
  ℕ, String, Bool, true, false, ◌≡◌, some, List, [], ◌∷◌, if◌then◌else◌, ◌==◌, nat_eq, lookup,
  string_eq, Outcome, ok, ◌>>=◌,
}
use chat_room.Message.{Envelope, type_message}
use chat_room.Hub.Clients.{Ref, Client, Heap, new_client}
use chat_room.Hub.Rooms.{Room}
use chat_room.Hub.Broadcast.{is_dropped}
use chat_room.Hub.Pumps.{Loaded, Action, push, submit, unregister, on_frame}
use chat_room.Hub.System.{Move, acts, pushes, writes, saves, step}
use chat_room.Hub.{Hub, Turn, Command, registered, unregistered, inbound, queried, sampled, process}

-- The goroutine of one connection: not accepted yet, in its read pump with the actions left before
-- it reads the next frame, or returned.
pub data Thread : Type 0 where
  waiting : Thread
  reading : List Action → Thread
  finished : Thread

pub record Server : Type 0 where
  pub hub : Hub
  pub threads : Ref → Thread

abbrev pub set_thread : Ref → Thread → (Ref → Thread) → Ref → Thread
set_thread c th threads d = if c == d then th else threads d

abbrev pub set_client : Ref → Client → Heap → Heap
set_client c client h d = if c == d then client else h d

-- What happens next, in any order.
pub data Deed : Type 0 where
  -- `handleWS`: `NewClient`, `Register`, and `Run` starts
  connects : Turn → Ref → (id name : String) → (send_buffer ping_interval : ℕ) → Deed
  -- the read pump reads a frame; what `History` returns is part of what it does with it
  reads : Ref → (String → Loaded) → Envelope → Deed
  -- `Read` fails, and the deferred call is left
  hangs_up : Ref → Deed
  -- the read pump does the next of its actions
  proceeds : Turn → Ref → Deed
  -- a write pump takes a frame
  drains : Ref → Deed
  -- the persister takes a message
  stores : Deed
  -- the actor answers a snapshot, or samples the rate
  asked timed : Turn → Deed

unfoldable pub connect : Turn → Ref → Client → Thread → Hub → Outcome (Hub × Thread)
connect t c client waiting hub = do
  hub' ← process t (registered c) (record hub { heap = set_client c client hub.heap })
  ok (hub', reading [])
connect t c client th hub = ok (hub, th)

abbrev pub move_of : Turn → Ref → Action → Move
move_of t c (push e) = pushes c e
move_of t c (submit cmd) = acts t (inbound cmd)
move_of t c unregister = acts t (unregistered c)

abbrev pub after : Action → List Action → Thread
after unregister rest = finished
after a rest = reading rest

unfoldable pub proceed : Turn → Ref → Thread → Hub → Outcome (Hub × Thread)
proceed t c (reading (a ∷ rest)) hub = do hub' ← step (move_of t c a) hub; ok (hub', after a rest)
proceed t c th hub = ok (hub, th)

-- A read pump reads when it has nothing left to do.
abbrev pub next : List Action → Thread → Thread
next todo (reading []) = reading todo
next todo th = th

-- A deed that cannot happen now changes nothing.
unfoldable pub perform : Deed → Server → Outcome Server
perform (connects t c id name send_buffer ping_interval) s = do
  (hub, th) ← connect t c (new_client id name send_buffer ping_interval) (s.threads c) s.hub
  ok (record { hub = hub; threads = set_thread c th s.threads })
perform (reads c load env) s =
    ok (record s { threads = set_thread c (next (on_frame c load env) (s.threads c)) s.threads })
perform (hangs_up c) s =
    ok (record s { threads = set_thread c (next (unregister ∷ []) (s.threads c)) s.threads })
perform (proceeds t c) s = do
  (hub, th) ← proceed t c (s.threads c) s.hub
  ok (record { hub = hub; threads = set_thread c th s.threads })
perform (drains c) s = do hub ← step (writes c) s.hub; ok (record s { hub = hub })
perform stores s = do hub ← step saves s.hub; ok (record s { hub = hub })
perform (asked t) s = do hub ← process t queried s.hub; ok (record s { hub = hub })
perform (timed t) s = do hub ← process t sampled s.hub; ok (record s { hub = hub })

unfoldable pub perform_each : List Deed → Server → Outcome Server
perform_each [] s = ok s
perform_each (d ∷ ds) s = do s' ← perform d s; perform_each ds s'

-- A message that is next finds no other member's buffer full.
abbrev pub HasRoom : Thread → Hub → Type 0
HasRoom (reading (submit cmd ∷ rest)) hub =
    (r : Room) (k : Ref)
    → cmd.kind ≡ type_message
    → lookup cmd.room hub.rooms ≡ some r
    → is_dropped hub.heap cmd.client r k ≡ false
HasRoom th hub = Unit

abbrev pub IsFast : Deed → Server → Type 0
IsFast (proceeds t c) s = HasRoom (s.threads c) s.hub
IsFast d s = Unit

-- No message finds the buffer of another member full.
abbrev pub AllFast : List Deed → Server → Type 0
AllFast [] s = Unit
AllFast (d ∷ ds) s = IsFast d s × ((s' : Server) → perform d s ≡ ok s' → AllFast ds s')

-- No connection yet.
unfoldable pub start : Hub → Server
start hub = record { hub = hub; threads = λ c. waiting }
