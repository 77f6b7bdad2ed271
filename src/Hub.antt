-- ===== src/Hub.antt =====
-- internal/hub/hub.go: the actor that owns the rooms and the clients.
pub mod Clients
pub mod Rooms
pub mod Quiet
pub mod Announce
pub mod Invariant
pub mod Departure
pub mod Visits
pub mod Disconnect
pub mod Shed
pub mod Delivery
pub mod Broadcast
pub mod Membership
pub mod Leaving
pub mod System
pub mod Safety
pub mod Interleaving
pub mod Directory
pub mod Beside
pub mod Handling
pub mod Refinement
pub mod Crash
pub mod Snapshot
pub mod Calls
pub mod Reporting
pub mod Pumps
pub mod Ordering
pub mod Connections
pub mod Tests
use chat_room.Prelude.{
  ℕ, ◌+◌, ◌-◌, ◌%◌, ◌^◌, String, Bool, true, false, Option, none, some, List, [], ◌∷◌, Perm,
  if◌then◌else◌, ◌==◌, nat_eq, string_eq, length, contains, insert, delete, lookup, assign,
  drop_key, keys, Chan, make_chan, try_send, Outcome, ok, ◌>>=◌,
}
use chat_room.Message.{
  Time, Message, Presence, Envelope, envelope, FrameType, type_join, type_leave, type_message,
  type_presence,
}
use Clients.{Ref, Client, Heap, enqueue, enqueue_each, close_send}
use Rooms.{Room, new_room, add, remove, is_empty, names}

pub record Command : Type 0 where
  pub kind : FrameType
  pub client : Ref
  pub room : String
  pub text : String

-- The maps that only `Run` touches, the persist queue that the hub feeds, and the heap that the
-- client pointers lead to. `store` and `historyLimit` serve `History` alone, and stand there.
pub record Hub : Type 0 where
  pub clients : List Ref
  pub rooms : List (String × Room)
  pub persist : Chan Message
  pub messages_total : ℕ
  pub message_rate : ℕ
  pub last_sampled_total : ℕ
  pub heap : Heap

-- What one turn of the actor does not determine: the clock, whether `ctx` is cancelled and `select`
-- takes that case, and the orders in which `range` visits a map, which Go leaves open.
pub record Turn : Type 0 where
  pub now : Time
  pub takes_done : Bool
  pub order : String → List Ref → List Ref
  pub order_names : String → List Ref → List Ref
  pub order_rooms : List String → List String
  pub order-perm : (name : String) (cs : List Ref) → Perm (order name cs) cs
  pub order_names-perm : (name : String) (cs : List Ref) → Perm (order_names name cs) cs
  pub order_rooms-perm : (ns : List String) → Perm (order_rooms ns) ns

-- `New`
unfoldable pub new_hub : Chan Message → Heap → Hub
new_hub persist heap = record {
  clients = [];
  rooms = [];
  persist = persist;
  messages_total = 0;
  message_rate = 0;
  last_sampled_total = 0;
  heap = heap;
}

module _ (t : Turn) where
  pub presence_frame : Room → String → Bool → Heap → Envelope
  presence_frame r user joined h = record (envelope type_presence r.name) {
    presence =
        some (record { user = user; joined = joined; members = names (t.order_names r.name) r h });
  }

  pub broadcast_presence : Room → String → Bool → Hub → Outcome Hub
  broadcast_presence r user joined hub = do
    heap ← enqueue_each (t.order r.name r.members) (presence_frame r user joined hub.heap) hub.heap
    ok (record hub { heap = heap })

  -- The room is a pointer: what is done to it is seen in the map.
  pub room_of : String → Option Room → Room
  unfolding new_room
  room_of name none = new_room name
  room_of name (some r) = r

  pub join : Ref → String → Hub → Outcome Hub
  unfolding room_of add
  join c room hub =
      let r = add (room_of room (lookup room hub.rooms)) c in
      broadcast_presence r (hub.heap c).name true (record hub { rooms = assign room r hub.rooms })

  -- `r.remove(c)`, the announcement, and the deletion of an empty room, as `leave` and `disconnect`
  -- both have it; `key` is where the map holds `r`, and `gone` the key that is deleted.
  pub depart : Ref → String → String → Room → Hub → Outcome Hub
  unfolding remove
  depart c key gone r hub = do
    hub' ←
        broadcast_presence (remove r c) (hub.heap c).name false
          (record hub { rooms = assign key (remove r c) hub.rooms })
    ok (if is_empty (remove r c) then record hub' { rooms = drop_key gone hub'.rooms } else hub')

  pub leave : Ref → String → Hub → Outcome Hub
  leave c room hub = elim (lookup room hub.rooms) [
    | none ↦ ok hub
    | some r ↦ depart c room r.name r hub
  ]

  -- The body of the loop of `disconnect`.
  pub leave_joined : Ref → String → Hub → Outcome Hub
  leave_joined c name hub = elim (lookup name hub.rooms) [
    | none ↦ ok hub
    | some r ↦ if contains c r.members then depart c name name r hub else ok hub
  ]

  pub leave_each : Ref → List String → Hub → Outcome Hub
  leave_each c [] hub = ok hub
  leave_each c (name ∷ ns) hub = do hub' ← leave_joined c name hub; leave_each c ns hub'

  pub disconnect : Ref → Hub → Outcome Hub
  disconnect c hub =
      if contains c hub.clients
      then (do
        hub' ←
            leave_each c (t.order_rooms (keys hub.rooms))
              (record hub { clients = delete c hub.clients })
        heap ← close_send hub'.heap c
        ok (record hub' { heap = heap }))
      else ok hub

  pub disconnect_each : List Ref → Hub → Outcome Hub
  disconnect_each [] hub = ok hub
  disconnect_each (c ∷ cs) hub = do hub' ← disconnect c hub; disconnect_each cs hub'

  -- The first loop of `deliverMessage`: the heap after it, and the slow clients.
  pub deliver_each : List Ref → Envelope → Ref → Heap → Outcome (Heap × List Ref)
  deliver_each [] e except h = ok (h, [])
  deliver_each (c ∷ cs) e except h = elim (c == except) [
    | true ↦ deliver_each cs e except h
    | false ↦ do
      (h', sent) ← enqueue h c e
      (h'', slow) ← deliver_each cs e except h'
      ok (h'', if sent then slow else c ∷ slow)
  ]

  pub deliver_message : Room → Envelope → Ref → Hub → Outcome Hub
  deliver_message r e except hub = do
    (heap, slow) ← deliver_each (t.order r.name r.members) e except hub.heap
    disconnect_each slow (record hub { heap = heap })

  pub stamped : Ref → String → String → Hub → Message
  stamped c room text hub = record {
    id = 0;
    room = room;
    sender_id = (hub.heap c).id;
    sender_name = (hub.heap c).name;
    content = text;
    created_at = t.now;
  }

  -- The non-blocking hand-off to the persister.
  pub hand_off : Message → Chan Message → Outcome (Chan Message)
  unfolding try_send
  hand_off m q = if t.takes_done then ok q else (do (q', _) ← try_send q m; ok q')

  pub broadcast : Ref → String → String → Hub → Outcome Hub
  unfolding deliver_message stamped hand_off
  broadcast c room text hub = elim (lookup room hub.rooms) [
    | none ↦ ok hub
    | some r ↦ do
      let m = stamped c room text hub
      hub' ←
          deliver_message r (record (envelope type_message room) { message = some m }) c
            (record hub { messages_total = (hub.messages_total + 1) % 2 ^ 64 })
      q ← hand_off m hub'.persist
      ok (record hub' { persist = q })
  ]

  pub handle : Command → Hub → Outcome Hub
  handle cmd hub = elim cmd.kind [
    | type_join ↦ join cmd.client cmd.room hub
    | type_leave ↦ leave cmd.client cmd.room hub
    | type_message ↦ broadcast cmd.client cmd.room cmd.text hub
    | _ ↦ ok hub
  ]

-- One case of the `select` of `Run`, less the cancellation, which ends it.
pub data Event : Type 0 where
  registered unregistered : Ref → Event
  inbound : Command → Event
  queried sampled : Event

-- The subtraction wraps in 64 bits.
pub sample : Hub → Hub
sample hub = record hub {
  message_rate = (hub.messages_total + 2 ^ 64 - hub.last_sampled_total) % 2 ^ 64;
  last_sampled_total = hub.messages_total;
}

pub process : Turn → Event → Hub → Outcome Hub
unfolding sample insert
process t (registered c) hub = ok (record hub { clients = insert c hub.clients })
process t (unregistered c) hub = disconnect t c hub
process t (inbound cmd) hub = handle t cmd hub
process t queried hub = ok hub
process t sampled hub = ok (sample hub)
