-- ===== src/Hub/Tests.antt =====
-- The hub at concrete inputs: three clients in one room, of which the third has no buffer.
use chat_room.Prelude.{
  length, String, ◌≡◌, refl, sym, ap, ◌∙◌, inl, inr, false, some, List, [], ◌∷◌, ◌++◌, arith,
  if◌then◌else◌, ◌==◌, nat_eq, string_eq, Bool-cases, contains, insert, lookup, Chan, Outcome, ok,
  panic, send_on_closed,
}
use text.Mathlib.TextEquality.{eq_iff}
use mathlib.Core.List.Perm
use chat_room.Message.{Message, envelope, type_join, type_message, type_history}
use chat_room.Hub.Clients.{Ref, Heap}
use chat_room.Hub.Rooms.{Room, remove}
use chat_room.Hub.{
  FrameType, Hub, Turn, Command, join, leave, broadcast, disconnect, process, registered,
  unregistered, inbound,
}
use chat_room.Hub.Invariant.{IsValid}
use chat_room.Hub.Disconnect.{Dropped, disconnect-Dropped}
use chat_room.Hub.Broadcast.{Broadcasts, broadcast-Broadcasts}
use chat_room.Hub.Membership.{Joins, Announces, join-Joins}
use chat_room.Hub.Leaving.{Parts, leave-Parts, leave_stranger}
use chat_room.Hub.Directory.{directory, Steps}
use chat_room.Hub.Refinement.{events, run-Steps}
use chat_room.Hub.Quiet.{chats}
use chat_room.Hub.Ordering.{got, got_each, took_each}
use chat_room.Hub.Ordering.Runs.{run-delivers}
use chat_room.Hub.System.{Move, acts, pushes, writes, saves, step, run, AllAllowed}
use chat_room.Hub.Shed.{is_member}
use chat_room.Hub.Snapshot.{snapshot}
use chat_room.Hub.Reporting.{Reports, snapshot-Reports}
use chat_room.Hub.Crash.{pushes-disconnect, join-broadcast_dropped}

abbrev pub turn : Turn
turn = record {
  now = 7;
  takes_done = false;
  order = λ name cs. cs;
  order_names = λ name cs. cs;
  order_rooms = λ ns. ns;
  order-perm = λ name cs. Perm.refl cs;
  order_names-perm = λ name cs. Perm.refl cs;
  order_rooms-perm = λ ns. Perm.refl ns;
}

abbrev pub heap : Heap
heap k = record {
  id = "7";
  name = "ann";
  send = record { cap = if k == 3 then 0 else 2; buf = []; closed = false };
  ping_interval = 30;
}

abbrev lobby : Room
lobby = record { name = "lobby"; members = 1 ∷ 2 ∷ 3 ∷ [] }

abbrev pub queue : Chan Message
queue = record { cap = 1; buf = []; closed = false }

abbrev hub : Hub
hub = record {
  clients = 1 ∷ 2 ∷ 3 ∷ [];
  rooms = ("lobby", lobby) ∷ [];
  persist = queue;
  messages_total = 5;
  message_rate = 0;
  last_sampled_total = 3;
  heap = heap;
}

lobby_only :
    (name : String) (r : Room) → lookup name hub.rooms ≡ some r → (r ≡ lobby) × (name ≡ "lobby")
unfolding lookup
lobby_only name r e = elim (Bool-cases ("lobby" == name)) [
  | inl here ↦ (ground arith, sym ((eq_iff "lobby" name).0 here))
  | inr other ↦ cc
]

hub-IsValid : IsValid hub
hub-IsValid = record {
  holds = record {
    opened = λ k m. refl;
    inside = λ name r k e m. ap (λ x. contains k x.members) (sym (lobby_only name r e).0) ∙ m;
    distinct = λ name r e. rw (lobby_only name r e).0 (refl, (refl, (refl, tt)));
    named = λ name r e. ground (arith, lobby_only name r e);
    occupied = λ name r e. rw (lobby_only name r e).0 refl;
    keyed = (refl, tt);
  };
  clients = (refl, (refl, (refl, tt)));
  bounded = λ k. omega arith;
  queue_open = refl;
  queue_bounded = omega arith;
  total = omega arith;
  sampled = omega arith;
}

broadcast-Broadcasts_example :
    (hub' : Hub) × (broadcast turn 1 "lobby" "hi" hub ≡ ok hub')
    × Broadcasts turn 1 "lobby" "hi" lobby hub hub'
    × IsValid hub'
unfolding lookup
broadcast-Broadcasts_example = broadcast-Broadcasts turn 1 "lobby" "hi" lobby hub hub-IsValid refl

disconnect-Dropped_example :
    (hub' : Hub) × (disconnect turn 2 hub ≡ ok hub') × Dropped 2 hub hub' × IsValid hub'
disconnect-Dropped_example = disconnect-Dropped turn 2 hub-IsValid refl

snapshot-Reports_example : Reports hub (snapshot hub)
snapshot-Reports_example = snapshot-Reports hub hub-IsValid

join-Joins_example :
    (hub' : Hub) × (join turn 2 "den" hub ≡ ok hub') × Joins 2 "den" hub hub' × IsValid hub'
join-Joins_example = join-Joins turn 2 "den" hub hub-IsValid refl

leave-Parts_example :
    (hub' : Hub) × (leave turn 2 "lobby" hub ≡ ok hub')
    × Parts 2 "lobby" lobby hub hub'
    × IsValid hub'
unfolding lookup
leave-Parts_example = leave-Parts turn 2 "lobby" lobby hub hub-IsValid refl

join-broadcast_dropped_example :
    (hub' : Hub) × (broadcast turn 1 "lobby" "hi" hub ≡ ok hub')
    × (join turn 3 "den" hub' ≡ panic send_on_closed)
unfolding lookup
join-broadcast_dropped_example =
    join-broadcast_dropped turn turn 1 3 "lobby" "hi" "den" lobby hub hub-IsValid refl refl

pushes-disconnect_example :
    (hub' : Hub) × (disconnect turn 2 hub ≡ ok hub')
    × (step (pushes 2 (envelope type_history "den")) hub' ≡ panic send_on_closed)
pushes-disconnect_example =
    pushes-disconnect turn 2 (envelope type_history "den") hub hub-IsValid refl

abbrev den_command : FrameType → Ref → Command
den_command kind c = record { kind = kind; client = c; room = "den"; text = "hi" }

-- A client registers, joins a room, writes to it, has its frames written, and leaves.
abbrev moves : List Move
moves =
    acts turn (registered 4)
    ∷ acts turn (inbound (den_command type_join 4))
    ∷ acts turn (inbound (den_command type_message 4))
    ∷ writes 4
    ∷ saves
    ∷ acts turn (unregistered 4)
    ∷ []

clients_of : Outcome Hub → List Ref
clients_of (ok h) = h.clients
clients_of (panic p) = []

moves-AllAllowed : AllAllowed moves hub
unfolding step process insert clients_of
moves-AllAllowed = (
  refl,
  λ h1 e1. (
    λ j. ap (contains 4) (sym (ap clients_of e1)),
    λ h2 e2. (λ j. cc, λ h3 e3. (tt, λ h4 e4. (tt, λ h5 e5. (tt, λ h6 e6. tt)))),
  ),
)

run-Steps_example :
    (hub' : Hub) × (run moves hub ≡ ok hub')
    × Steps (events moves) (directory hub) (directory hub')
    × IsValid hub'
run-Steps_example = run-Steps moves hub hub-IsValid moves-AllAllowed

leave_stranger_example :
    (hub' : Hub) × (leave turn 9 "lobby" hub ≡ ok hub')
    × ((k : Ref) (j : String) → is_member k j hub' ≡ is_member k j hub)
    × Announces (remove lobby 9) "ann" false hub.heap hub'.heap
unfolding lookup
leave_stranger_example = leave_stranger turn 9 "lobby" lobby hub hub-IsValid refl refl

abbrev lobby_message : String → Command
lobby_message text = record { kind = type_message; client = 1; room = "lobby"; text = text }

-- Two messages to the lobby; the write pump of the second client is between them.
abbrev talk : List Move
talk =
    acts turn (inbound (lobby_message "hi"))
    ∷ writes 2
    ∷ acts turn (inbound (lobby_message "there"))
    ∷ []

run-delivers_example :
    (hub' : Hub) × (run talk hub ≡ ok hub')
    × (chats (took_each 2 talk hub) ++ chats (hub'.heap 2).send.buf
        ≡ chats (hub.heap 2).send.buf ++ got_each 2 talk hub)
run-delivers_example =
    run-delivers 2 talk hub hub-IsValid
      ((λ j. absurd cc), λ h e. (tt, λ h' e'. ((λ j. absurd cc), λ h'' e''. tt)))

-- The second client gets the message, and the sender and the client without a buffer do not.
got_test :
    (length (got 2 (acts turn (inbound (lobby_message "hi"))) hub) ≡ 1)
    × (got 1 (acts turn (inbound (lobby_message "hi"))) hub ≡ [])
    × (got 3 (acts turn (inbound (lobby_message "hi"))) hub ≡ [])
unfolding got lookup
got_test = (refl, refl, refl)
