-- ===== src/Hub/Invariant.antt =====
-- What holds of the hub between two turns of the actor.
use chat_room.Prelude.{
  String, ◌≡◌, ◌≤◌, ◌<◌, ◌^◌, true, false, some, List, length, contains, Distinct, lookup, keys,
  nat_eq, string_eq,
}
use chat_room.Hub.Clients.{Ref, Heap, AllOpen}
use chat_room.Hub.Rooms.{Room, is_empty}
use chat_room.Hub.{Hub}

-- The rooms hold live clients only, each once; no room is empty; live clients can be sent to.
pub record Holds (live : List Ref) (rooms : List (String × Room)) (heap : Heap) : Type 0 where
  pub opened : AllOpen live heap
  pub inside :
      (name : String) (r : Room) (c : Ref)
      → lookup name rooms ≡ some r
      → contains c r.members ≡ true
      → contains c live ≡ true
  pub distinct : (name : String) (r : Room) → lookup name rooms ≡ some r → Distinct r.members
  pub named : (name : String) (r : Room) → lookup name rooms ≡ some r → r.name ≡ name
  pub occupied : (name : String) (r : Room) → lookup name rooms ≡ some r → is_empty r ≡ false
  pub keyed : Distinct (keys rooms)

pub record IsValid (hub : Hub) : Type 0 where
  pub holds : Holds hub.clients hub.rooms hub.heap
  pub clients : Distinct hub.clients
  pub bounded : (c : Ref) → length (hub.heap c).send.buf ≤ (hub.heap c).send.cap
  pub queue_open : hub.persist.closed ≡ false
  pub queue_bounded : length hub.persist.buf ≤ hub.persist.cap
  pub total : hub.messages_total < 2 ^ 64
  pub sampled : hub.last_sampled_total < 2 ^ 64
