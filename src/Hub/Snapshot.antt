-- ===== src/Hub/Snapshot.antt =====
-- `Stats` and `snapshot` of internal/hub/hub.go: what the hub tells of itself.
use chat_room.Prelude.{ℕ, String, List, [], ◌∷◌, length}
use chat_room.Hub.Rooms.{Room}
use chat_room.Hub.{Hub}

pub record RoomInfo : Type 0 where
  pub name : String
  pub members : ℕ

pub record Stats : Type 0 where
  pub connections : ℕ
  pub rooms : List RoomInfo
  pub messages_total : ℕ
  pub message_rate : ℕ

-- The loop over the rooms, in the order of the association list; what is read off it below does not
-- depend on the order.
unfoldable pub room_infos : List (String × Room) → List RoomInfo
room_infos [] = []
room_infos ((name, r) ∷ m) = record { name = name; members = length r.members } ∷ room_infos m

unfoldable pub snapshot : Hub → Stats
unfolding room_infos
snapshot hub = record {
  connections = length hub.clients;
  rooms = room_infos hub.rooms;
  messages_total = hub.messages_total;
  message_rate = hub.message_rate;
}
