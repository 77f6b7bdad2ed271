-- ===== src/Hub/Reporting.antt =====
-- `snapshot`: what the rooms API is told about the hub.
use chat_room.Prelude.{
  ℕ, ◌<◌, String, ◌≡◌, refl, sym, ap, ◌∙◌, inl, inr, false, Option, none, some, List, [], ◌∷◌, map,
  arith, if◌then◌else◌, ◌==◌, nat_eq, string_eq, Bool-cases, length, Distinct, lookup, keys,
}
use chat_room.Hub.Rooms.{Room, is_empty}
use chat_room.Hub.Invariant.{IsValid}
use chat_room.Hub.{Hub}
use chat_room.Hub.Snapshot.{RoomInfo, Stats, room_infos, snapshot}

-- The number of members that a list of rooms gives for a name.
abbrev pub size_of : String → List RoomInfo → Option ℕ
size_of name [] = none
size_of name (i ∷ is) = if i.name == name then some i.members else size_of name is

abbrev pub size : Option Room → Option ℕ
size none = none
size (some r) = some (length r.members)

-- The rooms of the hub with their sizes, none of them empty and each once.
pub record Reports (hub : Hub) (stats : Stats) : Type 0 where
  pub sizes : (name : String) → size_of name stats.rooms ≡ size (lookup name hub.rooms)
  pub busy : (name : String) (n : ℕ) → size_of name stats.rooms ≡ some n → 0 < n
  pub once : Distinct (map (λ (i : RoomInfo). i.name) stats.rooms)
  pub connections : stats.connections ≡ length hub.clients

sizes_of :
    (name : String) (m : List (String × Room)) → size_of name (room_infos m) ≡ size (lookup name m)
unfolding room_infos lookup
sizes_of name [] = refl
sizes_of name ((j, r) ∷ m) = elim (Bool-cases (j == name)) [
  | inl here ↦ rw here refl
  | inr other ↦ rw other (sizes_of name m)
]

names_of : (m : List (String × Room)) → map (λ (i : RoomInfo). i.name) (room_infos m) ≡ keys m
unfolding room_infos
names_of [] = refl
names_of ((j, r) ∷ m) = ap (◌∷◌ j) (names_of m)

size-busy :
    (o : Option Room) (n : ℕ)
    → size o ≡ some n
    → ((r : Room) → o ≡ some r → is_empty r ≡ false)
    → 0 < n
size-busy none n e h = cc
size-busy (some r) n e h = ground (arith, h r refl)

-- The snapshot of a valid hub lists exactly the rooms that the hub holds, each once and with the
-- number of its members, which is never zero; and it counts the registered clients.
pub snapshot-Reports : (hub : Hub) → IsValid hub → Reports hub (snapshot hub)
unfolding snapshot
snapshot-Reports hub v = record {
  sizes = λ name. sizes_of name hub.rooms;
  busy = λ name n e.
      size-busy (lookup name hub.rooms) n (sym (sizes_of name hub.rooms) ∙ e)
        (v.holds.occupied name);
  once = rw (names_of hub.rooms) v.holds.keyed;
  connections = refl;
}
