-- ===== src/Hub/Rooms.antt =====
-- internal/hub/room.go: the membership set of one room.
use chat_room.Prelude.{
  refl, contains-delete, contains-insert, false, if◌then◌else◌, Distinct-insert, ◌||◌,
  Distinct-delete, contains, Distinct, ◌≡◌, String, Bool, List, [], map, length, insert, delete,
  nat_eq, ◌==◌,
}
use chat_room.Hub.Clients.{Ref, Heap}

pub record Room : Type 0 where
  pub name : String
  pub members : List Ref

unfoldable pub new_room : String → Room
new_room name = record { name = name; members = [] }

-- `add`, `remove`, `empty`: the library's names for a set, at a room.
unfoldable pub add : Room → Ref → Room
add r c = record r { members = insert c r.members }

unfoldable pub remove : Room → Ref → Room
remove r c = record r { members = delete c r.members }

abbrev pub is_empty : Room → Bool
is_empty r = length r.members == 0

-- `names`, the members visited in the order given.
abbrev pub names : (List Ref → List Ref) → Room → Heap → List String
names order r h = map (λ c. (h c).name) (order r.members)

pub contains-add :
    (r : Room) (c d : Ref) → contains d (add r c).members ≡ (c == d || contains d r.members)
unfolding add
contains-add r c d = contains-insert c d r.members

pub contains-remove :
    (r : Room) (c d : Ref)
    → contains d (remove r c).members ≡ (if c == d then false else contains d r.members)
unfolding remove
contains-remove r c d = contains-delete c d r.members

pub add-Distinct : (r : Room) (c : Ref) → Distinct r.members → Distinct (add r c).members
unfolding add
add-Distinct r c d = Distinct-insert c r.members d

pub remove-Distinct : (r : Room) (c : Ref) → Distinct r.members → Distinct (remove r c).members
unfolding remove
remove-Distinct r c d = Distinct-delete c r.members d

pub name-add : (r : Room) (c : Ref) → (add r c).name ≡ r.name
unfolding add
name-add r c = refl

pub name-remove : (r : Room) (c : Ref) → (remove r c).name ≡ r.name
unfolding remove
name-remove r c = refl
