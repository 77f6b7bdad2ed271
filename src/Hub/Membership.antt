-- ===== src/Hub/Membership.antt =====
-- `join` and `leave`: who is in which room afterwards, and who is told.
use chat_room.Prelude.{
  String, ◌≡◌, refl, ap, ◌∙◌, inl, inr, Bool, true, false, ◌&&◌, ◌||◌, some, List, [], ◌∷◌, map,
  Perm, arith, if◌then◌else◌, ◌==◌, nat_eq, string_eq, nat_beq_iff, Option-cases, length, contains,
  Distinct, lookup, assign, lookup-assign, Distinct-keys-assign, offer, ok,
}
use text.Mathlib.TextEquality.{eq_iff}
use mathlib.Core.List.Perm
use chat_room.Message.{Envelope, envelope, type_presence}
use chat_room.Hub.Clients.{Ref, Heap, AllOpen}
use chat_room.Hub.Rooms.{Room, add, is_empty, new_room, contains-add, add-Distinct, name-add, names}
use chat_room.Hub.Quiet.{offered-AllQuiet}
use chat_room.Hub.Announce.{announced, broadcast_presence-announced}
use chat_room.Hub.Invariant.{Holds, IsValid}
use chat_room.Hub.Shed.{is_member}
use chat_room.Hub.{Hub, Turn, presence_frame, room_of, join}

-- A presence frame that says what happened to `user`, and lists the members of `r`.
pub record Tells (frame : Envelope) (r : Room) (user : String) (joined : Bool) (h : Heap)
    : Type 0 where
  pub people : List String
  pub says : frame ≡ record (envelope type_presence r.name) {
    presence = some (record { user = user; joined = joined; members = people });
  }
  pub everyone : Perm people (map (λ k. (h k).name) r.members)

presence_frame-Tells :
    (t : Turn) (r : Room) (user : String) (joined : Bool) (h : Heap)
    → Tells (presence_frame t r user joined h) r user joined h
unfolding presence_frame
presence_frame-Tells t r user joined h = record {
  people = names (t.order_names r.name) r h;
  says = refl;
  everyone = Perm.map _ (t.order_names-perm r.name r.members);
}

-- Every member of `r`, and nobody else, is offered one frame that tells of the change.
pub record Announces (r : Room) (user : String) (joined : Bool) (h h' : Heap) : Type 0 where
  pub frame : Envelope
  pub tells : Tells frame r user joined h
  pub offers :
      (k : Ref)
      → h' k
        ≡ (if contains k r.members then record (h k) { send = offer frame (h k).send } else h k)

pub announced-Announces :
    (t : Turn) (r : Room) (user : String) (joined : Bool) (hub : Hub)
    → Announces r user joined hub.heap (announced t r user joined hub).heap
unfolding announced
announced-Announces t r user joined hub = record {
  frame = presence_frame t r user joined hub.heap;
  tells = presence_frame-Tells t r user joined hub.heap;
  offers = λ k. refl;
}

-- `c` is in the room, all other memberships are as before, and the room is told.
pub record Joins (c : Ref) (room : String) (hub hub' : Hub) : Type 0 where
  pub clients : hub'.clients ≡ hub.clients
  pub persist : hub'.persist ≡ hub.persist
  pub total : hub'.messages_total ≡ hub.messages_total
  pub rooms :
      (k : Ref) (j : String)
      → is_member k j hub' ≡ (if room == j && c == k then true else is_member k j hub)
  pub now : Room
  pub here : lookup room hub'.rooms ≡ some now
  pub announces : Announces now (hub.heap c).name true hub.heap hub'.heap

module _ (t : Turn) (c : Ref) (room : String) (hub : Hub) where
  joined_room : Room
  unfolding room_of
  joined_room = add (room_of t room (lookup room hub.rooms)) c

  joined : Hub
  joined =
      announced t joined_room (hub.heap c).name true
        (record hub { rooms = assign room joined_room hub.rooms })

  room_of_facts :
      IsValid hub
      → (joined_room.name ≡ room)
        × Distinct joined_room.members
        × ((k : Ref) → contains k joined_room.members ≡ (c == k || is_member k room hub))
  unfolding joined_room room_of new_room
  room_of_facts v = elim (Option-cases (lookup room hub.rooms)) [
    | inl e ↦ rw (e, room_of) (name-add _ c, add-Distinct _ c tt, λ k. contains-add _ c k)
    | inr (r, e) ↦
        rw (e, room_of)
          (
            name-add r c ∙ v.holds.named room r e,
            add-Distinct r c (v.holds.distinct room r e),
            λ k. contains-add r c k,
          )
  ]

pub member_live :
    {live : List Ref} (hub : Hub) (k : Ref) (j : String)
    → Holds live hub.rooms hub.heap
    → is_member k j hub ≡ true
    → contains k live ≡ true
member_live {live} hub k j h m = elim (Option-cases (lookup j hub.rooms)) [
  | inl e ↦ ground arith
  | inr (r, e) ↦ h.inside j r k e (ground arith)
]

occupied_of : (c : Ref) (r : Room) → contains c r.members ≡ true → is_empty r ≡ false
occupied_of c r m = occupied c r.members m
  where
    occupied : (c : Ref) (cs : List Ref) → contains c cs ≡ true → (length cs == 0) ≡ false
    occupied c [] m = cc
    occupied c (d ∷ cs) m = ground arith

module _ (t : Turn) (c : Ref) (room : String) (hub : Hub) (v : IsValid hub)
    (member : contains c hub.clients ≡ true) where
  joined_open : AllOpen (joined_room t c room hub).members hub.heap
  joined_open k m = v.holds.opened k (
      ground (
        arith,
        (room_of_facts t c room hub v).2 k,
        nat_beq_iff c k,
        member_live hub k room v.holds,
        λ (p : c ≡ k). ap (λ x. contains x hub.clients) p,
      ))

  join-joined : join t c room hub ≡ ok (joined t c room hub)
  unfolding join joined joined_room
  join-joined =
      broadcast_presence-announced t _ _ true _ (room_of_facts t c room hub v).1 joined_open

  joined-Joins : Joins c room hub (joined t c room hub)
  unfolding joined announced
  joined-Joins = record {
    clients = refl;
    persist = refl;
    total = refl;
    rooms = λ k j. ground (
      arith,
      lookup-assign room j (joined_room t c room hub) hub.rooms,
      (room_of_facts t c room hub v).2 k,
      eq_iff room j,
      λ (p : room ≡ j). ap (λ x. is_member k x hub) p,
    );
    now = joined_room t c room hub;
    here =
        ground
          (arith, lookup-assign room room (joined_room t c room hub) hub.rooms, eq_iff room room);
    announces = announced-Announces t (joined_room t c room hub) (hub.heap c).name true hub;
  }

  joined-IsValid : IsValid (joined t c room hub)
  unfolding joined announced presence_frame
  joined-IsValid =
      let quiet =
        offered-AllQuiet (joined_room t c room hub).members
          (presence_frame t (joined_room t c room hub) (hub.heap c).name true hub.heap) hub.heap
          refl in
      let facts = room_of_facts t c room hub v in
      let there = λ (j : String). lookup-assign room j (joined_room t c room hub) hub.rooms in
      record {
        holds = record {
          opened = λ k m. (quiet k).closed ∙ v.holds.opened k m;
          inside = λ name s k e m. ground (
            arith,
            there name,
            v.holds.inside name s k,
            facts.2 k,
            nat_beq_iff c k,
            member_live hub k room v.holds,
            λ (p : c ≡ k). ap (λ x. contains x hub.clients) p,
          );
          distinct = λ name s e. ground (arith, there name, v.holds.distinct name s, facts.1);
          named = λ name s e.
              ground (arith, there name, v.holds.named name s, facts.0, eq_iff room name);
          occupied = λ name s e. ground (
            arith,
            there name,
            v.holds.occupied name s,
            facts.2 c,
            nat_beq_iff c c,
            occupied_of c (joined_room t c room hub),
          );
          keyed = Distinct-keys-assign room _ hub.rooms v.holds.keyed;
        };
        clients = v.clients;
        bounded = λ k. (quiet k).bounded (v.bounded k);
        queue_open = v.queue_open;
        queue_bounded = v.queue_bounded;
        total = v.total;
        sampled = v.sampled;
      }

  -- A registered client that joins a room of a valid hub, whether or not the room is there yet, is in
  -- it afterwards; all other memberships stay; every member, and nobody else, is offered one presence
  -- frame with the client's name and the names of all members; clients, persist queue and the count
  -- of messages stay; and the hub is valid.
  pub join-Joins :
      (hub' : Hub) × (join t c room hub ≡ ok hub') × Joins c room hub hub' × IsValid hub'
  join-Joins = (joined t c room hub, join-joined, joined-Joins, joined-IsValid)
