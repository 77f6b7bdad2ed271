-- ===== src/Hub/Departure.antt =====
-- A client leaves one room.
use chat_room.Prelude.{
  String, ◌≡◌, refl, ◌∙◌, false, Option, none, some, List, Distinct, lookup, keys, assign, drop_key,
  nat_eq, string_eq, arith, if◌then◌else◌, ◌==◌, ok, lookup-assign, lookup-drop_key,
  Distinct-keys-assign, Distinct-keys-drop_key,
}
use text.Mathlib.TextEquality.{eq_iff}
use chat_room.Hub.Clients.{Ref, AllOpen}
use chat_room.Hub.Rooms.{Room, remove, is_empty, contains-remove, remove-Distinct, name-remove}
use chat_room.Hub.Quiet.{AllQuiet, offered-AllQuiet}
use chat_room.Hub.Announce.{announced, broadcast_presence-announced}
use chat_room.Hub.Invariant.{Holds}
use chat_room.Hub.{Hub, Turn, presence_frame, depart}

-- `r` without `c`, if anyone is left.
abbrev pub without : Ref → Room → Option Room
without c r = if is_empty (remove r c) then none else some (remove r c)

-- What `leave` does with the room called `key`: it goes, or holds `c` no longer; others stay.
pub record Departs (c : Ref) (key : String) (r : Room) (hub hub' : Hub) : Type 0 where
  pub clients : hub'.clients ≡ hub.clients
  pub persist : hub'.persist ≡ hub.persist
  pub total : hub'.messages_total ≡ hub.messages_total
  pub rate : hub'.message_rate ≡ hub.message_rate
  pub sampled : hub'.last_sampled_total ≡ hub.last_sampled_total
  pub rooms :
      (j : String) → lookup j hub'.rooms ≡ (if key == j then without c r else lookup j hub.rooms)
  pub keyed : Distinct (keys hub.rooms) → Distinct (keys hub'.rooms)
  pub quiet : AllQuiet hub.heap hub'.heap

module _ (t : Turn) (c : Ref) (key : String) (r : Room) (hub : Hub) where
  unfoldable pub departed : Hub
  departed =
      let hub' =
        announced t (remove r c) (hub.heap c).name false
          (record hub { rooms = assign key (remove r c) hub.rooms }) in
      if is_empty (remove r c) then record hub' { rooms = drop_key key hub'.rooms } else hub'

  pub depart-departed :
      Distinct r.members → AllOpen r.members hub.heap → depart t c key key r hub ≡ ok departed
  unfolding depart departed
  depart-departed d o = rw (
      broadcast_presence-announced t (remove r c) (hub.heap c).name false
        (record hub { rooms = assign key (remove r c) hub.rooms }) (remove-Distinct r c d)
        (λ k m. o k (ground (arith, contains-remove r c k))))

  pub departed-Departs : Departs c key r hub departed
  unfolding departed announced presence_frame
  departed-Departs = record {
    clients = ground arith;
    persist = ground arith;
    total = ground arith;
    rate = ground arith;
    sampled = ground arith;
    rooms = λ j. ground (
      arith,
      lookup-assign key j (remove r c) hub.rooms,
      lookup-drop_key key j (assign key (remove r c) hub.rooms),
    );
    keyed = λ d. ground (
      arith,
      Distinct-keys-assign key (remove r c) hub.rooms d,
      Distinct-keys-drop_key key (assign key (remove r c) hub.rooms),
    );
    quiet = λ k. ground (
      arith,
      offered-AllQuiet (remove r c).members
          (presence_frame t (remove r c) (hub.heap c).name false hub.heap) hub.heap refl k,
    );
  }

module _ {live : List Ref} {c : Ref} {key : String} {r : Room} {hub hub' : Hub} where
  -- A departure keeps the rooms well formed; the client that left may still be live.
  pub Departs-Holds :
      lookup key hub.rooms ≡ some r
      → Departs c key r hub hub'
      → Holds live hub.rooms hub.heap
      → Holds live hub'.rooms hub'.heap
  Departs-Holds here d h = record {
    opened = λ k m. (d.quiet k).closed ∙ h.opened k m;
    inside = λ name s k e m. ground (
      arith,
      d.rooms name,
      eq_iff key name,
      h.inside key r k here,
      h.inside name s k,
      contains-remove r c k,
    );
    distinct = λ name s e.
        ground (arith, d.rooms name, h.distinct name s, h.distinct key r here, remove-Distinct r c);
    named = λ name s e.
        ground (
          arith,
          d.rooms name,
          eq_iff key name,
          h.named name s,
          h.named key r here,
          name-remove r c,
        );
    occupied = λ name s e. ground (arith, d.rooms name, h.occupied name s);
    keyed = d.keyed h.keyed;
  }
