-- ===== src/Hub/Leaving.antt =====
-- `leave`: who is in which room afterwards, and who is told.
use chat_room.Prelude.{
  ◌∙◌, nat_beq_iff, String, ◌≡◌, ap, true, false, ◌&&◌, none, some, arith, if◌then◌else◌, ◌==◌,
  nat_eq, string_eq, lookup, ok, contains,
}
use text.Mathlib.TextEquality.{eq_iff}
use chat_room.Hub.Clients.{Ref}
use chat_room.Hub.Rooms.{Room, remove, is_empty, contains-remove}
use chat_room.Hub.Announce.{announced}
use chat_room.Hub.Invariant.{IsValid}
use chat_room.Hub.Departure.{Departs, departed, depart-departed, departed-Departs, Departs-Holds}
use chat_room.Hub.Shed.{is_member, empty-contains}
use chat_room.Hub.Membership.{Announces, announced-Announces}
use chat_room.Hub.{depart, Hub, Turn, leave}

pub Departs-IsValid :
    {c : Ref} {key : String} {r : Room} {hub hub' : Hub}
    → lookup key hub.rooms ≡ some r
    → Departs c key r hub hub'
    → IsValid hub
    → IsValid hub'
Departs-IsValid {hub} {hub'} e d v = record {
  holds = rw d.clients (Departs-Holds e d v.holds);
  clients = rw d.clients v.clients;
  bounded = λ k. (d.quiet k).bounded (v.bounded k);
  queue_open = rw d.persist v.queue_open;
  queue_bounded = rw d.persist v.queue_bounded;
  total = rw d.total v.total;
  sampled = rw d.sampled v.sampled;
}

-- `c` is not in the room, all other memberships are as before, the members that are left are told,
-- and a room that nobody is left in is gone.
pub record Parts (c : Ref) (room : String) (r : Room) (hub hub' : Hub) : Type 0 where
  pub clients : hub'.clients ≡ hub.clients
  pub persist : hub'.persist ≡ hub.persist
  pub total : hub'.messages_total ≡ hub.messages_total
  pub rooms :
      (k : Ref) (j : String)
      → is_member k j hub' ≡ (if room == j && c == k then false else is_member k j hub)
  pub reclaimed : is_empty (remove r c) ≡ true → lookup room hub'.rooms ≡ none
  pub announces : Announces (remove r c) (hub.heap c).name false hub.heap hub'.heap

module _ (t : Turn) (c : Ref) (room : String) (r : Room) (hub : Hub) where
  departed_heap :
      (departed t c room r hub).heap ≡ (announced t (remove r c) (hub.heap c).name false hub).heap
  unfolding departed announced
  departed_heap = ground arith

  departed-Parts : lookup room hub.rooms ≡ some r → Parts c room r hub (departed t c room r hub)
  departed-Parts e =
      let d = departed-Departs t c room r hub in
      record {
        clients = d.clients;
        persist = d.persist;
        total = d.total;
        rooms = λ k j. ground (
          arith,
          d.rooms j,
          contains-remove r c k,
          empty-contains k (remove r c),
          eq_iff room j,
          λ (p : room ≡ j). ap (λ x. lookup x hub.rooms) p,
        );
        reclaimed = λ gone. ground (arith, d.rooms room, eq_iff room room);
        announces =
            rw departed_heap (announced-Announces t (remove r c) (hub.heap c).name false hub);
      }

  -- A client that leaves a room of a valid hub is not in it afterwards; all other memberships stay;
  -- the members that are left, and nobody else, are offered one presence frame with the client's name
  -- and their own; a room that nobody is left in is deleted; clients, persist queue and the count of
  -- messages stay; and the hub is valid.
  pub leave-Parts :
      IsValid hub
      → lookup room hub.rooms ≡ some r
      → (hub' : Hub) × (leave t c room hub ≡ ok hub') × Parts c room r hub hub' × IsValid hub'
  unfolding leave
  leave-Parts v e = (
    departed t c room r hub,
    rw (e, leave)
        (ap (λ x. depart t c room x r hub) (v.holds.named room r e)
          ∙ depart-departed t c room r hub (v.holds.distinct room r e)
              (λ k m. v.holds.opened k (v.holds.inside room r k e m))),
    departed-Parts e,
    Departs-IsValid e (departed-Departs t c room r hub) v,
  )

  -- A client that is not in a room of a valid hub, and leaves it, changes no membership; but the
  -- members of the room are told that it has left.
  pub leave_stranger :
      IsValid hub
      → lookup room hub.rooms ≡ some r
      → contains c r.members ≡ false
      → (hub' : Hub) × (leave t c room hub ≡ ok hub')
        × ((k : Ref) (j : String) → is_member k j hub' ≡ is_member k j hub)
        × Announces (remove r c) (hub.heap c).name false hub.heap hub'.heap
  leave_stranger v e out =
      let (hub', f, p, _) = leave-Parts v e in
      (
        hub',
        f,
        λ k j. ground (
          arith,
          p.rooms k j,
          eq_iff room j,
          nat_beq_iff c k,
          λ (q : room ≡ j). ap (λ x. lookup x hub.rooms) q,
          λ (q : c ≡ k). ap (λ x. contains x r.members) q,
        ),
        p.announces,
      )
