-- ===== src/Hub/Disconnect.antt =====
-- `disconnect`: a client leaves every room, and its send channel is closed.
use chat_room.Prelude.{
  ◌==◌, ==_refl, Distinct-delete, nat_beq_iff, contains-perm, contains-keys, contains-delete,
  Distinct-perm, nat_eq, string_eq, Bool-cases, inr, arith, inl, String, ◌≡◌, refl, ap, ◌∙◌, true,
  false, Option, none, some, contains, delete, keys, lookup, ok,
}
use chat_room.Hub.Clients.{Ref, set_send, close_send}
use chat_room.Hub.Rooms.{Room, contains-remove}
use mathlib.Core.List.Perm
use chat_room.Hub.Quiet.{Quiet, Grows}
use chat_room.Hub.Invariant.{Holds, IsValid}
use chat_room.Hub.{Hub, Turn, leave_each, disconnect}
use chat_room.Hub.Visits.{bereft, Leaves, leave_each-Leaves}

-- What `disconnect` does: `c` is in no room and no longer a client, its channel is closed, and
-- nobody else loses a room, an open channel or a queued frame.
pub record Dropped (c : Ref) (hub hub' : Hub) : Type 0 where
  pub clients : hub'.clients ≡ delete c hub.clients
  pub persist : hub'.persist ≡ hub.persist
  pub total : hub'.messages_total ≡ hub.messages_total
  pub rate : hub'.message_rate ≡ hub.message_rate
  pub sampled : hub'.last_sampled_total ≡ hub.last_sampled_total
  pub rooms : (j : String) → lookup j hub'.rooms ≡ bereft c (lookup j hub.rooms)
  pub gone : (hub'.heap c).send.closed ≡ true
  pub queue : Grows (hub.heap c).send.buf (hub'.heap c).send.buf
  pub others : (d : Ref) → (c == d) ≡ false → Quiet (hub.heap d) (hub'.heap d)

bereft_absent :
    (c k : Ref) (o : Option Room) (s : Room)
    → bereft c o ≡ some s
    → contains k s.members ≡ true
    → (c == k) ≡ false
bereft_absent c k none s e m = cc
bereft_absent c k (some r) s e m =
    ground (
      arith,
      contains-remove r c k,
      nat_beq_iff c k,
      λ (p : c ≡ k). ap (λ x. contains x r.members) p,
    )

module _ (t : Turn) (c : Ref) {hub : Hub} (v : IsValid hub) where
  open v use {holds}

  -- Every room is visited, so `c` leaves all of them.
  leave_all :
      (member : contains c hub.clients ≡ true)
      → (mid : Hub) × (leave_each t c
            (t.order_rooms (keys hub.rooms))
            (record hub { clients = delete c hub.clients })
          ≡ ok mid)
        × Leaves c (keys hub.rooms) (record hub { clients = delete c hub.clients }) mid
        × Holds hub.clients mid.rooms mid.heap
  leave_all member =
      let ns = t.order_rooms (keys hub.rooms) in
      let p = t.order_rooms-perm (keys hub.rooms) in
      let (mid, e, l, h) =
        leave_each-Leaves t c ns (record hub { clients = delete c hub.clients })
          (Distinct-perm (Perm.symm p) holds.keyed) holds in
      (
        mid,
        e,
        record {
          clients = l.clients;
          persist = l.persist;
          total = l.total;
          rate = l.rate;
          sampled = l.sampled;
          rooms = λ j. ground (arith, l.rooms j, contains-perm j p);
          quiet = l.quiet;
        },
        h,
      )

  Leaves-Dropped :
      {mid : Hub}
      → Leaves c (keys hub.rooms) (record hub { clients = delete c hub.clients }) mid
      → Dropped c hub
          (record mid { heap = set_send c (record (mid.heap c).send { closed = true }) mid.heap })
  Leaves-Dropped {mid} l = record {
    clients = l.clients;
    persist = l.persist;
    total = l.total;
    rate = l.rate;
    sampled = l.sampled;
    rooms = λ j. ground (arith, l.rooms j, contains-keys j hub.rooms);
    gone = ground (arith, nat_beq_iff c c);
    queue = rw (==_refl c) (l.quiet c).grows;
    others = λ d ne. rw ne (l.quiet d);
  }

  Leaves-IsValid :
      {mid : Hub}
      → Leaves c (keys hub.rooms) (record hub { clients = delete c hub.clients }) mid
      → Holds hub.clients mid.rooms mid.heap
      → IsValid
          (record mid { heap = set_send c (record (mid.heap c).send { closed = true }) mid.heap })
  Leaves-IsValid {mid} l h = record {
    holds = record {
      opened = λ k m. ground (arith, l.clients, h.opened k, contains-delete c k hub.clients);
      inside = λ name s k e m. ground (
        arith,
        l.clients,
        h.inside name s k e m,
        contains-delete c k hub.clients,
        bereft_absent c k (lookup name hub.rooms) s,
        l.rooms name,
        contains-keys name hub.rooms,
      );
      distinct = h.distinct;
      named = h.named;
      occupied = h.occupied;
      keyed = h.keyed;
    };
    clients = ground (arith, l.clients, Distinct-delete c hub.clients v.clients);
    bounded = λ k. ground (arith, (l.quiet k).bounded (v.bounded k));
    queue_open = ground (arith, l.persist, v.queue_open);
    queue_bounded = ground (arith, l.persist, v.queue_bounded);
    total = ground (arith, l.total, v.total);
    sampled = ground (arith, l.sampled, v.sampled);
  }

  -- Disconnecting a registered client of a valid hub returns: the client is a client no longer, and is
  -- taken out of exactly the rooms that it was in, a room that nobody is left in being deleted; its
  -- send channel is closed, and keeps what it held; every other client keeps its channel open or
  -- closed as it was and all that is queued in it, with no chat frame added; the persist queue and
  -- the counters stay; and the hub is valid.
  pub disconnect-Dropped :
      contains c hub.clients ≡ true
      → (hub' : Hub) × (disconnect t c hub ≡ ok hub') × Dropped c hub hub' × IsValid hub'
  unfolding disconnect close_send
  disconnect-Dropped member =
      let (mid, e, l, h) = leave_all member in
      (_, rw (member, e, h.opened c member) refl, Leaves-Dropped l, Leaves-IsValid l h)

-- Disconnecting a client that is not registered, or no longer, changes nothing.
pub disconnect_again :
    (t : Turn) (c : Ref) (hub : Hub) → contains c hub.clients ≡ false → disconnect t c hub ≡ ok hub
unfolding disconnect
disconnect_again t c hub m = rw m

-- Disconnecting a client of a valid hub, registered or not, returns; and to disconnect it again, in
-- whatever order the rooms are visited, changes nothing, so that no channel is closed twice.
pub disconnect_twice :
    (t u : Turn) (c : Ref) (hub : Hub)
    → IsValid hub
    → (hub' : Hub) × (disconnect t c hub ≡ ok hub') × (disconnect u c hub' ≡ ok hub')
disconnect_twice t u c hub v = elim (Bool-cases (contains c hub.clients)) [
  | inl m ↦
      let (hub', e, d, _) = disconnect-Dropped t c v m in
      (
        hub',
        e,
        disconnect_again u c hub'
            (ap (contains c) d.clients ∙ contains-delete c c hub.clients ∙ rw (==_refl c) refl),
      )
  | inr m ↦ (hub, disconnect_again t c hub m, disconnect_again u c hub m)
]
