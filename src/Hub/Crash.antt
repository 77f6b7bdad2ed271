-- ===== src/Hub/Crash.antt =====
-- A client that the hub has dropped, and that still sends: the calls that panic.
use chat_room.Prelude.{
  String, ◌≡◌, refl, ap, ◌∙◌, inl, inr, true, some, List, [], ◌∷◌, arith, nat_eq, string_eq,
  nat_beq_iff, Bool-cases, contains, ==_refl, contains-perm, lookup, offer, ok, panic,
  send_on_closed,
}
use chat_room.Message.{Envelope}
use chat_room.Hub.Clients.{Ref, Heap, enqueue_each, enqueue_open, enqueue_closed, set_send}
use chat_room.Hub.Rooms.{Room, add, contains-add}
use chat_room.Hub.Invariant.{IsValid}
use chat_room.Hub.Broadcast.{is_dropped, broadcast-Broadcasts}
use chat_room.Hub.Disconnect.{disconnect-Dropped}
use chat_room.Hub.System.{pushes, step}
use chat_room.Hub.{disconnect, Hub, Turn, broadcast_presence, room_of, join, broadcast}

enqueue_each_closed :
    (c : Ref) (cs : List Ref) (e : Envelope) (h : Heap)
    → contains c cs ≡ true
    → (h c).send.closed ≡ true
    → enqueue_each cs e h ≡ panic send_on_closed
unfolding enqueue_each
enqueue_each_closed c [] e h m k = cc
enqueue_each_closed c (d ∷ cs) e h m k = elim (Bool-cases (h d).send.closed) [
  | inl shut ↦ rw (enqueue_closed h d e shut) refl
  | inr open_ ↦ rw (enqueue_open h d e open_) (
      enqueue_each_closed c cs e (set_send d (offer e (h d).send) h)
        (ground (arith, nat_beq_iff d c, λ (p : d ≡ c). ap (λ x. (h x).send.closed) p))
        (ground (arith, nat_beq_iff d c)))
]

-- A join by a client whose send channel is closed panics on the actor, whatever the hub's state.
join_closed :
    (t : Turn) (c : Ref) (room : String) (hub : Hub)
    → (hub.heap c).send.closed ≡ true
    → join t c room hub ≡ panic send_on_closed
unfolding join broadcast_presence
join_closed t c room hub k =
    let r = add (room_of t room (lookup room hub.rooms)) c in
    rw (
      enqueue_each_closed c (t.order r.name r.members) _ hub.heap
        (contains-perm c (t.order-perm r.name r.members)
          ∙ contains-add (room_of t room (lookup room hub.rooms)) c c
          ∙ rw (==_refl c) refl)
        k)

-- So does the history frame that its read pump sends it.
push_closed :
    (c : Ref) (e : Envelope) (hub : Hub)
    → (hub.heap c).send.closed ≡ true
    → step (pushes c e) hub ≡ panic send_on_closed
unfolding step
push_closed c e hub k = rw (enqueue_closed hub.heap c e k) refl

-- Disconnecting a registered client of a valid hub returns, and a frame that the client's read pump
-- enqueues after that, as it does in answer to a join, panics.
pub pushes-disconnect :
    (t : Turn) (c : Ref) (e : Envelope) (hub : Hub)
    → IsValid hub
    → contains c hub.clients ≡ true
    → (hub' : Hub) × (disconnect t c hub ≡ ok hub')
      × (step (pushes c e) hub' ≡ panic send_on_closed)
pushes-disconnect t c e hub v m =
    let (hub', f, d, _) = disconnect-Dropped t c v m in (hub', f, push_closed c e hub' d.gone)

-- If the buffer of a member other than the sender is full when a message is broadcast to a room of a
-- valid hub, the broadcast returns, and a join of any room by that member panics on the actor next.
pub join-broadcast_dropped :
    (t u : Turn) (c k : Ref) (room text next : String) (r : Room) (hub : Hub)
    → IsValid hub
    → lookup room hub.rooms ≡ some r
    → is_dropped hub.heap c r k ≡ true
    → (hub' : Hub) × (broadcast t c room text hub ≡ ok hub')
      × (join u k next hub' ≡ panic send_on_closed)
join-broadcast_dropped t u c k room text next r hub v e d =
    let (last, f, p, _) = broadcast-Broadcasts t c room text r hub v e in
    (last, f, join_closed u k next last (p.delivers.closed k ∙ rw d refl))
