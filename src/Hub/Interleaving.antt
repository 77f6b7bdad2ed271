-- ===== src/Hub/Interleaving.antt =====
-- The actor between the pumps and the persister: no allowed interleaving panics.
use chat_room.Prelude.{
  receive, receive_lem, offer_bounded, ◌≤◌, ◌≡◌, refl, ap, ◌∙◌, inl, inr, true, false, List, [],
  ◌∷◌, arith, nat_eq, string_eq, nat_beq_iff, Option-cases, length, contains, lookup, Chan, offer,
}
use chat_room.Message.{Message, Envelope}
use chat_room.Hub.Clients.{Ref, Heap, enqueue_open, set_send}
use chat_room.Hub.Invariant.{IsValid}
use chat_room.Hub.System.{Move, acts, pushes, writes, saves, step, run, IsAllowed, AllAllowed}
use chat_room.Hub.{Hub, new_hub}
use chat_room.Hub.Safety.{Succeeds, heap-IsValid, process-Succeeds}

pub pushes-Succeeds :
    (c : Ref) (e : Envelope) (hub : Hub)
    → IsValid hub
    → contains c hub.clients ≡ true
    → Succeeds (step (pushes c e) hub)
unfolding step
pushes-Succeeds c e hub v m = (
  record hub { heap = set_send c (offer e (hub.heap c).send) hub.heap },
  rw (enqueue_open hub.heap c e (v.holds.opened c m)) refl,
  heap-IsValid hub _ v
      (λ k. ground (arith, nat_beq_iff c k, λ (p : c ≡ k). ap (λ x. (hub.heap x).send.closed) p))
      (λ k. ground (
        arith,
        nat_beq_iff c k,
        v.bounded k,
        offer_bounded e (hub.heap k).send,
        λ (p : c ≡ k). ap hub.heap p,
      )),
)

pub writes-Succeeds : (c : Ref) (hub : Hub) → IsValid hub → Succeeds (step (writes c) hub)
unfolding step
writes-Succeeds c hub v = elim (Option-cases (receive (hub.heap c).send)) [
  | inl e ↦ (hub, rw (e, step) refl, v)
  | inr ((a, ch), e) ↦
      let facts = receive_lem (hub.heap c).send ch a e in
      let same = λ (k : Ref) (p : c ≡ k). ap hub.heap p in
      (
        record hub { heap = set_send c ch hub.heap },
        rw (e, step) refl,
        heap-IsValid hub _ v (λ k. ground (arith, nat_beq_iff c k, facts.2, same k))
            (λ k. ground (arith, nat_beq_iff c k, facts.0, facts.1, v.bounded k, same k)),
      )
]

pub saves-Succeeds : (hub : Hub) → IsValid hub → Succeeds (step saves hub)
unfolding step
saves-Succeeds hub v = elim (Option-cases (receive hub.persist)) [
  | inl e ↦ (hub, rw (e, step) refl, v)
  | inr ((a, q), e) ↦
      let facts = receive_lem hub.persist q a e in
      (
        record hub { persist = q },
        rw (e, step) refl,
        record {
          holds = v.holds;
          clients = v.clients;
          bounded = v.bounded;
          queue_open = facts.2 ∙ v.queue_open;
          queue_bounded = ground (arith, facts.0, facts.1, v.queue_bounded);
          total = v.total;
          sampled = v.sampled;
        },
      )
]

-- One allowed step, of the actor or of a goroutine beside it, returns and keeps the hub valid.
pub step-Succeeds : (m : Move) (hub : Hub) → IsValid hub → IsAllowed m hub → Succeeds (step m hub)
unfolding step
step-Succeeds (acts t e) hub v a = process-Succeeds t e hub v a
step-Succeeds (pushes c e) hub v a = pushes-Succeeds c e hub v a
step-Succeeds (writes c) hub v a = writes-Succeeds c hub v
step-Succeeds saves hub v a = saves-Succeeds hub v

-- From a valid hub, no sequence of turns of the actor, of frames enqueued by read pumps, of frames
-- taken by write pumps and of messages taken by the persister, in any order, panics, and the hub is
-- valid at its end; provided that a client registers with an open channel, and that each join and
-- each enqueued frame comes from a client that the hub holds at that time.
pub run-Succeeds :
    (ms : List Move) (hub : Hub) → IsValid hub → AllAllowed ms hub → Succeeds (run ms hub)
unfolding run
run-Succeeds [] hub v a = (hub, refl, v)
run-Succeeds (m ∷ ms) hub v (now, later) =
    let (mid, e, w) = step-Succeeds m hub v now in
    let (last, f, u) = run-Succeeds ms mid w (later mid e) in (last, rw e f, u)

-- The hub that `New` makes is valid, if the persist queue is open, and if neither it nor a send
-- channel holds more than its capacity.
pub new_hub-IsValid :
    (q : Chan Message) (h : Heap)
    → q.closed ≡ false
    → length q.buf ≤ q.cap
    → ((c : Ref) → length (h c).send.buf ≤ (h c).send.cap)
    → IsValid (new_hub q h)
unfolding new_hub lookup
new_hub-IsValid q h o b bs = record {
  holds = record {
    opened = λ k m. cc;
    inside = λ name r k e m. cc;
    distinct = λ name r e. cc;
    named = λ name r e. cc;
    occupied = λ name r e. cc;
    keyed = tt;
  };
  clients = tt;
  bounded = bs;
  queue_open = o;
  queue_bounded = b;
  total = omega arith;
  sampled = omega arith;
}
