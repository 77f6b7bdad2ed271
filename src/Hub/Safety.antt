-- ===== src/Hub/Safety.antt =====
-- Each allowed turn of the actor returns, and leaves a valid hub.
use chat_room.Prelude.{
  ◌≤◌, String, ◌≡◌, refl, ap, ◌∙◌, inl, inr, true, false, arith, nat_eq, string_eq, nat_beq_iff,
  Bool-cases, Option-cases, length, contains, insert, contains-insert, Distinct-insert, lookup,
  Outcome, ok,
}
use chat_room.Message.{type_join, type_leave, type_message}
use chat_room.Hub.Clients.{Ref, Heap}
use chat_room.Hub.Invariant.{IsValid}
use chat_room.Hub.Disconnect.{disconnect-Dropped, disconnect_again}
use chat_room.Hub.Broadcast.{broadcast-Broadcasts}
use chat_room.Hub.Membership.{join-Joins}
use chat_room.Hub.Leaving.{leave-Parts}
use chat_room.Hub.System.{acts, IsAllowed}
use chat_room.Hub.{
  FrameType, Hub, Turn, Command, Event, registered, unregistered, inbound, queried, sampled, sample,
  process, handle, join, leave, broadcast, disconnect,
}

-- The operation returns, and leaves a valid hub.
abbrev pub Succeeds : Outcome Hub → Type 0
Succeeds o = (hub' : Hub) × (o ≡ ok hub') × IsValid hub'

-- A hub whose channels have changed stays valid if they have the same closed ones, within bounds.
pub heap-IsValid :
    (hub : Hub) (h : Heap)
    → IsValid hub
    → ((k : Ref) → (h k).send.closed ≡ (hub.heap k).send.closed)
    → ((k : Ref) → length (h k).send.buf ≤ (h k).send.cap)
    → IsValid (record hub { heap = h })
heap-IsValid hub h v c b = record {
  holds = record {
    opened = λ k m. c k ∙ v.holds.opened k m;
    inside = v.holds.inside;
    distinct = v.holds.distinct;
    named = v.holds.named;
    occupied = v.holds.occupied;
    keyed = v.holds.keyed;
  };
  clients = v.clients;
  bounded = b;
  queue_open = v.queue_open;
  queue_bounded = v.queue_bounded;
  total = v.total;
  sampled = v.sampled;
}

disconnect-Succeeds : (t : Turn) (c : Ref) {hub : Hub} → IsValid hub → Succeeds (disconnect t c hub)
disconnect-Succeeds t c {hub} v = elim (Bool-cases (contains c hub.clients)) [
  | inl m ↦ let (hub', e, _, w) = disconnect-Dropped t c v m in (hub', e, w)
  | inr m ↦ (hub, disconnect_again t c hub m, v)
]

leave-Succeeds :
    (t : Turn) (c : Ref) (room : String) (hub : Hub) → IsValid hub → Succeeds (leave t c room hub)
unfolding leave
leave-Succeeds t c room hub v = elim (Option-cases (lookup room hub.rooms)) [
  | inl e ↦ (hub, rw (e, leave) refl, v)
  | inr (r, e) ↦ let (hub', f, _, w) = leave-Parts t c room r hub v e in (hub', f, w)
]

broadcast-Succeeds :
    (t : Turn) (c : Ref) (room text : String) (hub : Hub)
    → IsValid hub
    → Succeeds (broadcast t c room text hub)
unfolding broadcast
broadcast-Succeeds t c room text hub v = elim (Option-cases (lookup room hub.rooms)) [
  | inl e ↦ (hub, rw (e, broadcast) refl, v)
  | inr (r, e) ↦ let (hub', f, _, w) = broadcast-Broadcasts t c room text r hub v e in (hub', f, w)
]

join-Succeeds :
    (t : Turn) (c : Ref) (room : String) (hub : Hub)
    → IsValid hub
    → contains c hub.clients ≡ true
    → Succeeds (join t c room hub)
join-Succeeds t c room hub v m = let (hub', e, _, w) = join-Joins t c room hub v m in (hub', e, w)

command-Succeeds :
    (t : Turn) (cmd : Command) (hub : Hub) (kind : FrameType)
    → cmd.kind ≡ kind
    → IsValid hub
    → (kind ≡ type_join → contains cmd.client hub.clients ≡ true)
    → Succeeds (handle t cmd hub)
unfolding handle
command-Succeeds t cmd hub type_join k v m =
    rw (k, handle) (join-Succeeds t cmd.client cmd.room hub v (m refl))
command-Succeeds t cmd hub type_leave k v m =
    rw (k, handle) (leave-Succeeds t cmd.client cmd.room hub v)
command-Succeeds t cmd hub type_message k v m =
    rw (k, handle) (broadcast-Succeeds t cmd.client cmd.room cmd.text hub v)
command-Succeeds t cmd hub other k v m = (hub, rw (k, handle) refl, v)

pub registered-IsValid :
    (c : Ref) (hub : Hub)
    → (hub.heap c).send.closed ≡ false
    → IsValid hub
    → IsValid (record hub { clients = insert c hub.clients })
registered-IsValid c hub o v = record {
  holds = record {
    opened = λ k m. ground (
      arith,
      contains-insert c k hub.clients,
      v.holds.opened k,
      nat_beq_iff c k,
      λ (p : c ≡ k). ap (λ x. (hub.heap x).send.closed) p,
    );
    inside = λ name r k e m.
        ground (arith, contains-insert c k hub.clients, v.holds.inside name r k e m);
    distinct = v.holds.distinct;
    named = v.holds.named;
    occupied = v.holds.occupied;
    keyed = v.holds.keyed;
  };
  clients = Distinct-insert c hub.clients v.clients;
  bounded = v.bounded;
  queue_open = v.queue_open;
  queue_bounded = v.queue_bounded;
  total = v.total;
  sampled = v.sampled;
}

pub sample-IsValid : (hub : Hub) → IsValid hub → IsValid (sample hub)
unfolding sample
sample-IsValid hub v = record {
  holds = v.holds;
  clients = v.clients;
  bounded = v.bounded;
  queue_open = v.queue_open;
  queue_bounded = v.queue_bounded;
  total = v.total;
  sampled = v.total;
}

pub process-Succeeds :
    (t : Turn) (e : Event) (hub : Hub)
    → IsValid hub
    → IsAllowed (acts t e) hub
    → Succeeds (process t e hub)
unfolding process
process-Succeeds t (registered c) hub v a = (_, refl, registered-IsValid c hub a v)
process-Succeeds t (unregistered c) hub v a = disconnect-Succeeds t c v
process-Succeeds t (inbound cmd) hub v a = command-Succeeds t cmd hub cmd.kind refl v a
process-Succeeds t queried hub v a = (hub, refl, v)
process-Succeeds t sampled hub v a = (_, refl, sample-IsValid hub v)
