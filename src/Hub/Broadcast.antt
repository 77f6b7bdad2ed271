-- ===== src/Hub/Broadcast.antt =====
-- `broadcast`: who is sent a message, who is dropped, and what the persister gets.
use chat_room.Prelude.{
  offer_bounded, ℕ, ◌+◌, ◌%◌, ◌^◌, ◌<◌, String, ◌≡◌, refl, sym, ◌∙◌, inl, inr, Bool, true, false,
  ◌&&◌, not, some, List, [], ◌∷◌, ◌++◌, Perm, arith, if◌then◌else◌, ◌==◌, nat_eq, string_eq,
  nat_beq_iff, Bool-cases, contains, delete, contains-delete, contains-perm, Distinct-perm, lookup,
  Chan, offer, has_room, ok,
}
use mathlib.Core.List.Perm
use mathlib.Core.List.{append-nil}
use chat_room.Message.{Message, Envelope, envelope, type_message, is_chat}
use chat_room.Hub.Clients.{Ref, Heap, offered}
use chat_room.Hub.Rooms.{Room}
use chat_room.Hub.Quiet.{chats, chats-append, Grows-chats}
use chat_room.Hub.Invariant.{IsValid}
use chat_room.Hub.Delivery.{
  is_slow, slow_of, contains-slow_of, slow_of-Distinct, deliver_each-offered,
}
use chat_room.Hub.Shed.{is_member, Sheds, disconnect_each-Sheds}
use chat_room.Hub.{Hub, Turn, deliver_message, stamped, hand_off, broadcast}

-- A member that is sent a message: not the sender, and its buffer has room.
abbrev pub is_served : Heap → Ref → Room → Ref → Bool
is_served h sender r k = contains k r.members && not (k == sender) && has_room (h k).send

-- A member that is dropped: not the sender, and its buffer is full.
abbrev pub is_dropped : Heap → Ref → Room → Ref → Bool
is_dropped h sender r k = contains k r.members && is_slow h sender k

-- The frame of a message.
abbrev pub message_frame : String → Message → Envelope
message_frame room m = record (envelope type_message room) { message = some m }

pub offered-IsValid :
    (cs : List Ref) (e : Envelope) (n : ℕ) (hub : Hub)
    → n < 2 ^ 64
    → IsValid hub
    → IsValid (record hub { messages_total = n; heap = offered cs e hub.heap })
offered-IsValid cs e n hub small v = record {
  holds = record {
    opened = λ k m. ground (arith, v.holds.opened k m);
    inside = v.holds.inside;
    distinct = v.holds.distinct;
    named = v.holds.named;
    occupied = v.holds.occupied;
    keyed = v.holds.keyed;
  };
  clients = v.clients;
  bounded = λ k. ground (arith, v.bounded k, offer_bounded e (hub.heap k).send);
  queue_open = v.queue_open;
  queue_bounded = v.queue_bounded;
  total = small;
  sampled = v.sampled;
}

-- What the delivery of `frame` from `c` to the members of `r` does.
pub record Delivers (c : Ref) (r : Room) (frame : Envelope) (hub hub' : Hub) : Type 0 where
  -- A served member gets the frame once, behind all chat frames that it has; nobody else does.
  pub queues :
      (k : Ref)
      → chats (hub'.heap k).send.buf
        ≡ chats (hub.heap k).send.buf ++ (if is_served hub.heap c r k then frame ∷ [] else [])
  -- The dropped members are clients no longer, and in no room; nobody else goes.
  pub clients :
      (k : Ref)
      → contains k hub'.clients
        ≡ (if is_dropped hub.heap c r k then false else contains k hub.clients)
  pub rooms :
      (k : Ref) (j : String)
      → is_member k j hub' ≡ (if is_dropped hub.heap c r k then false else is_member k j hub)
  pub closed :
      (k : Ref)
      → (hub'.heap k).send.closed
        ≡ (if is_dropped hub.heap c r k then true else (hub.heap k).send.closed)

chats-offered :
    (cs : List Ref) (e : Envelope) (h : Heap) (k : Ref)
    → is_chat e ≡ true
    → chats (offered cs e h k).send.buf
      ≡ chats (h k).send.buf ++ (if contains k cs && has_room (h k).send then e ∷ [] else [])
chats-offered cs e h k i =
    ground (arith, chats-append (h k).send.buf (e ∷ []), append-nil (chats (h k).send.buf))

module _ (c : Ref) (r : Room) (frame : Envelope) (hub : Hub) where
  sent_queue :
      {cs : List Ref} (k : Ref)
      → is_chat frame ≡ true
      → Perm cs r.members
      → chats (offered (delete c cs) frame hub.heap k).send.buf
        ≡ chats (hub.heap k).send.buf ++ (if is_served hub.heap c r k then frame ∷ [] else [])
  sent_queue {cs} k i p =
      chats-offered (delete c cs) frame hub.heap k i
      ∙ ground (arith, contains-delete c k cs, contains-perm k p, nat_beq_iff c k, nat_beq_iff k c)

  Sheds-Delivers :
      {cs : List Ref} {hub' : Hub}
      → is_chat frame ≡ true
      → Perm cs r.members
      → Sheds
          (slow_of hub.heap c cs)
          (record hub { heap = offered (delete c cs) frame hub.heap })
          hub'
      → Delivers c r frame hub hub'
  Sheds-Delivers {cs} {hub'} i p s = record {
    queues = λ k. Grows-chats _ _ (s.queues k) ∙ sent_queue k i p;
    clients = λ k. ground (arith, s.clients k, contains-slow_of hub.heap c k cs, contains-perm k p);
    rooms = λ k j. ground (arith, s.rooms k j, contains-slow_of hub.heap c k cs, contains-perm k p);
    closed = λ k. elim (Bool-cases (contains k (slow_of hub.heap c cs))) [
      | inl slow ↦
          s.gone k slow ∙ ground (arith, contains-slow_of hub.heap c k cs, contains-perm k p)
      | inr fast ↦
          (s.others k fast).closed
          ∙ ground (arith, contains-slow_of hub.heap c k cs, contains-perm k p)
    ];
  }

  pub deliver_message-Delivers :
      (t : Turn) (name : String)
      → is_chat frame ≡ true
      → IsValid hub
      → lookup name hub.rooms ≡ some r
      → (hub' : Hub) × (deliver_message t r frame c hub ≡ ok hub')
        × Delivers c r frame hub hub'
        × (hub'.persist ≡ hub.persist)
        × (hub'.messages_total ≡ hub.messages_total)
        × IsValid hub'
  unfolding deliver_message
  deliver_message-Delivers t name i v e =
      let cs = t.order r.name r.members in
      let p = t.order-perm r.name r.members in
      let d = Distinct-perm (Perm.symm p) (v.holds.distinct name r e) in
      let inside = λ (k : Ref) (m : contains k cs ≡ true).
        v.holds.inside name r k e (sym (contains-perm k p) ∙ m) in
      let (hub', f, s, w) =
        disconnect_each-Sheds t (slow_of hub.heap c cs)
          (offered-IsValid (delete c cs) frame hub.messages_total hub v.total v)
          (slow_of-Distinct hub.heap c cs d)
          (λ k m. inside k (ground (arith, contains-slow_of hub.heap c k cs))) in
      (
        hub',
        rw (deliver_each-offered t cs frame c hub.heap d (λ k m. v.holds.opened k (inside k m))) f,
        Sheds-Delivers i p s,
        s.persist,
        s.total,
        w,
      )

-- The message as the server accepts it: with the sender's names and the time of the turn.
abbrev pub accepted_message : Turn → Ref → String → String → Hub → Message
accepted_message t c room text hub = record {
  id = 0;
  room = room;
  sender_id = (hub.heap c).id;
  sender_name = (hub.heap c).name;
  content = text;
  created_at = t.now;
}

-- All that `broadcast` does for a message to a room that exists.
pub record Broadcasts (t : Turn) (c : Ref) (room text : String) (r : Room) (hub hub' : Hub)
    : Type 0 where
  pub delivers : Delivers c r (message_frame room (accepted_message t c room text hub)) hub hub'
  pub persist : hub'.persist ≡ (
      if t.takes_done then hub.persist else offer (accepted_message t c room text hub) hub.persist)
  pub total : hub'.messages_total ≡ (hub.messages_total + 1) % 2 ^ 64

hand_off-offer :
    (t : Turn) (m : Message) (q : Chan Message)
    → q.closed ≡ false
    → hand_off t m q ≡ ok (if t.takes_done then q else offer m q)
unfolding hand_off
hand_off-offer t m q o = ground arith

persist-IsValid :
    (t : Turn) (m : Message) (hub : Hub)
    → IsValid hub
    → IsValid (record hub { persist = if t.takes_done then hub.persist else offer m hub.persist })
persist-IsValid t m hub v = record {
  holds = v.holds;
  clients = v.clients;
  bounded = v.bounded;
  queue_open = ground (arith, v.queue_open);
  queue_bounded = ground (arith, v.queue_bounded, offer_bounded m hub.persist);
  total = v.total;
  sampled = v.sampled;
}

-- A message to a room of a valid hub: the broadcast returns a valid hub. Each member other than the
-- sender whose buffer has room gets the frame once, behind the chat frames that it has, and nobody
-- else gets a chat frame or loses one. Each member other than the sender whose buffer is full is a
-- client no longer, in no room, with its channel closed; nobody else goes. The message with the
-- sender's names and the turn's time is offered to the persist queue, unless the turn sees the
-- cancelled context, and the counter goes up by one, in 64 bits.
pub broadcast-Broadcasts :
    (t : Turn) (c : Ref) (room text : String) (r : Room) (hub : Hub)
    → IsValid hub
    → lookup room hub.rooms ≡ some r
    → (hub' : Hub) × (broadcast t c room text hub ≡ ok hub')
      × Broadcasts t c room text r hub hub'
      × IsValid hub'
unfolding broadcast stamped
broadcast-Broadcasts t c room text r hub v e =
    let m = stamped t c room text hub in
    let counted = record hub { messages_total = (hub.messages_total + 1) % 2 ^ 64 } in
    let (mid, f, d, q, n, w) =
      deliver_message-Delivers c r (message_frame room m) counted t room refl
        (offered-IsValid [] (message_frame room m) ((hub.messages_total + 1) % 2 ^ 64) hub
          (omega arith) v)
        e in
    (
      _,
      rw (e, broadcast, f, hand_off-offer t m mid.persist w.queue_open) refl,
      record {
        delivers = record {
          queues = d.queues;
          clients = d.clients;
          rooms = d.rooms;
          closed = d.closed;
        };
        persist = ground (arith, q);
        total = n;
      },
      persist-IsValid t m mid w,
    )
