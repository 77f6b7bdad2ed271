-- ===== src/Hub/Connections/Settled.antt =====
-- What holds of the connections and the hub between two deeds, and what a turn does to it.
use chat_room.Prelude.{
  ◌==◌, if◌then◌else◌, ◌≡◌, refl, ap, ◌∙◌, Bool, true, false, some, List, [], ◌∷◌, arith, nat_eq,
  string_eq, nat_beq_iff, Option-cases, contains, lookup, Outcome, ok, inl, inr, length, ◌≤◌,
}
use chat_room.Message.{FrameType, type_join, type_leave, type_message, is_chat}
use mathlib.Core.Path.{subst}
use chat_room.Hub.Clients.{Ref, Client}
use chat_room.Hub.Rooms.{Room}
use chat_room.Hub.Invariant.{IsValid}
use chat_room.Hub.Broadcast.{broadcast-Broadcasts, is_dropped}
use chat_room.Hub.Membership.{join-Joins}
use chat_room.Hub.Leaving.{leave-Parts}
use chat_room.Hub.Pumps.{Action, push, submit, unregister}
use chat_room.Hub.Pumps.Reading.{AllBefore}
use chat_room.Hub.Connections.{set_thread, Thread, reading, Server, set_client}
use chat_room.Hub.{Hub, Turn, Command, handle, leave, broadcast}

abbrev pub is_reading : Thread → Bool
is_reading (reading todo) = true
is_reading th = false

-- Every command is of the client whose pump submits it, and no chat frame is pushed.
abbrev pub AllOwn : Ref → List Action → Type 0
AllOwn c [] = Unit
AllOwn c (submit cmd ∷ rest) = (cmd.client ≡ c) × AllOwn c rest
AllOwn c (push e ∷ rest) = (is_chat e ≡ false) × AllOwn c rest
AllOwn c (unregister ∷ rest) = AllOwn c rest

abbrev pub IsOwn : Ref → Thread → Type 0
IsOwn c (reading todo) = AllOwn c todo
IsOwn c th = Unit

-- The hub is valid, its clients are exactly those whose read pumps run, and no pump submits a
-- command of another client or enqueues a chat frame.
pub record IsSettled (s : Server) : Type 0 where
  pub hub_valid : IsValid s.hub
  pub connected : (k : Ref) → contains k s.hub.clients ≡ is_reading (s.threads k)
  pub own : (k : Ref) → IsOwn k (s.threads k)

pub AllOwn-AllBefore : (c : Ref) (todo : List Action) → AllBefore c todo → AllOwn c todo
AllOwn-AllBefore c [] p = tt
AllOwn-AllBefore c (push e ∷ rest) (inl h, p) = (rw h refl, AllOwn-AllBefore c rest p)
AllOwn-AllBefore c (push e ∷ rest) (inr h, p) = (rw h refl, AllOwn-AllBefore c rest p)
AllOwn-AllBefore c (submit cmd ∷ rest) (sound, p) = (sound.0, AllOwn-AllBefore c rest p)
AllOwn-AllBefore c (unregister ∷ rest) (never, p) = absurd never

-- The turn returns a valid hub with the clients that `f` tells.
abbrev pub Leaves : (Ref → Bool) → Outcome Hub → Type 0
Leaves f o =
    (hub' : Hub) × (o ≡ ok hub') × IsValid hub' × ((k : Ref) → contains k hub'.clients ≡ f k)

pub command-Leaves :
    (t : Turn) (cmd : Command) (hub : Hub) (kind : FrameType)
    → cmd.kind ≡ kind
    → IsValid hub
    → contains cmd.client hub.clients ≡ true
    → ((r : Room) (k : Ref)
        → cmd.kind ≡ type_message
        → lookup cmd.room hub.rooms ≡ some r
        → is_dropped hub.heap cmd.client r k ≡ false)
    → Leaves (λ k. contains k hub.clients) (handle t cmd hub)
unfolding handle leave broadcast
command-Leaves t cmd hub type_join e v m fast =
    let (hub', f, j, w) = join-Joins t cmd.client cmd.room hub v m in
    (hub', rw (e, handle) f, w, λ k. ap (contains k) j.clients)
command-Leaves t cmd hub type_leave e v m fast = elim (Option-cases (lookup cmd.room hub.rooms)) [
  | inl n ↦ (hub, rw (e, handle, n, leave) refl, v, λ k. refl)
  | inr (r, n) ↦
      let (hub', f, p, w) = leave-Parts t cmd.client cmd.room r hub v n in
      (hub', rw (e, handle) f, w, λ k. ap (contains k) p.clients)
]
command-Leaves t cmd hub type_message e v m fast = elim (Option-cases (lookup cmd.room hub.rooms)) [
  | inl n ↦ (hub, rw (e, handle, n, broadcast) refl, v, λ k. refl)
  | inr (r, n) ↦
      let (hub', f, b, w) = broadcast-Broadcasts t cmd.client cmd.room cmd.text r hub v n in
      (hub', rw (e, handle) f, w, λ k. b.delivers.clients k ∙ rw (fast r k e n) refl)
]
command-Leaves t cmd hub other e v m fast = (hub, rw (e, handle) refl, v, λ k. refl)

-- A hub that is given a new client in place of one that it does not hold stays valid.
pub set_client-IsValid :
    (c : Ref) (client : Client) (hub : Hub)
    → IsValid hub
    → contains c hub.clients ≡ false
    → length client.send.buf ≤ client.send.cap
    → IsValid (record hub { heap = set_client c client hub.heap })
set_client-IsValid c client hub v n b = record {
  holds = record {
    opened = λ k m. ground (
      arith,
      nat_beq_iff c k,
      v.holds.opened k m,
      n,
      m,
      λ (p : c ≡ k). ap (λ x. contains x hub.clients) p,
    );
    inside = v.holds.inside;
    distinct = v.holds.distinct;
    named = v.holds.named;
    occupied = v.holds.occupied;
    keyed = v.holds.keyed;
  };
  clients = v.clients;
  bounded = λ k. ground (arith, nat_beq_iff c k, v.bounded k, b);
  queue_open = v.queue_open;
  queue_bounded = v.queue_bounded;
  total = v.total;
  sampled = v.sampled;
}

-- The state after a turn for the connection `c`, which leaves it as `th`.
abbrev pub stepped : Ref → Hub → Thread → Server → Server
stepped c hub th s = record { hub = hub; threads = set_thread c th s.threads }

pub stepped-IsSettled :
    (c : Ref) (th : Thread) (s : Server) (hub : Hub)
    → IsSettled s
    → IsValid hub
    → ((k : Ref)
        → contains k hub.clients ≡ (if c == k then is_reading th else contains k s.hub.clients))
    → IsOwn c th
    → IsSettled (stepped c hub th s)
stepped-IsSettled c th s hub i v m o = record {
  hub_valid = v;
  connected = λ k. ground (arith, nat_beq_iff c k, m k, i.connected k);
  own = λ k. ground (arith, nat_beq_iff c k, i.own k, λ (p : c ≡ k). subst (λ x. IsOwn x th) p o);
}

-- A pump that goes on to other actions of its own.
pub same-IsSettled :
    (c : Ref) (th : Thread) (s : Server)
    → IsSettled s
    → is_reading th ≡ is_reading (s.threads c)
    → IsOwn c th
    → IsSettled (stepped c s.hub th s)
same-IsSettled c th s i e o =
    stepped-IsSettled c th s s.hub i i.hub_valid
      (λ k. ground (
        arith,
        nat_beq_iff c k,
        i.connected c,
        e,
        λ (p : c ≡ k). ap (λ x. contains x s.hub.clients) p,
      ))
      o
