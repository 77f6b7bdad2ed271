-- ===== src/Hub/Handling.antt =====
-- Each event that the actor handles is a step of the directory.
use chat_room.Prelude.{
  ◌≡◌, refl, ap, ◌∙◌, inl, inr, true, false, arith, nat_eq, string_eq, nat_beq_iff, Bool-cases,
  Option-cases, contains-insert, contains-delete, lookup, Outcome, ok, contains,
}
use text.Mathlib.TextEquality.{eq_iff}
use chat_room.Message.{
  type_join, type_leave, type_message, type_history, type_presence, type_error, unknown,
}
use chat_room.Hub.Clients.{Ref}
use chat_room.Hub.Invariant.{IsValid}
use chat_room.Hub.Shed.{in_room, in_room-bereft}
use chat_room.Hub.Disconnect.{disconnect-Dropped, disconnect_again}
use chat_room.Hub.Broadcast.{broadcast-Broadcasts, is_dropped}
use chat_room.Hub.Membership.{join-Joins, member_live}
use chat_room.Hub.Leaving.{leave-Parts}
use chat_room.Hub.System.{acts, IsAllowed}
use chat_room.Hub.Safety.{registered-IsValid, sample-IsValid}
use chat_room.Hub.Directory.{
  directory, Becomes, IsIdle, Step, registers, unregisters, joins, leaves, sends, ignores, queries,
  samples,
}
use chat_room.Hub.{
  FrameType, Hub, Turn, Command, Event, registered, unregistered, inbound, queried, sampled,
  process, handle, join, leave, broadcast, disconnect,
}

-- The operation returns a valid hub, by a step of the directory.
abbrev pub Refines : Event → Hub → Outcome Hub → Type 0
Refines e hub o =
    (hub' : Hub) × (o ≡ ok hub') × Step e (directory hub) (directory hub') × IsValid hub'

same : (hub : Hub) → Becomes (directory hub).connected (directory hub).member (directory hub)
same hub = record { connected_same = λ k. refl; member_same = λ k j. refl }

disconnect-Refines :
    (t : Turn) (c : Ref) (hub : Hub)
    → IsValid hub
    → Refines (unregistered c) hub (disconnect t c hub)
disconnect-Refines t c hub v = elim (Bool-cases (contains c hub.clients)) [
  | inl m ↦
      let (hub', e, d, w) = disconnect-Dropped t c v m in
      (
        hub',
        e,
        unregisters c (record {
          connected_same = λ k. ap (contains k) d.clients ∙ contains-delete c k hub.clients;
          member_same = λ k j. ap (in_room k) (d.rooms j) ∙ in_room-bereft c k (lookup j hub.rooms);
        }),
        w,
      )
  | inr m ↦ (
    hub,
    disconnect_again t c hub m,
    unregisters c (record {
      connected_same = λ k.
          ground (arith, nat_beq_iff c k, m, λ (p : c ≡ k). ap (λ x. contains x hub.clients) p);
      member_same = λ k j. ground (
        arith,
        nat_beq_iff c k,
        m,
        member_live hub k j v.holds,
        λ (p : c ≡ k). ap (λ x. contains x hub.clients) p,
      );
    }),
    v,
  )
]

leave-Refines :
    (t : Turn) (cmd : Command) (hub : Hub)
    → cmd.kind ≡ type_leave
    → IsValid hub
    → Refines (inbound cmd) hub (leave t cmd.client cmd.room hub)
unfolding leave
leave-Refines t cmd hub kind v = elim (Option-cases (lookup cmd.room hub.rooms)) [
  | inl e ↦ (
    hub,
    rw (e, leave) refl,
    leaves cmd kind (record {
      connected_same = λ k. refl;
      member_same = λ k j.
          ground (arith, eq_iff cmd.room j, λ (p : cmd.room ≡ j). ap (λ x. lookup x hub.rooms) p);
    }),
    v,
  )
  | inr (r, e) ↦
      let (hub', f, p, w) = leave-Parts t cmd.client cmd.room r hub v e in
      (
        hub',
        f,
        leaves cmd kind
            (record { connected_same = λ k. ap (contains k) p.clients; member_same = p.rooms }),
        w,
      )
]

broadcast-Refines :
    (t : Turn) (cmd : Command) (hub : Hub)
    → cmd.kind ≡ type_message
    → IsValid hub
    → Refines (inbound cmd) hub (broadcast t cmd.client cmd.room cmd.text hub)
unfolding broadcast
broadcast-Refines t cmd hub kind v = elim (Option-cases (lookup cmd.room hub.rooms)) [
  | inl e ↦
      (hub, rw (e, broadcast) refl, sends cmd (λ k. false) kind (λ k g. absurd cc) (same hub), v)
  | inr (r, e) ↦
      let (hub', f, b, w) = broadcast-Broadcasts t cmd.client cmd.room cmd.text r hub v e in
      (
        hub',
        f,
        sends cmd (is_dropped hub.heap cmd.client r) kind
            (λ k g. (ground (arith, e, g), ground (arith, g)))
            (record { connected_same = b.delivers.clients; member_same = b.delivers.rooms }),
        w,
      )
]

join-Refines :
    (t : Turn) (cmd : Command) (hub : Hub)
    → cmd.kind ≡ type_join
    → IsValid hub
    → contains cmd.client hub.clients ≡ true
    → Refines (inbound cmd) hub (join t cmd.client cmd.room hub)
join-Refines t cmd hub kind v m =
    let (hub', e, j, w) = join-Joins t cmd.client cmd.room hub v m in
    (
      hub',
      e,
      joins cmd kind
          (record { connected_same = λ k. ap (contains k) j.clients; member_same = j.rooms }),
      w,
    )

idle-Refines :
    {o : Outcome Hub} (cmd : Command) (hub : Hub)
    → IsIdle cmd.kind
    → o ≡ ok hub
    → IsValid hub
    → Refines (inbound cmd) hub o
idle-Refines cmd hub idle e v = (hub, e, ignores cmd idle (same hub), v)

as-Refines : (e : Event) (hub : Hub) (o p : Outcome Hub) → o ≡ p → Refines e hub p → Refines e hub o
as-Refines e hub o p q (hub', f, s, w) = (hub', q ∙ f, s, w)

command-Refines :
    (t : Turn) (cmd : Command) (hub : Hub) (kind : FrameType)
    → cmd.kind ≡ kind
    → IsValid hub
    → (kind ≡ type_join → contains cmd.client hub.clients ≡ true)
    → Refines (inbound cmd) hub (handle t cmd hub)
unfolding handle
command-Refines t cmd hub type_join k v m =
    as-Refines (inbound cmd) hub _ _ (rw (k, handle) refl) (join-Refines t cmd hub k v (m refl))
command-Refines t cmd hub type_leave k v m =
    as-Refines (inbound cmd) hub _ _ (rw (k, handle) refl) (leave-Refines t cmd hub k v)
command-Refines t cmd hub type_message k v m =
    as-Refines (inbound cmd) hub _ _ (rw (k, handle) refl) (broadcast-Refines t cmd hub k v)
command-Refines t cmd hub type_history k v m =
    idle-Refines cmd hub (rw k tt) (rw (k, handle) refl) v
command-Refines t cmd hub type_presence k v m =
    idle-Refines cmd hub (rw k tt) (rw (k, handle) refl) v
command-Refines t cmd hub type_error k v m = idle-Refines cmd hub (rw k tt) (rw (k, handle) refl) v
command-Refines t cmd hub (unknown s) k v m = idle-Refines cmd hub (rw k tt) (rw (k, handle) refl) v

pub process-Refines :
    (t : Turn) (e : Event) (hub : Hub)
    → IsValid hub
    → IsAllowed (acts t e) hub
    → Refines e hub (process t e hub)
unfolding process
process-Refines t (registered c) hub v a = (
  _,
  refl,
  registers c
      (record { connected_same = λ k. contains-insert c k hub.clients; member_same = λ k j. refl }),
  registered-IsValid c hub a v,
)
process-Refines t (unregistered c) hub v a = disconnect-Refines t c hub v
process-Refines t (inbound cmd) hub v a = command-Refines t cmd hub cmd.kind refl v a
process-Refines t queried hub v a = (hub, refl, queries (same hub), v)
process-Refines t sampled hub v a = (_, refl, samples (same hub), sample-IsValid hub v)
