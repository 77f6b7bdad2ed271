-- ===== src/Hub/Ordering/Turns.antt =====
-- One move and the chat frames in a client's buffer.
use chat_room.Prelude.{
  if_holds, String, ◌≡◌, refl, sym, ap, ◌∙◌, inl, inr, true, ◌&&◌, Option, none, some, List, [],
  ◌∷◌, ◌++◌, arith, if◌then◌else◌, ◌==◌, nat_eq, string_eq, nat_beq_iff, Bool-cases, Option-cases,
  contains, lookup, receive, receive_lem, Chan, offer, has_room, Outcome, ok, Bool,
}
use mathlib.Core.Path.{subst}
use mathlib.Core.List.{append-nil}
use chat_room.Message.{Message, Envelope, FrameType, type_join, type_leave, type_message, is_chat}
use chat_room.Hub.Clients.{Ref, Client, Heap, enqueue_open, set_send}
use chat_room.Hub.Invariant.{IsValid}
use chat_room.Hub.Quiet.{chats, chats-append, Grows-chats, offer-Grows}
use chat_room.Hub.Disconnect.{disconnect-Dropped, disconnect_again}
use chat_room.Hub.Broadcast.{broadcast-Broadcasts}
use chat_room.Hub.Membership.{Announces, join-Joins}
use chat_room.Hub.Leaving.{leave-Parts}
use chat_room.Hub.Safety.{Succeeds, registered-IsValid, sample-IsValid}
use chat_room.Hub.Interleaving.{step-Succeeds}
use chat_room.Hub.System.{Move, acts, pushes, writes, saves, step, IsAllowed}
use chat_room.Hub.Ordering.{got, first, took}
use chat_room.Hub.{
  Room, Hub, Turn, Command, registered, unregistered, inbound, queried, sampled, process, handle,
  leave, broadcast, disconnect,
}

-- The operation returns a valid hub, in which `k` has its chat frames, and `more` behind them.
abbrev Adds : Ref → List Envelope → Hub → Outcome Hub → Type 0
Adds k more hub o =
    (hub' : Hub) × (o ≡ ok hub')
    × IsValid hub'
    × (chats (hub'.heap k).send.buf ≡ chats (hub.heap k).send.buf ++ more)

pub none_more :
    (k : Ref) (hub : Hub) → chats (hub.heap k).send.buf ≡ chats (hub.heap k).send.buf ++ []
none_more k hub = sym (append-nil (chats (hub.heap k).send.buf))

disconnect-Adds :
    (t : Turn) (k c : Ref) (hub : Hub) → IsValid hub → Adds k [] hub (disconnect t c hub)
disconnect-Adds t k c hub v = elim (Bool-cases (contains c hub.clients)) [
  | inl m ↦
      let (hub', e, d, w) = disconnect-Dropped t c v m in
      (
        hub',
        e,
        w,
        (elim (Bool-cases (c == k)) [
          | inl same ↦
              subst (λ x. chats (hub'.heap x).send.buf ≡ chats (hub.heap x).send.buf)
                ((nat_beq_iff c k).0 same) (Grows-chats _ _ d.queue)
          | inr other ↦ Grows-chats _ _ (d.others k other).grows
        ])
            ∙ none_more k hub,
      )
  | inr m ↦ (hub, disconnect_again t c hub m, v, none_more k hub)
]

announced-chats :
    (r : Room) (user : String) (joined : Bool) (h h' : Heap) (k : Ref)
    → Announces r user joined h h'
    → chats (h' k).send.buf ≡ chats (h k).send.buf
announced-chats r user joined h h' k a =
    ap (λ x. chats x.send.buf) (a.offers k)
    ∙ if_holds {A = Client} (λ x. chats x.send.buf ≡ chats (h k).send.buf) (contains k r.members)
        (Grows-chats _ _ (offer-Grows a.frame (h k).send (ap is_chat a.tells.says))) refl

command-Adds :
    (t : Turn) (k : Ref) (cmd : Command) (hub : Hub) (kind : FrameType)
    → cmd.kind ≡ kind
    → IsValid hub
    → (kind ≡ type_join → contains cmd.client hub.clients ≡ true)
    → Adds k (got k (acts t (inbound cmd)) hub) hub (handle t cmd hub)
unfolding handle leave broadcast got
command-Adds t k cmd hub type_join e v m =
    let (hub', f, j, w) = join-Joins t cmd.client cmd.room hub v (m refl) in
    (
      hub',
      rw (e, handle) f,
      w,
      announced-chats _ _ _ hub.heap hub'.heap k j.announces ∙ rw e (none_more k hub),
    )
command-Adds t k cmd hub type_leave e v m = elim (Option-cases (lookup cmd.room hub.rooms)) [
  | inl n ↦ (hub, rw (e, handle, n, leave) refl, v, rw e (none_more k hub))
  | inr (r, n) ↦
      let (hub', f, p, w) = leave-Parts t cmd.client cmd.room r hub v n in
      (
        hub',
        rw (e, handle) f,
        w,
        announced-chats _ _ _ hub.heap hub'.heap k p.announces ∙ rw e (none_more k hub),
      )
]
command-Adds t k cmd hub type_message e v m = elim (Option-cases (lookup cmd.room hub.rooms)) [
  | inl n ↦ (hub, rw (e, handle, n, broadcast) refl, v, rw (e, n) (none_more k hub))
  | inr (r, n) ↦
      let (hub', f, b, w) = broadcast-Broadcasts t cmd.client cmd.room cmd.text r hub v n in
      (hub', rw (e, handle) f, w, rw (e, n) (b.delivers.queues k))
]
command-Adds t k cmd hub other e v m = (hub, rw (e, handle) refl, v, rw e (none_more k hub))

known-IsValid : (o : Outcome Hub) (known : Hub) → Succeeds o → o ≡ ok known → IsValid known
known-IsValid o known (hub', e, v) f = subst IsValid (ok_injective (sym e ∙ f)) v
  where
    ok_injective : ok hub' ≡ ok known → hub' ≡ known
    ok_injective g = cc

push-chats :
    (k c : Ref) (e : Envelope) (h : Heap)
    → chats (set_send c (offer e (h c).send) h k).send.buf
      ≡ chats (h k).send.buf
        ++ (if c == k && (has_room (h k).send && is_chat e) then e ∷ [] else [])
push-chats k c e h = ground (
  arith,
  nat_beq_iff c k,
  chats-append (h k).send.buf (e ∷ []),
  append-nil (chats (h k).send.buf),
  λ (p : c ≡ k). ap h p,
)

received-chats :
    (h : Heap) (c : Ref) (a : Envelope) (ch : Chan Envelope)
    → receive (h c).send ≡ some (a, ch)
    → chats (first (receive (h c).send)) ++ chats ch.buf ≡ chats (h c).send.buf
received-chats h c a ch e =
    rw e (sym (chats-append (a ∷ []) ch.buf) ∙ ap chats (sym (receive_lem (h c).send ch a e).0))

write-chats :
    (k c : Ref) (h : Heap) (a : Envelope) (ch : Chan Envelope)
    → receive (h c).send ≡ some (a, ch)
    → chats (if c == k then first (receive (h k).send) else [])
        ++ chats (set_send c ch h k).send.buf
      ≡ chats (h k).send.buf
write-chats k c h a ch e = elim (Bool-cases (c == k)) [
  | inl same ↦ rw same (
      subst (λ x. chats (first (receive (h x).send)) ++ chats ch.buf ≡ chats (h x).send.buf)
        ((nat_beq_iff c k).0 same) (received-chats h c a ch e))
  | inr other ↦ rw other refl
]

nothing-chats :
    (k c : Ref) (h : Heap)
    → receive (h c).send ≡ none
    → chats (if c == k then first (receive (h k).send) else []) ++ chats (h k).send.buf
      ≡ chats (h k).send.buf ++ []
nothing-chats k c h n = elim (Bool-cases (c == k)) [
  | inl same ↦ rw same (
      subst
        (λ x.
          chats (first (receive (h x).send)) ++ chats (h x).send.buf ≡ chats (h x).send.buf ++ [])
        ((nat_beq_iff c k).0 same) (rw n (sym (append-nil (chats (h c).send.buf)))))
  | inr other ↦ rw other (sym (append-nil (chats (h k).send.buf)))
]

saved_heap : (hub mid : Hub) → step saves hub ≡ ok mid → mid.heap ≡ hub.heap
unfolding step
saved_heap hub mid f = stored (receive hub.persist) f
  where
    stored :
        (o : Option (Message × Chan Message))
        → (elim o as (λ _. Outcome Hub) [
          | none ↦ ok hub
          | some (_, q) ↦ ok (record hub { persist = q })
        ])
          ≡ ok mid
        → mid.heap ≡ hub.heap
    stored none g = cc
    stored (some (e, q)) g = cc

-- One allowed move: the chat frames that it takes from `k`, and those that are then in the buffer,
-- are those that were there, and behind them the one that the move puts in.
abbrev pub Moves : Ref → Move → Hub → Type 0
Moves k m hub =
    (mid : Hub) × (step m hub ≡ ok mid)
    × IsValid mid
    × (chats (took k m hub) ++ chats (mid.heap k).send.buf
        ≡ chats (hub.heap k).send.buf ++ got k m hub)

pub step-Moves : (k : Ref) (m : Move) (hub : Hub) → IsValid hub → IsAllowed m hub → Moves k m hub
unfolding step process took got
step-Moves k (acts t (registered c)) hub v a =
    (_, refl, registered-IsValid c hub a v, none_more k hub)
step-Moves k (acts t (unregistered c)) hub v a = disconnect-Adds t k c hub v
step-Moves k (acts t (inbound cmd)) hub v a = command-Adds t k cmd hub cmd.kind refl v a
step-Moves k (acts t queried) hub v a = (hub, refl, v, none_more k hub)
step-Moves k (acts t sampled) hub v a = (_, refl, sample-IsValid hub v, none_more k hub)
step-Moves k (pushes c e) hub v a =
    let known : Hub = record hub { heap = set_send c (offer e (hub.heap c).send) hub.heap } in
    let f : step (pushes c e) hub ≡ ok known =
      rw (enqueue_open hub.heap c e (v.holds.opened c a)) refl in
    (
      known,
      f,
      known-IsValid _ known (step-Succeeds (pushes c e) hub v a) f,
      push-chats k c e hub.heap,
    )
step-Moves k (writes c) hub v a = elim (Option-cases (receive (hub.heap c).send)) [
  | inl n ↦ (hub, rw (n, step) refl, v, nothing-chats k c hub.heap n)
  | inr ((e, ch), r) ↦
      let known : Hub = record hub { heap = set_send c ch hub.heap } in
      let f : step (writes c) hub ≡ ok known = rw (r, step) refl in
      (
        known,
        f,
        known-IsValid _ known (step-Succeeds (writes c) hub v tt) f,
        write-chats k c hub.heap e ch r ∙ none_more k hub,
      )
]
step-Moves k saves hub v a =
    let (mid, f, w) = step-Succeeds saves hub v tt in
    (mid, f, w, ap (λ x. chats (x k).send.buf) (saved_heap hub mid f) ∙ none_more k hub)
