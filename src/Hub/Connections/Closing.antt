-- ===== src/Hub/Connections/Closing.antt =====
-- What is left of the connections that have ended.
use chat_room.Prelude.{
  ◌≡◌, refl, ap, ◌∙◌, false, some, List, [], ◌∷◌, arith, nat_eq, string_eq, nat_beq_iff, length,
  ◌≤◌, Chan, contains, lookup, ok, sym, Outcome, ==_refl, String,
}
use chat_room.Message.{Message}
use mathlib.Core.Path.{subst}
use chat_room.Hub.Clients.{Ref, Heap}
use chat_room.Hub.Rooms.{Room}
use chat_room.Hub.Invariant.{IsValid}
use chat_room.Hub.Interleaving.{new_hub-IsValid}
use chat_room.Hub.Connections.{Server, Deed, perform_each, start}
use chat_room.Hub.Connections.Settled.{is_reading, IsSettled}
use chat_room.Hub.Connections.Dropped.{AllHeld, IsManned}
use chat_room.Hub.Connections.Manned.{Keeps, perform_each-Keeps}
use chat_room.Hub.{Hub, new_hub}

pub start-IsManned :
    (q : Chan Message) (h : Heap) → IsValid (new_hub q h) → IsManned (start (new_hub q h))
unfolding start new_hub
start-IsManned q h v = record { hub_valid = v; manned = λ k m. absurd cc }

pub start-IsSettled :
    (q : Chan Message) (h : Heap) → IsValid (new_hub q h) → IsSettled (start (new_hub q h))
unfolding start new_hub
start-IsSettled q h v = record { hub_valid = v; connected = λ k. refl; own = λ k. tt }

none_in : (cs : List Ref) → ((k : Ref) → contains k cs ≡ false) → cs ≡ []
none_in [] n = refl
none_in (c ∷ cs) n = absurd (ground (arith, n c, nat_beq_iff c c))

-- A valid hub without clients has no rooms.
no_rooms :
    (hub : Hub) (rooms : List (String × Room))
    → hub.rooms ≡ rooms
    → IsValid hub
    → ((k : Ref) → contains k hub.clients ≡ false)
    → rooms ≡ []
unfolding lookup
no_rooms hub [] e v n = refl
no_rooms hub ((name, r) ∷ rest) e v n =
    let here : lookup name hub.rooms ≡ some r = rw (e, lookup, ==_refl name) refl in
    let nobody = none_in r.members (λ k. ground (arith, n k, v.holds.inside name r k here)) in
    absurd (ground (arith, v.holds.occupied name r here, ap length nobody))

settled : (s : Server) (o : Outcome Server) → Keeps o → o ≡ ok s → IsManned s
settled s o (s', f, j) e = subst IsManned (ok_injective (sym f ∙ e)) j
  where
    ok_injective : ok s' ≡ ok s → s' ≡ s
    ok_injective g = cc

-- A hub that `New` has made, with an open persist queue and channels within their capacities, and
-- any connections that come and do what they do, in any order beside the actor, the write pumps and
-- the persister, slow readers that the hub drops among them, as long as no pump enqueues a frame or
-- submits a join for a client that the hub has dropped: once no read pump runs any more, the hub
-- holds no client and no room.
pub perform_each-ends :
    (ds : List Deed) (q : Chan Message) (h : Heap) (s : Server)
    → q.closed ≡ false
    → length q.buf ≤ q.cap
    → ((c : Ref) → length (h c).send.buf ≤ (h c).send.cap)
    → AllHeld ds (start (new_hub q h))
    → perform_each ds (start (new_hub q h)) ≡ ok s
    → ((k : Ref) → is_reading (s.threads k) ≡ false)
    → (s.hub.clients ≡ []) × (s.hub.rooms ≡ [])
perform_each-ends ds q h s o b bs held e n =
    let i = start-IsManned q h (new_hub-IsValid q h o b bs) in
    let j = settled s _ (perform_each-Keeps ds (start (new_hub q h)) i held) e in
    let gone : (k : Ref) → contains k s.hub.clients ≡ false =
      λ k. ground (arith, j.manned k, n k) in
    (none_in s.hub.clients gone, no_rooms s.hub s.hub.rooms refl j.hub_valid gone)
