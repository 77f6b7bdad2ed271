-- ===== src/Hub/Connections/Dropped.antt =====
-- Slow readers: what a pump may still do once the hub has dropped its client, and what one of its
-- actions does to the clients.
use chat_room.Prelude.{
  ◌≡◌, refl, sym, ap, ◌∙◌, Bool, true, false, List, [], ◌∷◌, arith, nat_eq, string_eq, nat_beq_iff,
  contains, ok, ◌==◌, ◌||◌,
}
use chat_room.Message.{type_join}
use chat_room.Hub.Clients.{Ref}
use chat_room.Hub.Invariant.{IsValid}
use chat_room.Hub.Beside.{pushes-Kept}
use chat_room.Hub.Directory.{
  Directory, Step, registers, unregisters, joins, leaves, sends, ignores, queries, samples,
}
use chat_room.Hub.Handling.{process-Refines}
use chat_room.Hub.Interleaving.{step-Succeeds}
use chat_room.Hub.Pumps.{Action, push, submit, unregister}
use chat_room.Hub.System.{pushes, step}
use chat_room.Hub.Connections.{Thread, reading, Server, Deed, proceeds, move_of, after, perform}
use chat_room.Hub.Connections.Settled.{is_reading}
use chat_room.Hub.{Hub, Turn, Event, registered, unregistered, inbound}

-- A pump that is about to enqueue a frame or to submit a join does so for a client that the hub still
-- holds.
abbrev pub IsHeld : Ref → Thread → Hub → Type 0
IsHeld c (reading (push e ∷ rest)) hub = contains c hub.clients ≡ true
IsHeld c (reading (submit cmd ∷ rest)) hub =
    cmd.kind ≡ type_join → contains cmd.client hub.clients ≡ true
IsHeld c th hub = Unit

abbrev pub HoldsNow : Deed → Server → Type 0
HoldsNow (proceeds t c) s = IsHeld c (s.threads c) s.hub
HoldsNow d s = Unit

abbrev pub AllHeld : List Deed → Server → Type 0
AllHeld [] s = Unit
AllHeld (d ∷ ds) s = HoldsNow d s × ((s' : Server) → perform d s ≡ ok s' → AllHeld ds s')

-- The hub is valid, and each of its clients has a running read pump.
pub record IsManned (s : Server) : Type 0 where
  pub hub_valid : IsValid s.hub
  pub manned : (k : Ref) → contains k s.hub.clients ≡ true → is_reading (s.threads k) ≡ true

-- No event but a registration makes anybody a client.
abbrev is_new : Event → Ref → Bool
is_new (registered c) k = c == k
is_new e k = false

Step-fewer :
    (e : Event) (a b : Directory) (k : Ref)
    → Step e a b
    → b.connected k ≡ true
    → (is_new e k || a.connected k) ≡ true
Step-fewer e a b k (registers c s) m = sym (s.connected_same k) ∙ m
Step-fewer e a b k (unregisters c s) m = ground (arith, s.connected_same k, m)
Step-fewer e a b k (joins cmd kind s) m = sym (s.connected_same k) ∙ m
Step-fewer e a b k (leaves cmd kind s) m = sym (s.connected_same k) ∙ m
Step-fewer e a b k (sends cmd gone kind own s) m = ground (arith, s.connected_same k, m)
Step-fewer e a b k (ignores cmd idle s) m = sym (s.connected_same k) ∙ m
Step-fewer e a b k (queries s) m = sym (s.connected_same k) ∙ m
Step-fewer e a b k (samples s) m = sym (s.connected_same k) ∙ m

Step-unregistered : (c : Ref) (a b : Directory) → Step (unregistered c) a b → b.connected c ≡ false
Step-unregistered c a b (unregisters _ s) = ground (arith, s.connected_same c, nat_beq_iff c c)

-- The pump's next action returns, and leaves a valid hub with no new client, and not with one that
-- has unregistered.
pub action-fewer :
    (t : Turn) (c : Ref) (a : Action) (rest : List Action) (hub : Hub)
    → IsValid hub
    → IsHeld c (reading (a ∷ rest)) hub
    → (hub' : Hub) × (step (move_of t c a) hub ≡ ok hub')
      × IsValid hub'
      × ((k : Ref) → contains k hub'.clients ≡ true → contains k hub.clients ≡ true)
      × (contains c hub'.clients ≡ true → is_reading (after a rest) ≡ true)
unfolding step
action-fewer t c (push f) rest hub v h =
    let (hub', e, w) = step-Succeeds (pushes c f) hub v h in
    (hub', e, w, λ k m. ap (contains k) (sym (pushes-Kept c f hub hub' e).0) ∙ m, λ m. refl)
action-fewer t c (submit cmd) rest hub v h =
    let (hub', e, s, w) = process-Refines t (inbound cmd) hub v h in
    (hub', e, w, λ k m. Step-fewer (inbound cmd) _ _ k s m, λ m. refl)
action-fewer t c unregister rest hub v h =
    let (hub', e, s, w) = process-Refines t (unregistered c) hub v tt in
    (
      hub',
      e,
      w,
      λ k m. Step-fewer (unregistered c) _ _ k s m,
      λ m. absurd (ground (arith, m, Step-unregistered c _ _ s)),
    )
