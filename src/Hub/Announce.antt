-- ===== src/Hub/Announce.antt =====
-- `broadcastPresence` in closed form: each member is offered the frame, whatever the order.
use chat_room.Prelude.{
  String, ◌≡◌, ap, sym, ◌∙◌, fun_ext, Bool, List, Perm, Distinct, contains-perm, Distinct-perm,
  nat_eq, ok,
}
use mathlib.Core.List.Perm
use chat_room.Message.{Envelope}
use chat_room.Hub.Clients.{Ref, Heap, enqueue_each, offered, AllOpen, enqueue_each-offered}
use chat_room.Hub.Rooms.{Room}
use chat_room.Hub.{Hub, Turn, presence_frame, broadcast_presence}

offered-perm :
    {cs ds : List Ref} (e : Envelope) (h : Heap) → Perm cs ds → offered cs e h ≡ offered ds e h
offered-perm e h p = fun_ext λ c. rw (contains-perm c p)

pub enqueue_each-perm :
    {cs ds : List Ref} (e : Envelope) (h : Heap)
    → Perm cs ds
    → Distinct ds
    → AllOpen ds h
    → enqueue_each cs e h ≡ ok (offered ds e h)
enqueue_each-perm {cs} {ds} e h p d o =
    enqueue_each-offered cs e h (Distinct-perm (Perm.symm p) d)
      (λ c m. o c (sym (contains-perm c p) ∙ m))
    ∙ ap ok (offered-perm e h p)

module _ (t : Turn) where
  unfoldable pub announced : Room → String → Bool → Hub → Hub
  announced r user joined hub = record hub {
    heap = offered r.members (presence_frame t r user joined hub.heap) hub.heap;
  }

  pub broadcast_presence-announced :
      (r : Room) (user : String) (joined : Bool) (hub : Hub)
      → Distinct r.members
      → AllOpen r.members hub.heap
      → broadcast_presence t r user joined hub ≡ ok (announced r user joined hub)
  unfolding broadcast_presence announced
  broadcast_presence-announced r user joined hub d o = rw (
      enqueue_each-perm (presence_frame t r user joined hub.heap) hub.heap
        (t.order-perm r.name r.members) d o)
