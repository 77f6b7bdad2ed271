-- ===== src/Hub/Connections/Tests.antt =====
-- One connection from its start to its end.
use chat_room.Prelude.{
  length, true, ◌++◌, ◌≡◌, refl, ap, List, [], ◌∷◌, arith, nat_eq, string_eq, nat_beq_iff, receive,
  delete, drop_key, close_chan, make_chan, try_send, assign, insert, lookup, Outcome, ok, panic,
}
use mathlib.Core.Path.{subst}
use chat_room.Message.{envelope, type_join, type_message}
use chat_room.Hub.{
  disconnect, leave_each, leave_joined, depart, deliver_message, hand_off, leave, presence_frame,
  sample, stamped, broadcast, deliver_each, disconnect_each, broadcast_presence, room_of, join,
  handle, new_hub, process,
}
use chat_room.Hub.Clients.{close_send, enqueue_each, enqueue, new_client}
use chat_room.Hub.Rooms.{remove, add, new_room}
use chat_room.Hub.Interleaving.{new_hub-IsValid}
use chat_room.Hub.Pumps.{on_frame, greeting, handle_join, loaded}
use chat_room.Hub.System.{step}
use chat_room.Hub.Tests.{turn, heap, queue}
use chat_room.Hub.Connections.{
  proceed, connect, Server, Deed, connects, reads, hangs_up, proceeds, drains, stores, timed,
  perform, perform_each, AllFast, IsFast, start,
}
use chat_room.Hub.Connections.Continuing.{Continues, perform_each-Continues}
use chat_room.Hub.Connections.Dropped.{AllHeld, HoldsNow}
use chat_room.Hub.Connections.Settled.{IsSettled}
use chat_room.Hub.Connections.Due.{brings, brings_each, drained_each, has_started}
use chat_room.Hub.Quiet.{chats}
use chat_room.Hub.Connections.Delivering.{known-IsSettled, perform_each-Delivers}
use chat_room.Hub.Connections.Closing.{perform_each-ends, start-IsSettled}

-- It joins a room, writes to it, has a frame written, and hangs up.
abbrev deeds : List Deed
deeds =
    connects turn 1 "7" "ann" 2 30
    ∷ reads 1 (λ room. loaded []) (envelope type_join "den")
    ∷ proceeds turn 1
    ∷ reads 1 (λ room. loaded []) (record (envelope type_message "den") { text = "hi" })
    ∷ proceeds turn 1
    ∷ drains 1
    ∷ stores
    ∷ timed turn
    ∷ hangs_up 1
    ∷ proceeds turn 1
    ∷ []

abbrev server : Server
server = start (new_hub queue heap)

abbrev result : Outcome Server → Server
result (ok s) = s
result (panic p) = server

-- `AllFast` at the states that the deeds compute.
abbrev Checked : List Deed → Server → Type 0
Checked [] s = Unit
Checked (d ∷ ds) s = IsFast d s × Checked ds (result (perform d s))

Checked-AllFast : (ds : List Deed) (s : Server) → Checked ds s → AllFast ds s
Checked-AllFast [] s p = tt
Checked-AllFast (d ∷ ds) s (now, later) =
    (now, λ s' f. subst (AllFast ds) (ap result f) (Checked-AllFast ds _ later))

deeds-AllFast : AllFast deeds server
unfolding perform connect proceed on_frame handle_join greeting step process handle join room_of add
    broadcast_presence enqueue_each enqueue try_send lookup assign insert start new_hub new_client
    make_chan new_room receive broadcast deliver_each disconnect_each
deeds-AllFast = Checked-AllFast deeds server (
  tt,
  (
    tt,
    (
      (λ r k a b. absurd cc),
      (tt, ((λ r k a b. ground (arith, b, nat_beq_iff k 1)), (tt, (tt, (tt, (tt, (tt, tt))))))),
    ),
  ),
)

perform_each-Continues_example : Continues (perform_each deeds server)
perform_each-Continues_example =
    perform_each-Continues deeds server
      (start-IsSettled queue heap
        (new_hub-IsValid queue heap refl (omega arith) (λ c. omega arith)))
      deeds-AllFast

-- Two connections.
abbrev arriving : List Deed
arriving = connects turn 1 "7" "ann" 4 30 ∷ connects turn 2 "8" "bob" 4 30 ∷ []

abbrev both : Server
both = result (perform_each arriving server)

both-IsSettled : IsSettled both
unfolding perform perform_each connect proceed on_frame handle_join greeting step process handle
    join room_of add start broadcast_presence enqueue_each lookup new_hub enqueue new_client
    broadcast assign deliver_each disconnect_each receive disconnect leave_each leave_joined depart
    delete close_send remove deliver_message hand_off leave presence_frame sample stamped drop_key
    close_chan make_chan try_send insert new_room
both-IsSettled =
    known-IsSettled (perform_each arriving server) both
      (perform_each-Continues arriving server
        (start-IsSettled queue heap
          (new_hub-IsValid queue heap refl (omega arith) (λ c. omega arith)))
        (Checked-AllFast arriving server (tt, (tt, tt))))
      refl

-- Both join a room, and the first writes to it; the write pump of the second takes two frames.
abbrev chatting : List Deed
chatting =
    reads 1 (λ room. loaded []) (envelope type_join "den")
    ∷ proceeds turn 1
    ∷ reads 2 (λ room. loaded []) (envelope type_join "den")
    ∷ proceeds turn 2
    ∷ reads 1 (λ room. loaded []) (record (envelope type_message "den") { text = "hi" })
    ∷ proceeds turn 1
    ∷ drains 2
    ∷ drains 2
    ∷ []

chatting-AllFast : AllFast chatting both
unfolding perform perform_each connect proceed on_frame handle_join greeting step process handle
    join room_of add start broadcast_presence enqueue_each lookup new_hub enqueue new_client
    broadcast assign deliver_each disconnect_each receive disconnect leave_each leave_joined depart
    delete close_send remove deliver_message hand_off leave presence_frame sample stamped drop_key
    close_chan make_chan try_send insert new_room
chatting-AllFast = Checked-AllFast chatting both (
  tt,
  (
    (λ r k a b. absurd cc),
    (
      tt,
      (
        (λ r k a b. absurd cc),
        (tt, ((λ r k a b. ground (arith, b, nat_beq_iff k 1, nat_beq_iff k 2)), (tt, (tt, tt)))),
      ),
    ),
  ),
)

both_started : has_started (both.threads 2) ≡ true
unfolding perform perform_each connect proceed on_frame handle_join greeting step process handle
    join room_of add start broadcast_presence enqueue_each lookup new_hub enqueue new_client
    broadcast assign deliver_each disconnect_each receive disconnect leave_each leave_joined depart
    delete close_send remove deliver_message hand_off leave presence_frame sample stamped drop_key
    close_chan make_chan try_send insert new_room
both_started = refl

perform_each-Delivers_example :
    (s' : Server) × (perform_each chatting both ≡ ok s')
    × (chats (drained_each 2 chatting both) ++ chats (s'.hub.heap 2).send.buf
        ≡ chats (both.hub.heap 2).send.buf ++ brings_each 2 chatting both)
perform_each-Delivers_example =
    perform_each-Delivers 2 chatting both both-IsSettled chatting-AllFast both_started

-- The second connection is to get one chat frame, and the sender none.
brings_test : (length (brings_each 2 chatting both) ≡ 1) × (brings_each 1 chatting both ≡ [])
unfolding perform perform_each connect proceed on_frame handle_join greeting step process handle
    join room_of add start broadcast_presence enqueue_each lookup new_hub enqueue new_client
    broadcast assign deliver_each disconnect_each receive disconnect leave_each leave_joined depart
    delete close_send remove deliver_message hand_off leave presence_frame sample stamped drop_key
    close_chan make_chan try_send insert new_room brings_each brings
brings_test = (refl, refl)

-- A reader without a buffer: the message of the other member drops it.
abbrev dropping : List Deed
dropping =
    connects turn 1 "7" "ann" 4 30
    ∷ connects turn 2 "8" "bob" 0 30
    ∷ reads 1 (λ room. loaded []) (envelope type_join "den")
    ∷ proceeds turn 1
    ∷ reads 2 (λ room. loaded []) (envelope type_join "den")
    ∷ proceeds turn 2
    ∷ reads 1 (λ room. loaded []) (record (envelope type_message "den") { text = "hi" })
    ∷ proceeds turn 1
    ∷ []

-- Then both connections end.
abbrev slow_deeds : List Deed
slow_deeds = dropping ++ hangs_up 2 ∷ proceeds turn 2 ∷ hangs_up 1 ∷ proceeds turn 1 ∷ []

-- `AllHeld` at the states that the deeds compute.
abbrev CheckedHeld : List Deed → Server → Type 0
CheckedHeld [] s = Unit
CheckedHeld (d ∷ ds) s = HoldsNow d s × CheckedHeld ds (result (perform d s))

CheckedHeld-AllHeld : (ds : List Deed) (s : Server) → CheckedHeld ds s → AllHeld ds s
CheckedHeld-AllHeld [] s p = tt
CheckedHeld-AllHeld (d ∷ ds) s (now, later) =
    (now, λ s' f. subst (AllHeld ds) (ap result f) (CheckedHeld-AllHeld ds _ later))

slow_deeds-AllHeld : AllHeld slow_deeds server
unfolding perform connect proceed on_frame handle_join greeting step process handle join room_of add
    start broadcast_presence enqueue_each lookup new_hub enqueue new_client broadcast assign
    deliver_each disconnect_each receive disconnect leave_each leave_joined depart delete close_send
    remove deliver_message hand_off leave presence_frame sample stamped drop_key close_chan
    make_chan try_send insert new_room
slow_deeds-AllHeld = CheckedHeld-AllHeld slow_deeds server (
  tt,
  (tt, (tt, ((λ e. refl), (tt, ((λ e. refl), (tt, ((λ e. refl), (tt, (tt, (tt, (tt, tt))))))))))),
)

dropped_test : (result (perform_each dropping server)).hub.clients ≡ 1 ∷ []
unfolding perform perform_each connect proceed on_frame handle_join greeting step process handle
    join room_of add start broadcast_presence enqueue_each lookup new_hub enqueue new_client
    broadcast assign deliver_each disconnect_each receive disconnect leave_each leave_joined depart
    delete close_send remove deliver_message hand_off leave presence_frame sample stamped drop_key
    close_chan make_chan try_send insert new_room
dropped_test = refl

perform_each-ends_example :
    ((result (perform_each slow_deeds server)).hub.clients ≡ [])
    × ((result (perform_each slow_deeds server)).hub.rooms ≡ [])
unfolding perform perform_each connect proceed on_frame handle_join greeting step process handle
    join room_of add start broadcast_presence enqueue_each lookup new_hub enqueue new_client
    broadcast assign deliver_each disconnect_each receive disconnect leave_each leave_joined depart
    delete close_send remove deliver_message hand_off leave presence_frame sample stamped drop_key
    close_chan make_chan try_send insert new_room
perform_each-ends_example =
    perform_each-ends slow_deeds queue heap (result (perform_each slow_deeds server)) refl
      (omega arith) (λ c. omega arith) slow_deeds-AllHeld refl (λ k. ground arith)
