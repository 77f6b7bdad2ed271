-- ===== src/Hub/Ordering.antt =====
-- Which chat frames a client gets in a run of the actor and the goroutines beside it, and which its
-- write pump takes.
pub mod Turns
pub mod Runs
use chat_room.Prelude.{
  String, Bool, true, false, ◌&&◌, Option, none, some, List, [], ◌∷◌, ◌++◌, if◌then◌else◌, ◌==◌,
  nat_eq, string_eq, lookup, receive, Chan, has_room, Outcome, ok, panic,
}
use chat_room.Message.{Envelope, type_message, is_chat}
use chat_room.Hub.Clients.{Ref}
use chat_room.Hub.Rooms.{Room}
use chat_room.Hub.Broadcast.{is_served, message_frame, accepted_message}
use chat_room.Hub.System.{Move, acts, pushes, writes, saves, step}
use chat_room.Hub.{Hub, Turn, Command, Event, inbound}

-- The frame of a message to a room, for a member other than the sender whose buffer has room.
abbrev pub message_for : Ref → Turn → Command → Hub → Option Room → List Envelope
message_for k t cmd hub none = []
message_for k t cmd hub (some r) =
    if is_served hub.heap cmd.client r k
    then message_frame cmd.room (accepted_message t cmd.client cmd.room cmd.text hub) ∷ []
    else []

-- The chat frame that a move puts into the buffer of `k`. A read pump may push any frame.
unfoldable pub got : Ref → Move → Hub → List Envelope
got k (acts t (inbound cmd)) hub = elim cmd.kind [
  | type_message ↦ message_for k t cmd hub (lookup cmd.room hub.rooms)
  | _ ↦ []
]
got k (pushes c e) hub = if c == k && (has_room (hub.heap k).send && is_chat e) then e ∷ [] else []
got k m hub = []

abbrev pub first : Option (Envelope × Chan Envelope) → List Envelope
first none = []
first (some (e, ch)) = e ∷ []

-- The frame that a move takes out of the buffer of `k`.
unfoldable pub took : Ref → Move → Hub → List Envelope
took k (writes c) hub = if c == k then first (receive (hub.heap k).send) else []
took k m hub = []

abbrev pub onward : {A : Type 0} → (A → List Envelope) → Outcome A → List Envelope
onward f (ok a) = f a
onward f (panic p) = []

-- Those of a run, in order.
unfoldable pub got_each : Ref → List Move → Hub → List Envelope
got_each k [] hub = []
got_each k (m ∷ ms) hub = got k m hub ++ onward (got_each k ms) (step m hub)

unfoldable pub took_each : Ref → List Move → Hub → List Envelope
took_each k [] hub = []
took_each k (m ∷ ms) hub = took k m hub ++ onward (took_each k ms) (step m hub)
