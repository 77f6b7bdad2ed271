-- ===== src/Hub/Connections/Due.antt =====
-- What the deeds are to bring to a connection, and what its write pump takes.
use chat_room.Prelude.{
  ◌==◌, ◌&&◌, not, if◌then◌else◌, Bool, true, false, Option, none, some, List, [], ◌∷◌, ◌++◌,
  nat_eq, string_eq, contains, lookup,
}
use chat_room.Message.{Envelope, type_message}
use chat_room.Hub.Clients.{Ref}
use chat_room.Hub.Rooms.{Room}
use chat_room.Hub.Broadcast.{message_frame, accepted_message}
use chat_room.Hub.Pumps.{submit}
use chat_room.Hub.System.{writes}
use chat_room.Hub.Ordering.{took, onward}
use chat_room.Hub.Connections.{Thread, waiting, reading, Server, Deed, proceeds, drains, perform}
use chat_room.Hub.{Hub, Turn, Command}

-- The frame of a message, for a member of its room other than the sender.
abbrev pub message_due : Ref → Turn → Command → Hub → Option Room → List Envelope
message_due k t cmd hub none = []
message_due k t cmd hub (some r) =
    if contains k r.members && not (k == cmd.client)
    then message_frame cmd.room (accepted_message t cmd.client cmd.room cmd.text hub) ∷ []
    else []

-- What the next action of a read pump is to bring to `k`.
abbrev pub due : Ref → Turn → Thread → Hub → List Envelope
due k t (reading (submit cmd ∷ rest)) hub = elim cmd.kind [
  | type_message ↦ message_due k t cmd hub (lookup cmd.room hub.rooms)
  | _ ↦ []
]
due k t th hub = []

unfoldable pub brings : Ref → Deed → Server → List Envelope
brings k (proceeds t c) s = due k t (s.threads c) s.hub
brings k d s = []

-- The frame that the write pump of `k` takes.
unfoldable pub drained : Ref → Deed → Server → List Envelope
drained k (drains c) s = took k (writes c) s.hub
drained k d s = []

-- Those of a sequence of deeds, in order.
unfoldable pub brings_each : Ref → List Deed → Server → List Envelope
brings_each k [] s = []
brings_each k (d ∷ ds) s = brings k d s ++ onward (brings_each k ds) (perform d s)

unfoldable pub drained_each : Ref → List Deed → Server → List Envelope
drained_each k [] s = []
drained_each k (d ∷ ds) s = drained k d s ++ onward (drained_each k ds) (perform d s)

abbrev pub has_started : Thread → Bool
has_started waiting = false
has_started th = true
