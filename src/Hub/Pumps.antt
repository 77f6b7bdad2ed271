-- ===== src/Hub/Pumps.antt =====
-- internal/hub/client.go: the read pump and the write pump, as what they do for what they are given;
-- and `History` of hub.go, which the read pump calls.
pub mod Reading
pub mod Writing
pub mod Deadlines
pub mod Tests
use chat_room.Prelude.{
  String, ℤ, is_positive, Bool, true, false, ◌&&◌, not, Option, none, some, List, [], ◌∷◌, ◌++◌,
  if◌then◌else◌, ◌==◌, string_eq,
}
use chat_room.Message.{
  Message, Envelope, envelope, FrameType, type_join, type_leave, type_message, type_history,
  type_error,
}
use chat_room.Hub.Clients.{Ref}
use chat_room.Hub.{Command}

-- The result of a history query; the store logs and wraps its error.
pub data Loaded : Type 0 where
  loaded : List Message → Loaded
  failed : Loaded

-- `RecentByRoom` of the store that the hub was given, at a room and a limit.
abbrev pub Recent : Type 0
Recent = String → ℤ → Loaded

-- `h.History(ctx, room)`: `none` is a nil store.
unfoldable pub history : Option Recent → ℤ → String → Loaded
history none limit room = loaded []
history (some recent) limit room = if is_positive limit then recent room limit else loaded []

-- What a read pump does: it sends to its own client, submits to the actor, and at last unregisters.
pub data Action : Type 0 where
  push : Envelope → Action
  submit : Command → Action
  unregister : Action

abbrev pub command : FrameType → Ref → String → String → Command
command kind c room text = record { kind = kind; client = c; room = room; text = text }

unfoldable pub greeting : String → Loaded → List Action
greeting room failed =
    push (record (envelope type_error room) { error = "could not load history" }) ∷ []
greeting room (loaded []) = []
greeting room (loaded (m ∷ ms)) =
    push (record (envelope type_history room) { history = m ∷ ms }) ∷ []

module _ (c : Ref) (load : String → Loaded) where
  unfoldable pub handle_join : String → List Action
  handle_join room =
      if room == ""
      then []
      else greeting room (load room) ++ submit (command type_join c room "") ∷ []

  unfoldable pub on_frame : Envelope → List Action
  unfolding handle_join
  on_frame env = elim env.type [
    | type_join ↦ handle_join env.room
    | type_leave ↦ if env.room == "" then [] else submit (command type_leave c env.room "") ∷ []
    | type_message ↦
        if not (env.room == "") && not (env.text == "")
        then submit (command type_message c env.room env.text) ∷ []
        else []
    | _ ↦ []
  ]

-- The frames that `Read` returns, up to its first error, each with what `History` returns at that
-- time; the deferred call comes last.
pub read_pump : Ref → List ((String → Loaded) × Envelope) → List Action
unfolding on_frame
read_pump c [] = unregister ∷ []
read_pump c ((load, env) ∷ envs) = on_frame c load env ++ read_pump c envs

-- What `select` hands the write pump, and how the write or the ping then ends.
pub data Wake : Type 0 where
  cancelled : Wake
  frame : Envelope → (sent : Bool) → Wake
  shut : Wake
  ticked : (answered : Bool) → Wake

pub data Output : Type 0 where
  write : Envelope → Output
  ping : Output
  close_conn : Output

-- The connection's calls, in order. With no wake left the pump waits on.
pub write_pump : List Wake → List Output
write_pump [] = []
write_pump (cancelled ∷ ws) = close_conn ∷ []
write_pump (shut ∷ ws) = close_conn ∷ []
write_pump (frame e sent ∷ ws) =
    let rest = write_pump ws in write e ∷ (if sent then rest else close_conn ∷ [])
write_pump (ticked answered ∷ ws) =
    let rest = write_pump ws in ping ∷ (if answered then rest else close_conn ∷ [])
