-- ===== src/Hub/Directory.antt =====
-- What the hub promises of who is connected and who is in which room, whatever its lists, maps,
-- buffers and channels. A client that reads too slowly may go at any message.
use chat_room.Prelude.{
  String, ◌≡◌, Bool, true, false, ◌&&◌, ◌||◌, List, [], ◌∷◌, if◌then◌else◌, ◌==◌, nat_eq, string_eq,
  contains,
}
use chat_room.Message.{type_join, type_leave, type_message}
use chat_room.Hub.Clients.{Ref}
use chat_room.Hub.Shed.{is_member}
use chat_room.Hub.{
  FrameType, Command, Hub, Event, registered, unregistered, inbound, queried, sampled,
}

pub record Directory : Type 0 where
  pub connected : Ref → Bool
  pub member : Ref → String → Bool

abbrev pub directory : Hub → Directory
directory hub = record {
  connected = λ k. contains k hub.clients;
  member = λ k j. is_member k j hub;
}

-- The directory holds just these clients and members.
pub record Becomes (connected : Ref → Bool) (member : Ref → String → Bool) (a : Directory)
    : Type 0 where
  pub connected_same : (k : Ref) → a.connected k ≡ connected k
  pub member_same : (k : Ref) (j : String) → a.member k j ≡ member k j

-- Commands of other kinds do nothing.
abbrev pub IsIdle : FrameType → Type 0
IsIdle type_join = ⊥
IsIdle type_leave = ⊥
IsIdle type_message = ⊥
IsIdle _ = Unit {0}

-- The directories that an event may lead to.
pub data Step : Event → Directory → Directory → Type 0 where
  registers :
      (c : Ref) {a a' : Directory}
      → Becomes (λ k. c == k || a.connected k) a.member a'
      → Step (registered c) a a'
  unregisters :
      (c : Ref) {a a' : Directory}
      → Becomes
          (λ k. if c == k then false else a.connected k)
          (λ k j. if c == k then false else a.member k j)
          a'
      → Step (unregistered c) a a'
  joins :
      (cmd : Command) {a a' : Directory}
      → cmd.kind ≡ type_join
      → Becomes a.connected
          (λ k j. if cmd.room == j && cmd.client == k then true else a.member k j)
          a'
      → Step (inbound cmd) a a'
  leaves :
      (cmd : Command) {a a' : Directory}
      → cmd.kind ≡ type_leave
      → Becomes a.connected
          (λ k j. if cmd.room == j && cmd.client == k then false else a.member k j)
          a'
      → Step (inbound cmd) a a'
  -- Only other members of the room may go, and they go from everywhere.
  sends :
      (cmd : Command) {a a' : Directory} (gone : Ref → Bool)
      → cmd.kind ≡ type_message
      → ((k : Ref) → gone k ≡ true → (a.member k cmd.room ≡ true) × ((cmd.client == k) ≡ false))
      → Becomes
          (λ k. if gone k then false else a.connected k)
          (λ k j. if gone k then false else a.member k j)
          a'
      → Step (inbound cmd) a a'
  ignores :
      (cmd : Command) {a a' : Directory}
      → IsIdle cmd.kind
      → Becomes a.connected a.member a'
      → Step (inbound cmd) a a'
  queries : {a a' : Directory} → Becomes a.connected a.member a' → Step queried a a'
  samples : {a a' : Directory} → Becomes a.connected a.member a' → Step sampled a a'

-- The events of a run, each as one step.
pub data Steps : List Event → Directory → Directory → Type 0 where
  done : {a : Directory} → Steps [] a a
  next :
      {e : Event} {es : List Event} {a a' a'' : Directory}
      → Step e a a'
      → Steps es a' a''
      → Steps (e ∷ es) a a''
