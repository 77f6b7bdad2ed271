-- ===== src/Store.antt =====
-- internal/store/store.go: the interface of the message stores. Its two implementations run the same
-- statements, by Store/Table.
pub mod Table
pub mod Log
pub mod Backed
pub mod Roundtrip
pub mod Failing
pub mod Startup
pub mod Tests
pub mod Sqlite
pub mod Postgres
use chat_room.Prelude.{ℤ, String, Option}
use chat_room.Message.{Message, Time}
use chat_room.Hub.Pumps.{Loaded}

-- The clock's time comes first; `none` is an error.
pub record MessageStore (D : Type 0) : Type 0 where
  pub save_message : Time → Message → D → D × Option Message
  pub recent_by_room : String → ℤ → D → Loaded
