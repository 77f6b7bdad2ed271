-- ===== src/Store/Sqlite.antt =====
-- internal/store/sqlite.go: the message store in SQLite, which keeps times as nanoseconds.
use chat_room.Prelude.{ℕ, String, ℤ, Option, none, some}
use chat_room.Message.{Message, Time}
use chat_room.Clock.{unix_nano, of_unix_nano}
use chat_room.Hub.Pumps.{Loaded}
use chat_room.Store.{MessageStore}
use chat_room.Store.Table.{Engine, stamped, collected}

-- `SaveMessage` after the statement; `some none` is a row whose `LastInsertId` fails.
unfoldable pub inserted : Message → Option (Option ℕ) → Option Message
inserted m none = none
inserted m (some none) = some m
inserted m (some (some id)) = some (record m { id = id })

module _ {D : Type 0} (e : Engine D ℤ (Option ℕ)) where
  unfoldable pub save_message : Time → Message → D → D × Option Message
  unfolding inserted
  save_message now given d =
      let m = stamped now given in
      let (d', r) =
        e.insert_message m.room m.sender_id m.sender_name m.content (unix_nano m.created_at) d in
      (d', inserted m r)

  unfoldable pub recent_by_room : String → ℤ → D → Loaded
  unfolding collected
  recent_by_room room limit d = collected of_unix_nano (e.select_recent room limit d)

  -- The methods of `SQLite`.
  unfoldable pub sqlite : MessageStore D
  unfolding save_message recent_by_room
  sqlite = record { save_message = save_message; recent_by_room = recent_by_room }
