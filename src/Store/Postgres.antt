-- ===== src/Store/Postgres.antt =====
-- internal/store/postgres.go: the message store in Postgres. The driver takes and gives times.
use chat_room.Prelude.{ℕ, String, ℤ, Option, none, some}
use chat_room.Message.{Message, Time}
use chat_room.Hub.Pumps.{Loaded}
use chat_room.Store.{MessageStore}
use chat_room.Store.Table.{Engine, stamped, collected}

-- `SaveMessage` after the statement, which returns the id.
unfoldable pub inserted : Message → Option ℕ → Option Message
inserted m none = none
inserted m (some id) = some (record m { id = id })

module _ {D : Type 0} (e : Engine D Time ℕ) where
  unfoldable pub save_message : Time → Message → D → D × Option Message
  unfolding inserted
  save_message now given d =
      let m = stamped now given in
      let (d', r) = e.insert_message m.room m.sender_id m.sender_name m.content m.created_at d in
      (d', inserted m r)

  -- The driver's times are the instants of the column, in a location that is not modelled.
  unfoldable pub recent_by_room : String → ℤ → D → Loaded
  unfolding collected
  recent_by_room room limit d = collected (λ t. t) (e.select_recent room limit d)

  -- The methods of `Postgres`.
  unfoldable pub postgres : MessageStore D
  unfolding save_message recent_by_room
  postgres = record { save_message = save_message; recent_by_room = recent_by_room }
