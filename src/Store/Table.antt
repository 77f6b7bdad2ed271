-- ===== src/Store/Table.antt =====
-- The table of messages, and what internal/store/sqlite.go and internal/store/postgres.go do around
-- the statements that they run on it. The engine behind the statements is a parameter.
pub mod Order
use chat_room.Prelude.{
  ℕ, ◌<◌, String, ◌≡◌, Bool, true, false, ◌&&◌, ◌||◌, not, Option, none, some, List, [], ◌∷◌, ◌++◌,
  map, reverse, if◌then◌else◌, ◌==◌, nat_eq, string_eq, ltb, ℤ, pos, take,
}
use chat_room.Message.{Message, Time}
use chat_room.Hub.Pumps.{Loaded, loaded, failed}

pub record Row (T : Type 0) : Type 0 where
  pub id : ℕ
  pub room : String
  pub sender_id : String
  pub sender_name : String
  pub content : String
  pub created_at : T

-- What a query answers: each row scans or does not, and `broken` is the error of `rows.Err`.
pub record Cursor (T : Type 0) : Type 0 where
  pub rows : List (Option (Row T))
  pub broken : Bool

-- The two statements, over a database state; `K` is what an insert tells of the new id.
pub record Engine (D T K : Type 0) : Type 0 where
  pub rows : D → List (Row T)
  pub insert_message : String → String → String → String → T → D → D × Option K
  pub select_recent : String → ℤ → D → Option (Cursor T)

-- A message without a time gets the clock's.
unfoldable pub stamped : Time → Message → Message
stamped now m = if m.created_at == 0 then record m { created_at = now } else m

module _ {T : Type 0} (read : T → Time) where
  abbrev pub message_of : Row T → Message
  message_of r = record {
    id = r.id;
    room = r.room;
    sender_id = r.sender_id;
    sender_name = r.sender_name;
    content = r.content;
    created_at = read r.created_at;
  }

  -- The loop over the rows, with what it has appended so far.
  unfoldable pub scan_rows : List (Option (Row T)) → List Message → Option (List Message)
  scan_rows [] out = some out
  scan_rows (none ∷ rs) out = none
  scan_rows (some r ∷ rs) out = scan_rows rs (out ++ message_of r ∷ [])

  unfoldable pub oldest_first : Bool → Option (List Message) → Loaded
  oldest_first broken none = failed
  oldest_first true (some out) = failed
  oldest_first false (some out) = loaded (reverse out)

  -- `RecentByRoom` from the query's answer on.
  unfoldable pub collected : Option (Cursor T) → Loaded
  unfolding scan_rows oldest_first
  collected none = failed
  collected (some c) = oldest_first c.broken (scan_rows c.rows [])

abbrev pub in_room : {T : Type 0} → String → List (Row T) → List (Row T)
in_room room [] = []
in_room room (r ∷ rs) = let rest = in_room room rs in if r.room == room then r ∷ rest else rest

-- `ORDER BY created_at DESC, id DESC`, where `later` orders the column.
module _ {T : Type 0} (later : T → T → Bool) where
  abbrev pub newer : Row T → Row T → Bool
  newer r s =
      later r.created_at s.created_at || (not (later s.created_at r.created_at) && ltb s.id r.id)

  abbrev pub place : Row T → List (Row T) → List (Row T)
  place r [] = r ∷ []
  place r (s ∷ ss) = let rest = place r ss in if newer r s then r ∷ s ∷ ss else s ∷ rest

  abbrev pub newest_first : List (Row T) → List (Row T)
  newest_first [] = []
  newest_first (r ∷ rs) = place r (newest_first rs)

-- All ids are smaller.
abbrev pub IsBelow : {T : Type 0} → ℕ → List (Row T) → Type 0
IsBelow id [] = Unit {0}
IsBelow id (r ∷ rs) = (r.id < id) × IsBelow id rs

-- What the statements do, by the documentation of SQL and a database that answers: `keep` is what
-- the column makes of a value, and `known` what is told of an id. The ids ascend.
pub record IsSql {D T K : Type 0} (later : T → T → Bool) (keep : T → T) (known : ℕ → K)
    (e : Engine D T K) : Type 0 where
  pub added :
      (room sender_id sender_name content : String) (t : T) (d d' : D) (k : K)
      → e.insert_message room sender_id sender_name content t d ≡ (d', some k)
      → (id : ℕ) × (k ≡ known id)
        × IsBelow id (e.rows d)
        × (e.rows d'
            ≡ e.rows d
              ++ record {
                id = id;
                room = room;
                sender_id = sender_id;
                sender_name = sender_name;
                content = content;
                created_at = keep t;
              }
                ∷ [])
  pub selected :
      (room : String) (n : ℕ) (d : D)
      → e.select_recent room (pos n) d
        ≡ some (record {
          rows = map (λ r. some r) (take n (newest_first later (in_room room (e.rows d))));
          broken = false;
        })
