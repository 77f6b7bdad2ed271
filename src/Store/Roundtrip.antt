-- ===== src/Store/Roundtrip.antt =====
-- What the message stores save comes back as the history of a room.
use chat_room.Prelude.{
  ℕ, ◌≤◌, ◌*◌, ◌/◌, String, ◌≡◌, refl, ap, ◌∙◌, Bool, false, Option, some, List, [], ◌∷◌, map, ltb,
  arith, ℤ, pos, last,
}
use chat_room.Message.{Message, Time}
use chat_room.Clock.{unix_nano, of_unix_nano, ltz}
use chat_room.Clock.Range.{IsNear, of_unix_nano-unix_nano, ltz-unix_nano}
use chat_room.Hub.Pumps.{history, loaded}
use chat_room.Store.Table.{Engine, IsSql}
use chat_room.Store.Log.{history-recent, AreStamped, with_time, Saves, IsRising, messages_in}
use chat_room.Store.Backed.{AreStamped-Saves, backed, recent_by_room-Saves}
use chat_room.Store.Sqlite
use chat_room.Store.Postgres

-- Later in the column of SQLite.
abbrev pub later : ℤ → ℤ → Bool
later s t = ltz t s

later-unix_nano :
    (t u : Time) → IsNear t → IsNear u → t ≤ u → later (unix_nano t) (unix_nano u) ≡ false
later-unix_nano t u n m le = ltz-unix_nano u t m n ∙ ground (arith, le)

-- The columns hold near times exactly.
unix_nano_rising :
    (t : Time) (ms : List Message)
    → IsRising IsNear t ms
    → map (with_time (λ c. of_unix_nano (unix_nano c))) ms ≡ ms
unix_nano_rising t [] r = refl
unix_nano_rising t (m ∷ ms) (le, near, r) =
    ap (λ c. with_time (λ t. c) m ∷ map (with_time (λ t. of_unix_nano (unix_nano t))) ms)
      (of_unix_nano-unix_nano m.created_at near)
    ∙ ap (λ ms'. m ∷ ms') (unix_nano_rising m.created_at ms r)

-- Saves that succeed return what they were given but for the ids, with the clock's time where there
-- was none.
pub sqlite-AreStamped :
    {D : Type 0} (e : Engine D ℤ (Option ℕ)) {d d' : D} {gs : List (Time × Message)}
    {ms : List Message}
    → IsSql later (λ t. t) (λ id. some id) e
    → Saves (Sqlite.sqlite e) d gs ms d'
    → AreStamped gs ms
unfolding Sqlite.sqlite Sqlite.inserted backed
sqlite-AreStamped e law ss =
    AreStamped-Saves e unix_nano of_unix_nano Sqlite.inserted later (λ t. t) (λ id. some id) law
      (λ m. refl) (λ m id. refl) IsNear later-unix_nano ss

-- Over an SQLite engine that does what SQL says, with an empty table at first: after saves that
-- succeed, with times that do not fall and that are less than 2 ^ 63 nanoseconds off 1970, the
-- history that the hub loads for a room is exactly the last `n` messages that were saved there,
-- oldest first, as given but for their ids, those without a time with the clock's.
pub sqlite-recent_by_room-saved :
    {D : Type 0} (e : Engine D ℤ (Option ℕ)) {d d' : D} {gs : List (Time × Message)}
    {ms : List Message} (room : String) (n : ℕ)
    → IsSql later (λ t. t) (λ id. some id) e
    → e.rows d ≡ []
    → Saves (Sqlite.sqlite e) d gs ms d'
    → IsRising IsNear 0 ms
    → AreStamped gs ms
      × (history (some (λ j limit. Sqlite.recent_by_room e j limit d')) (pos n) room
          ≡ loaded (last n (messages_in room ms)))
unfolding Sqlite.sqlite Sqlite.recent_by_room Sqlite.inserted backed
sqlite-recent_by_room-saved e {d' = d'} {ms = ms} room n law empty ss rise = (
  sqlite-AreStamped e law ss,
  history-recent (λ j limit. Sqlite.recent_by_room e j limit d') room n (messages_in room ms)
      (recent_by_room-Saves e unix_nano of_unix_nano Sqlite.inserted later (λ t. t) (λ id. some id)
          law (λ m. refl) (λ m id. refl) IsNear later-unix_nano room n empty ss rise
        ∙ ap (λ l. loaded (last n (messages_in room l))) (unix_nano_rising 0 ms rise)),
)

-- A column of type TIMESTAMPTZ counts microseconds.
abbrev pub to_micros : Time → Time
to_micros t = t / 1000 * 1000

to_micros_rising :
    (t u : Time) → Unit {0} → Unit {0} → t ≤ u → ltb (to_micros u) (to_micros t) ≡ false
to_micros_rising t u a b le = ground (arith, le)

-- Over a Postgres engine that does what SQL says, with an empty table at first: after saves that
-- succeed, with times that do not fall, the history that the hub loads for a room is exactly the last
-- `n` messages that were saved there, oldest first, as given but for their ids, those without a time
-- with the clock's, and all times cut to microseconds.
pub postgres-recent_by_room-saved :
    {D : Type 0} (e : Engine D Time ℕ) {d d' : D} {gs : List (Time × Message)} {ms : List Message}
    (room : String) (n : ℕ)
    → IsSql (λ s t. ltb t s) to_micros (λ id. id) e
    → e.rows d ≡ []
    → Saves (Postgres.postgres e) d gs ms d'
    → IsRising (λ t. Unit {0}) 0 ms
    → AreStamped gs ms
      × (history (some (λ j limit. Postgres.recent_by_room e j limit d')) (pos n) room
          ≡ loaded (last n (messages_in room (map (with_time to_micros) ms))))
unfolding Postgres.postgres Postgres.recent_by_room Postgres.inserted backed
postgres-recent_by_room-saved e {d' = d'} {ms = ms} room n law empty ss rise = (
  AreStamped-Saves e (λ t. t) (λ t. t) Postgres.inserted (λ s t. ltb t s) to_micros (λ id. id) law
      (λ m. refl) (λ m id. refl) (λ t. Unit {0}) to_micros_rising ss,
  history-recent (λ j limit. Postgres.recent_by_room e j limit d') room n
      (messages_in room (map (with_time to_micros) ms))
      (recent_by_room-Saves e (λ t. t) (λ t. t) Postgres.inserted (λ s t. ltb t s) to_micros
        (λ id. id) law (λ m. refl) (λ m id. refl) (λ t. Unit {0}) to_micros_rising room n empty ss
        rise),
)
