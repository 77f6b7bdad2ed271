-- ===== src/Store/Failing.antt =====
-- When a history query fails, and what a save returns.
use chat_room.Prelude.{
  ℕ, String, ◌≡◌, refl, sym, ap, ◌∙◌, ◌↔◌, Bool, true, false, Option, none, some, List, [], ◌∷◌,
  ◌++◌, map, reverse, ℤ,
}
use mathlib.Core.List.{append-nil, append_assoc}
use mathlib.Core.Option.{some_inj}
use chat_room.Message.{Message, Time}
use chat_room.Hub.Pumps.{loaded}
use chat_room.Store.Table.{Row, Cursor, Engine, message_of, scan_rows, oldest_first, collected}
use chat_room.Store.Log.{scan_rows-some}
use chat_room.Clock.{of_unix_nano}
use chat_room.Store.Sqlite.{recent_by_room}

module _ {T : Type 0} (read : T → Time) where
  -- A query's answer from which each row scans, and the messages of the rows.
  abbrev pub Answered : Option (Cursor T) → List Message → Type 0
  Answered answer ms =
      (rs : List (Row T)) × (answer ≡ some (record { rows = map (λ r. some r) rs; broken = false }))
      × (ms ≡ reverse (map (message_of read) rs))

  scan_rows-cases :
      (rs : List (Option (Row T))) (out ms : List Message)
      → scan_rows read rs out ≡ some ms
      → (qs : List (Row T)) × (rs ≡ map (λ r. some r) qs) × (ms ≡ out ++ map (message_of read) qs)
  unfolding scan_rows
  scan_rows-cases [] out ms e = ([], refl, sym (some_inj.0 e) ∙ sym (append-nil out))
  scan_rows-cases (none ∷ rs) out ms e = absurd cc
  scan_rows-cases (some r ∷ rs) out ms e =
      let (qs, same, all) = scan_rows-cases rs (out ++ message_of read r ∷ []) ms e in
      (
        r ∷ qs,
        ap (λ l. some r ∷ l) same,
        all ∙ append_assoc out (message_of read r ∷ []) (map (message_of read) qs),
      )

  loaded-cases :
      (broken : Bool) (rs : List (Option (Row T))) (o : Option (List Message)) (ms : List Message)
      → scan_rows read rs [] ≡ o
      → oldest_first read broken o ≡ loaded ms
      → Answered (some (record { rows = rs; broken = broken })) ms
  unfolding oldest_first
  loaded-cases broken rs none ms i e = absurd cc
  loaded-cases true rs (some out) ms i e = absurd cc
  loaded-cases false rs (some out) ms i e =
      let (qs, same, all) = scan_rows-cases rs [] out i in
      (qs, ap (λ l. some (record { rows = l; broken = false })) same, cc)

  pub collected_iff :
      (answer : Option (Cursor T)) (ms : List Message)
      → (collected read answer ≡ loaded ms) ↔ Answered answer ms
  unfolding collected oldest_first
  collected_iff answer ms = (
    to answer,
    λ (rs, same, all).
        ap (collected read) same
        ∙ ap (oldest_first read false) (scan_rows-some read rs [])
        ∙ ap (λ l. loaded l) (sym all),
  )
    where
      to : (a : Option (Cursor T)) → collected read a ≡ loaded ms → Answered a ms
      to none e = absurd cc
      to (some c) e = loaded-cases c.broken c.rows (scan_rows read c.rows []) ms refl e

-- The SQLite store loads the history exactly if the query answers, each row scans and the rows end
-- without an error; it is then the messages of the rows in the opposite order.
pub sqlite-recent_by_room_iff :
    {D : Type 0} (e : Engine D ℤ (Option ℕ)) (room : String) (limit : ℤ) (d : D) (ms : List Message)
    → (recent_by_room e room limit d ≡ loaded ms)
      ↔ Answered of_unix_nano (e.select_recent room limit d) ms
unfolding recent_by_room
sqlite-recent_by_room_iff e room limit d ms =
    collected_iff of_unix_nano (e.select_recent room limit d) ms
