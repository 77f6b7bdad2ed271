-- ===== src/Chat/Tests.antt =====
-- The program over drivers that count their handles.
use chat_room.Prelude.{ℕ, pos, String, ◌≡◌, refl, true, ◌↔◌, Option, none, some, List, [], ◌∷◌}
use chat_room.Hub.Clients.{Heap, new_client}
use chat_room.Config.{Config, bad_max_rooms}
use chat_room.Store.Startup.Tests.{World, counting, counting-IsDriver, files, read}
use chat_room.Chat.{
  parse_flags, db_url, max_rooms, Stores, Wiring, Part, run, is_postgres, sqlite_path, bad_config,
}
use chat_room.Chat.Exit.{AllNil, Ends, ended, server_closed, main}
use chat_room.Chat.Status.{IsClean, main-zero_iff}
use chat_room.Chat.Handles.{run-handles}

-- The group ends with an error of the server.
abbrev wait : Config → Stores ℕ → Wiring → List Part → World → World × Option String
wait c st k ps w = (w, some "listen")

abbrev heap : Heap
heap k = new_client "" "" 0 0

abbrev busy : World
busy = record { handles = 3 ∷ []; ran = [] }

run-handles_example :
    (run counting counting read files heap true wait (db_url "sqlite:x.db" ∷ []) busy).0.handles
    ≡ busy.handles
run-handles_example =
    run-handles (λ w. w.handles) (λ w. w.ran) (λ w. w.ran) counting counting counting-IsDriver
      counting-IsDriver read files heap true wait (λ c st k ps w. refl) (db_url "sqlite:x.db" ∷ [])
      busy

unusable_test :
    run counting counting read files heap true wait (max_rooms (pos 0) ∷ []) busy
    ≡ (busy, some (bad_config (bad_max_rooms (pos 0))))
unfolding run
unusable_test = refl

sqlite_path_test : sqlite_path "sqlite:" ≡ "chat.db"
unfolding sqlite_path
sqlite_path_test = refl

sqlite_path_bare_test : sqlite_path "rooms.db" ≡ "rooms.db"
unfolding sqlite_path
sqlite_path_bare_test = refl

is_postgres_test : is_postgres "postgresql://db" ≡ true
unfolding is_postgres
is_postgres_test = refl

abbrev first_error : List (Option String) → Option String
first_error [] = none
first_error (none ∷ rs) = first_error rs
first_error (some e ∷ rs) = some e

clean : (rs : List (Option String)) → AllNil rs → first_error rs ≡ none
clean [] a = refl
clean (none ∷ rs) (_, a) = clean rs a
clean (some e ∷ rs) (n, a) = absurd cc

failing : (rs : List (Option String)) → first_error rs ≡ none → AllNil rs
failing [] e = tt
failing (none ∷ rs) e = (refl, failing rs e)
failing (some x ∷ rs) e = absurd cc

-- A shutdown by a signal.
abbrev serving : Config → Stores ℕ → Wiring → List Part → World → World × Ends String
serving c st k ps w = (
  w,
  record {
    listened = server_closed;
    shut_down = none;
    debug_listened = ended;
    debug_shut_down = none;
  },
)

main-zero_iff_example :
    ((main first_error serving counting counting read files heap true
        (db_url "sqlite:x.db" ∷ [])
        busy).1
      ≡ 0)
    ↔ IsClean counting counting read files heap first_error serving true
        (parse_flags (db_url "sqlite:x.db" ∷ []))
        busy
main-zero_iff_example =
    main-zero_iff counting counting read files heap first_error serving
      (record { clean = clean; failing = failing }) true (db_url "sqlite:x.db" ∷ []) busy

main_test :
    (main first_error serving counting counting read files heap true
      (db_url "sqlite:x.db" ∷ [])
      busy).1
    ≡ 0
unfolding main run
main_test = refl
