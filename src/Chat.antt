-- ===== src/Chat.antt =====
-- cmd/chat/main.go: flags, the choice of the store, and how the parts start and end. The drivers,
-- the embedded migrations and the group of goroutines are parameters, over the state of the world.
pub mod Handles
pub mod Flags
pub mod Exit
pub mod Status
pub mod Tests
use chat_room.Prelude.{
  ℕ, String, Bool, true, false, ◌||◌, not, Option, none, some, List, [], ◌∷◌, ◌++◌, ◌*◌, ℤ, pos,
  if◌then◌else◌, ◌==◌, string_eq, has_prefix, trim_prefix,
}
use chat_room.Persist.{Persister, new_persister}
use chat_room.Hub.Clients.{Heap}
use chat_room.Hub.{Hub, new_hub}
use chat_room.Config.{Config, ConfigError, default_config, validate}
use chat_room.Store.Startup.{
  Driver, Stage, Opened, opened, failed, Entry, new_sqlite, new_postgres, close_sqlite,
  close_postgres,
}

-- `persistQueueDepth`, and `shutdownGrace` in nanoseconds.
abbrev pub persist_queue_depth : ℤ
persist_queue_depth = pos 1024

abbrev pub shutdown_grace : ℕ
shutdown_grace = 10 * 1_000_000_000

-- One flag of the command line with its value; `flag.Parse` ends the program at any other.
pub data Flag : Type 0 where
  addr db_url debug_addr : String → Flag
  max_message_size send_buffer ping_interval history_limit max_rooms session_ttl : ℤ → Flag
  secure_cookies : Bool → Flag

unfoldable pub set_flag : Flag → Config → Config
set_flag (addr s) c = record c { addr = s }
set_flag (db_url s) c = record c { db_url = s }
set_flag (debug_addr s) c = record c { debug_addr = s }
set_flag (max_message_size n) c = record c { max_message_size = n }
set_flag (send_buffer n) c = record c { send_buffer = n }
set_flag (ping_interval n) c = record c { ping_interval = n }
set_flag (history_limit n) c = record c { history_limit = n }
set_flag (max_rooms n) c = record c { max_rooms = n }
set_flag (session_ttl n) c = record c { session_ttl = n }
set_flag (secure_cookies b) c = record c { secure_cookies = b }

-- The flags in the order of the command line.
unfoldable pub set_flags : List Flag → Config → Config
unfolding set_flag
set_flags [] c = c
set_flags (f ∷ fs) c = set_flags fs (set_flag f c)

unfoldable pub parse_flags : List Flag → Config
unfolding set_flags default_config
parse_flags fs = set_flags fs default_config

-- `openStores`: a URL of Postgres, or the path of the SQLite file.
unfoldable pub is_postgres : String → Bool
unfolding has_prefix
is_postgres url = has_prefix url "postgres://" || has_prefix url "postgresql://"

unfoldable pub sqlite_path : String → String
unfolding trim_prefix
sqlite_path url = let path = trim_prefix url "sqlite:" in if path == "" then "chat.db" else path

-- The store that was opened; the accounts' store shares its handle.
pub data Stores (H : Type 0) : Type 0 where
  postgres sqlite : H → Stores H

-- The goroutines of the group.
pub data Part : Type 0 where
  hub persister server shutdown debug_server debug_shutdown : Part

-- `startDebugServer` adds two, if there is an address for it.
unfoldable pub parts : Config → List Part
parts c =
    hub
    ∷ persister
    ∷ server
    ∷ shutdown
    ∷ (if c.debug_addr == "" then [] else debug_server ∷ debug_shutdown ∷ [])

-- What `run` makes of the configuration for the parts: the persister, the hub that hands it
-- messages, how much history it loads, and how long a session lasts.
pub record Wiring : Type 0 where
  pub persister : Persister
  pub hub : Hub
  pub history_limit : ℤ
  pub session_ttl : ℤ

-- No client is registered yet, whatever the heap.
unfoldable pub wired : Heap → Config → Wiring
unfolding new_persister new_hub
wired heap c =
    let p = new_persister persist_queue_depth in
    record {
      persister = p;
      hub = new_hub p.queue heap;
      history_limit = c.history_limit;
      session_ttl = c.session_ttl;
    }

pub data RunError (E : Type 0) : Type 0 where
  bad_config : ConfigError → RunError E
  no_store : Stage → RunError E
  no_server : RunError E
  stopped : E → RunError E

unfoldable pub as_stores : {W H : Type 0} → (H → Stores H) → W × Opened H → W × Opened (Stores H)
as_stores kind (w, opened h) = (w, opened (kind h))
as_stores kind (w, failed stage) = (w, failed stage)

module _ {W H : Type 0} (pg sq : Driver W H) where
  -- The deferred `closeStore`; its error is logged.
  unfoldable pub close_store : Stores H → W → W
  unfolding close_postgres close_sqlite
  close_store (postgres h) w = (close_postgres pg (some h) w).0
  close_store (sqlite h) w = (close_sqlite sq (some h) w).0

  module _ (read_file : String → Option String) (read_dir : Option (List Entry)) where
    unfoldable pub open_stores : Config → W → W × Opened (Stores H)
    unfolding is_postgres sqlite_path as_stores new_postgres new_sqlite
    open_stores c w =
        if is_postgres c.db_url
        then as_stores (λ h. postgres h) (new_postgres pg read_file read_dir c.db_url w)
        else as_stores (λ h. sqlite h) (new_sqlite sq (sqlite_path c.db_url) w)

    -- `assets` is whether `web.New` finds the static files, and `wait` what the group does until all
    -- parts have returned, with the first error.
    module _ {E : Type 0} (heap : Heap) (assets : Bool)
        (wait : Config → Stores H → Wiring → List Part → W → W × Option E) where
      unfoldable pub serve : Config → Stores H → W → W × Option (RunError E)
      unfolding parts wired close_store
      serve c st w = elim assets [
        | true ↦
            let (w', r) = wait c st (wired heap c) (parts c) w in
            (close_store st w', elim r [ none ↦ none | some e ↦ some (stopped e) ])
        | false ↦ (close_store st w, some no_server)
      ]

      unfoldable pub start : Config → W × Opened (Stores H) → W × Option (RunError E)
      unfolding serve
      start c (w, opened st) = serve c st w
      start c (w, failed stage) = (w, some (no_store stage))

      unfoldable pub launch : Config → Option ConfigError → W → W × Option (RunError E)
      unfolding open_stores start
      launch c (some e) w = (w, some (bad_config e))
      launch c none w = start c (open_stores c w)

      unfoldable pub run : List Flag → W → W × Option (RunError E)
      unfolding parse_flags validate launch
      run fs w = let c = parse_flags fs in launch c (validate c) w
