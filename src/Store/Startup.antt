-- ===== src/Store/Startup.antt =====
-- internal/store/sqlite.go and internal/store/postgres.go: how a store is opened and closed. The
-- database driver is a parameter, over the state of the world.
pub mod Names
pub mod Handles
pub mod Migrations
pub mod Tests
use Prim.Native.String.{◌++◌ as text_append}
use chat_room.Prelude.{
  String, Bool, true, false, ◌&&◌, not, Option, none, some, List, [], ◌∷◌, if◌then◌else◌,
  has_suffix, string_ltb,
}

-- What a driver does with a handle; `false` is an error.
pub record Driver (W H : Type 0) : Type 0 where
  pub connect : String → W → W × Option H
  pub ping : H → W → W × Bool
  pub exec : H → String → W → W × Bool
  pub close : H → W → W × Bool

-- Where opening a store has failed.
pub data Stage : Type 0 where
  opening pinging applying_schema listing : Stage
  reading applying : String → Stage

pub data Opened (H : Type 0) : Type 0 where
  opened : H → Opened H
  failed : Stage → Opened H

-- An entry of the embedded directory.
pub record Entry : Type 0 where
  pub name : String
  pub is_dir : Bool

unfoldable pub sql_names : List Entry → List String
sql_names [] = []
sql_names (e ∷ es) =
    let rest = sql_names es in
    if not e.is_dir && has_suffix e.name ".sql" then e.name ∷ rest else rest

-- `slices.Sort`, which gives the one ascending order of the texts.
abbrev pub put : String → List String → List String
put s [] = s ∷ []
put s (t ∷ ts) = let rest = put s ts in if string_ltb t s then t ∷ rest else s ∷ t ∷ ts

unfoldable pub sorted : List String → List String
sorted [] = []
sorted (s ∷ ss) = put s (sorted ss)

abbrev pub sqlite_dsn : (path : String) → String
sqlite_dsn path = text_append "file:" (
    text_append path
      "?_pragma=busy_timeout(5000)&_pragma=journal_mode(WAL)&_pragma=foreign_keys(1)")

-- The statements of `sqliteSchema`.
abbrev pub sqlite_schema : List String
sqlite_schema =
    "CREATE TABLE IF NOT EXISTS messages (\n\t\tid          INTEGER PRIMARY KEY AUTOINCREMENT,\n\t\troom        TEXT    NOT NULL,\n\t\tsender_id   TEXT    NOT NULL,\n\t\tsender_name TEXT    NOT NULL,\n\t\tcontent     TEXT    NOT NULL,\n\t\tcreated_at  INTEGER NOT NULL\n\t)"
    ∷ "CREATE INDEX IF NOT EXISTS idx_messages_room_created_at ON messages (room, created_at DESC)"
    ∷ "CREATE TABLE IF NOT EXISTS users (\n\t\tid            INTEGER PRIMARY KEY AUTOINCREMENT,\n\t\tusername      TEXT    NOT NULL UNIQUE,\n\t\tpassword_hash TEXT    NOT NULL,\n\t\tdisplay_name  TEXT    NOT NULL,\n\t\tcreated_at    INTEGER NOT NULL\n\t)"
    ∷ "CREATE TABLE IF NOT EXISTS sessions (\n\t\ttoken_hash TEXT    PRIMARY KEY,\n\t\tuser_id    INTEGER NOT NULL REFERENCES users (id) ON DELETE CASCADE,\n\t\tcreated_at INTEGER NOT NULL,\n\t\texpires_at INTEGER NOT NULL\n\t)"
    ∷ "CREATE INDEX IF NOT EXISTS idx_sessions_expires_at ON sessions (expires_at)" ∷ []

module _ {W H : Type 0} (driver : Driver W H) where
  -- A failure closes what has been opened.
  unfoldable pub close_on : H → W × Option Stage → W × Opened H
  close_on h (w, none) = (w, opened h)
  close_on h (w, some stage) = ((driver.close h w).0, failed stage)

  -- The handle is used only once it is there, and only if it answers.
  unfoldable pub after_ping : H → (W → W × Option Stage) → W × Bool → W × Opened H
  unfolding close_on
  after_ping h apply (w, true) = close_on h (apply w)
  after_ping h apply (w, false) = close_on h (w, some pinging)

  unfoldable pub after_open : (H → W → W × Option Stage) → W × Option H → W × Opened H
  unfolding after_ping
  after_open apply (w, none) = (w, failed opening)
  after_open apply (w, some h) = after_ping h (apply h) (driver.ping h w)

  -- The statements in order, up to the first that fails.
  unfoldable pub apply_schema : List String → H → W → W × Option Stage
  apply_schema [] h w = (w, none)
  apply_schema (s ∷ ss) h w =
      let (w', done) = driver.exec h s w in
      elim done [ true ↦ apply_schema ss h w' | false ↦ (w', some applying_schema) ]

  -- `NewSQLite`; the path becomes part of the driver's URI.
  unfoldable pub new_sqlite : (path : String) → W → W × Opened H
  unfolding after_open apply_schema
  new_sqlite path w = after_open (apply_schema sqlite_schema) (driver.connect (sqlite_dsn path) w)

  module _ (read_file : String → Option String) where
    unfoldable pub apply_files : List String → H → W → W × Option Stage
    apply_files [] h w = (w, none)
    apply_files (name ∷ names) h w = elim (read_file name) [
      | none ↦ (w, some (reading name))
      | some stmt ↦
          let (w', done) = driver.exec h stmt w in
          elim done [ true ↦ apply_files names h w' | false ↦ (w', some (applying name)) ]
    ]

    unfoldable pub migrate : Option (List Entry) → H → W → W × Option Stage
    unfolding sql_names sorted apply_files
    migrate read_dir h w = elim read_dir [
      | none ↦ (w, some listing)
      | some entries ↦ apply_files (sorted (sql_names entries)) h w
    ]

    -- `NewPostgres`
    unfoldable pub new_postgres : Option (List Entry) → (dsn : String) → W → W × Opened H
    unfolding after_open migrate
    new_postgres read_dir dsn w = after_open (migrate read_dir) (driver.connect dsn w)

  -- `Close` of `SQLite` clears the handle and returns the driver's error.
  unfoldable pub close_sqlite : Option H → W → W × Option H × Bool
  close_sqlite none w = (w, none, true)
  close_sqlite (some h) w = let (w', done) = driver.close h w in (w', none, done)

  -- `Close` of `Postgres`; the pool's `Close` returns nothing.
  unfoldable pub close_postgres : Option H → W → W × Option H × Bool
  close_postgres none w = (w, none, true)
  close_postgres (some h) w = ((driver.close h w).0, none, true)
