-- ===== src/Store/Startup/Migrations.antt =====
-- Opening a Postgres store runs the migrations.
use chat_room.Prelude.{
  String, ◌≡◌, refl, Option, none, some, List, Perm, map, ◌∷◌, [], ap, true, Bool-cases, inl, inr,
  not, ◌&&◌, has_suffix,
}
use mathlib.Core.Bool.{Bool-discrete}
use mathlib.Core.List.{filter}
use mathlib.Core.Path.{subst}
use chat_room.Store.Startup.{Driver, Entry, sql_names, sorted, apply_files, migrate, new_postgres}
use chat_room.Store.Startup.Names.{IsSorted, sorted-Perm, sorted-IsSorted}
use chat_room.Store.Startup.Handles.{
  IsDriver, IsOpened, IsApplied, IsApplied-map, contents, apply_files-IsApplied,
  after_open-IsOpened,
}

-- The names of the entries that are files and end in `.sql`.
abbrev pub migrations : List Entry → List String
migrations entries =
    map (λ (e : Entry). e.name)
      (filter (λ (e : Entry). Bool-discrete (not e.is_dir && has_suffix e.name ".sql") true)
        entries)

sql_names-migrations : (entries : List Entry) → sql_names entries ≡ migrations entries
unfolding sql_names
sql_names-migrations [] = refl
sql_names-migrations (e ∷ es) = elim (Bool-cases (not e.is_dir && has_suffix e.name ".sql")) [
  | inl ends ↦ rw ends (ap (λ x. e.name ∷ x) (sql_names-migrations es))
  | inr other ↦ rw other (sql_names-migrations es)
]

-- The texts of the .sql files, each file once, in ascending order of their names.
abbrev pub Migrations :
    (String → Option String) → Option (List Entry) → (stmts : List String) → Type 0
Migrations read_file read_dir stmts =
    (entries : List Entry) × (names : List String) × (read_dir ≡ some entries)
    × Perm names (migrations entries)
    × IsSorted names
    × (contents read_file names ≡ some stmts)

-- Over a driver that does what its documentation says, a Postgres store that opens holds one handle
-- more than before, and the texts of exactly the .sql files of the directory have run, in ascending
-- order of their names; one that does not open, at whatever stage, leaves no handle open.
pub new_postgres-IsOpened :
    {W H : Type 0} (handles : W → List H) (ran : W → List String) (driver : Driver W H)
    → IsDriver handles ran driver
    → (read_file : String → Option String) (read_dir : Option (List Entry)) (dsn : String) (w : W)
    → IsOpened handles ran
        (Migrations read_file read_dir)
        w
        (new_postgres driver read_file read_dir dsn w)
unfolding new_postgres migrate
new_postgres-IsOpened {W} {H} handles ran driver law read_file read_dir dsn w =
    after_open-IsOpened handles ran driver law (Migrations read_file read_dir)
      (migrate driver read_file read_dir) dsn w (driver.connect dsn w) (migrated read_dir) refl
  where
    migrated :
        (read_dir : Option (List Entry)) (h : H) (w : W)
        → IsApplied handles ran
            (Migrations read_file read_dir)
            w
            (migrate driver read_file read_dir h w)
    migrated none h w = refl
    migrated (some entries) h w =
        IsApplied-map handles ran (λ l. contents read_file (sorted (sql_names entries)) ≡ some l)
          (Migrations read_file (some entries)) w
          (apply_files driver read_file (sorted (sql_names entries)) h w)
          (λ stmts s. (
            entries,
            sorted (sql_names entries),
            refl,
            subst (Perm (sorted (sql_names entries))) (sql_names-migrations entries)
                (sorted-Perm (sql_names entries)),
            sorted-IsSorted (sql_names entries),
            s,
          ))
          (apply_files-IsApplied handles ran driver law read_file (sorted (sql_names entries)) h w)
