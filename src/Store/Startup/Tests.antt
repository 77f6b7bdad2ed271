-- ===== src/Store/Startup/Tests.antt =====
-- A driver that counts its handles and keeps the statements that have run.
use chat_room.Prelude.{
  has_suffix, string_ltb, ℕ, String, ◌≡◌, refl, sym, ap, ◌∙◌, Bool, true, false, Option, none, some,
  List, [], ◌∷◌, ◌++◌, if◌then◌else◌, ◌==◌, string_eq,
}
use mathlib.Core.Option.{some_inj}
use chat_room.Store.Startup.{Driver, opened, failed, applying, Entry, new_postgres}
use chat_room.Store.Startup.Handles.{IsDriver, IsOpened}
use chat_room.Store.Startup.Migrations.{new_postgres-IsOpened, Migrations}

pub record World : Type 0 where
  pub handles : List ℕ
  pub ran : List String

abbrev tried : Bool → String → World → World × Bool
tried true stmt w = (w, false)
tried false stmt w = (record w { ran = w.ran ++ stmt ∷ [] }, true)

abbrev without_first : List ℕ → List ℕ
without_first [] = []
without_first (h ∷ hs) = hs

abbrev reached : Bool → World → World × Option ℕ
reached true w = (w, none)
reached false w = (record w { handles = 7 ∷ w.handles }, some 7)

-- Each handle is 7, the address "nowhere" cannot be reached, and the statement "bad" fails.
abbrev pub counting : Driver World ℕ
counting = record {
  connect = λ dsn w. reached (dsn == "nowhere") w;
  ping = λ h w. (w, true);
  exec = λ h stmt w. tried (stmt == "bad") stmt w;
  close = λ h w. (record w { handles = without_first w.handles }, true);
}

pub counting-IsDriver : IsDriver (λ w. w.handles) (λ w. w.ran) counting
counting-IsDriver = record {
  connected = λ dsn w w' h e. connected_of (dsn == "nowhere") w w' h e;
  not_connected = λ dsn w w' e. not_connected_of (dsn == "nowhere") w w' e;
  pinged = λ h w. (refl, refl);
  executed = λ h stmt w w' e. executed_of (stmt == "bad") stmt w w' e;
  not_executed = λ h stmt w w' e. not_executed_of (stmt == "bad") stmt w w' e;
  closed = λ h hs w e. (ap without_first e, refl);
}
  where
    connected_of :
        (b : Bool) (w w' : World) (h : ℕ)
        → reached b w ≡ (w', some h)
        → (w'.handles ≡ h ∷ w.handles) × (w'.ran ≡ w.ran)
    connected_of true w w' h e = absurd cc
    connected_of false w w' h e = (
      sym (ap (λ p. p.0.handles) e) ∙ ap (λ k. k ∷ w.handles) (some_inj.0 (ap (λ p. p.1) e)),
      sym (ap (λ p. p.0.ran) e),
    )

    not_connected_of :
        (b : Bool) (w w' : World)
        → reached b w ≡ (w', none)
        → (w'.handles ≡ w.handles) × (w'.ran ≡ w.ran)
    not_connected_of true w w' e = (sym (ap (λ p. p.0.handles) e), sym (ap (λ p. p.0.ran) e))
    not_connected_of false w w' e = absurd cc

    executed_of :
        (b : Bool) (stmt : String) (w w' : World)
        → tried b stmt w ≡ (w', true)
        → (w'.handles ≡ w.handles) × (w'.ran ≡ w.ran ++ stmt ∷ [])
    executed_of true stmt w w' e = absurd cc
    executed_of false stmt w w' e = (sym (ap (λ p. p.0.handles) e), sym (ap (λ p. p.0.ran) e))

    not_executed_of :
        (b : Bool) (stmt : String) (w w' : World)
        → tried b stmt w ≡ (w', false)
        → (w'.handles ≡ w.handles) × (w'.ran ≡ w.ran)
    not_executed_of true stmt w w' e = (sym (ap (λ p. p.0.handles) e), sym (ap (λ p. p.0.ran) e))
    not_executed_of false stmt w w' e = absurd cc

abbrev pub files : Option (List Entry)
files = some (
    record { name = "0002_users.sql"; is_dir = false }
    ∷ record { name = "readme.md"; is_dir = false }
    ∷ record { name = "0001_messages.sql"; is_dir = false }
    ∷ record { name = "old.sql"; is_dir = true }
    ∷ [])

abbrev pub read : String → Option String
read name = if name == "0001_messages.sql" then some "CREATE messages" else some "CREATE users"

abbrev nothing_open : World
nothing_open = record { handles = []; ran = [] }

new_postgres-IsOpened_example :
    IsOpened
      (λ (w : World). w.handles)
      (λ w. w.ran)
      (Migrations read files)
      nothing_open
      (new_postgres counting read files "postgres://db" nothing_open)
new_postgres-IsOpened_example =
    new_postgres-IsOpened (λ w. w.handles) (λ w. w.ran) counting counting-IsDriver read files
      "postgres://db" nothing_open

new_postgres_test :
    new_postgres counting read files "postgres://db" nothing_open
    ≡ (record { handles = 7 ∷ []; ran = "CREATE messages" ∷ "CREATE users" ∷ [] }, opened 7)
unfolding new_postgres has_suffix string_ltb
new_postgres_test = refl

bad_migration_test :
    new_postgres counting (λ name. some "bad") files "postgres://db" nothing_open
    ≡ (nothing_open, failed (applying "0001_messages.sql"))
unfolding new_postgres has_suffix string_ltb
bad_migration_test = refl
