-- ===== src/Chat/Handles.antt =====
-- The program closes the store that it opened, however it ends.
use chat_room.Prelude.{
  String, ◌≡◌, refl, sym, ap, ◌∙◌, Bool, true, false, Option, none, some, List, ◌∷◌, if_holds,
}
use chat_room.Hub.Clients.{Heap}
use chat_room.Config.{Config, validate}
use chat_room.Store.Startup.{Driver, Opened, opened, failed, Entry}
use chat_room.Store.Startup.Handles.{IsDriver, new_sqlite-IsOpened, IsOpened}
use chat_room.Store.Startup.Migrations.{new_postgres-IsOpened}
use chat_room.Chat.{
  ConfigError, launch, Flag, parse_flags, is_postgres, sqlite_path, Stores, postgres, sqlite, Part,
  parts, Wiring, wired, as_stores, open_stores, close_store, serve, start, run,
}

module _ {W H E : Type 0} (handles : W → List H) (pg_ran sq_ran : W → List String)
    (pg sq : Driver W H) (pg_law : IsDriver handles pg_ran pg) (sq_law : IsDriver handles sq_ran sq)
    (read_file : String → Option String) (read_dir : Option (List Entry)) (heap : Heap)
    (assets : Bool) (wait : Config → Stores H → Wiring → List Part → W → W × Option E) where
  handle_of : Stores H → H
  handle_of (postgres h) = h
  handle_of (sqlite h) = h

  -- One handle more, or none.
  Holds : W → W × Opened (Stores H) → Type 0
  Holds w (w', opened st) = handles w' ≡ handle_of st ∷ handles w
  Holds w (w', failed stage) = handles w' ≡ handles w

  as_stores-Holds :
      (kind : H → Stores H) (ran : W → List String) (Schema : List String → Type 0) (w : W)
      (p : W × Opened H)
      → ((h : H) → handle_of (kind h) ≡ h)
      → IsOpened handles ran Schema w p
      → Holds w (as_stores kind p)
  unfolding as_stores Holds
  as_stores-Holds kind ran Schema w (w', opened h) same (held, rest) =
      held ∙ ap (λ g. g ∷ handles w) (sym (same h))
  as_stores-Holds kind ran Schema w (w', failed stage) same kept = kept

  open_stores-Holds : (c : Config) (w : W) → Holds w (open_stores pg sq read_file read_dir c w)
  unfolding open_stores handle_of
  open_stores-Holds c w =
      if_holds (Holds w) (is_postgres c.db_url)
        (as_stores-Holds (λ h. postgres h) pg_ran _ w _ (λ h. refl)
          (new_postgres-IsOpened handles pg_ran pg pg_law read_file read_dir c.db_url w))
        (as_stores-Holds (λ h. sqlite h) sq_ran _ w _ (λ h. refl)
          (new_sqlite-IsOpened handles sq_ran sq sq_law (sqlite_path c.db_url) w))

  close_store-handles :
      (st : Stores H) (hs : List H) (w : W)
      → handles w ≡ handle_of st ∷ hs
      → handles (close_store pg sq st w) ≡ hs
  unfolding close_store handle_of
  close_store-handles (postgres h) hs w held = (pg_law.closed h hs w held).0
  close_store-handles (sqlite h) hs w held = (sq_law.closed h hs w held).0

  Quiet : Type 0
  Quiet =
      (c : Config) (st : Stores H) (k : Wiring) (ps : List Part) (w : W)
      → handles (wait c st k ps w).0 ≡ handles w

  serve-handles :
      Quiet
      → (c : Config) (st : Stores H) (hs : List H) (w : W) → handles w ≡ handle_of st ∷ hs
      → handles (serve pg sq read_file read_dir heap assets wait c st w).0 ≡ hs
  unfolding serve Quiet
  serve-handles quiet c st hs w held =
      elim assets as (λ b. handles (serve pg sq read_file read_dir heap b wait c st w).0 ≡ hs) [
        | true ↦
            close_store-handles st hs (wait c st (wired heap c) (parts c) w).0
              (quiet c st (wired heap c) (parts c) w ∙ held)
        | false ↦ close_store-handles st hs w held
      ]

  start-handles :
      Quiet
      → (c : Config) (w : W) (p : W × Opened (Stores H)) → Holds w p
      → handles (start pg sq read_file read_dir heap assets wait c p).0 ≡ handles w
  unfolding start Holds
  start-handles quiet c w (w', opened st) held = serve-handles quiet c st (handles w) w' held
  start-handles quiet c w (w', failed stage) kept = kept

  launch-handles :
      Quiet
      → (c : Config) (o : Option ConfigError) (w : W)
      → handles (launch pg sq read_file read_dir heap assets wait c o w).0 ≡ handles w
  unfolding launch
  launch-handles quiet c (some e) w = refl
  launch-handles quiet c none w =
      start-handles quiet c w (open_stores pg sq read_file read_dir c w) (open_stores-Holds c w)

  -- Over drivers that do what their documentation says, and a group of goroutines that leaves the
  -- handles as they are: however `run` ends, with bad flags, at any stage of opening the store,
  -- without the static files or after serving, exactly the handles from before are open.
  pub run-handles :
      ((c : Config) (st : Stores H) (k : Wiring) (ps : List Part) (w : W)
        → handles (wait c st k ps w).0 ≡ handles w)
      → (fs : List Flag) (w : W)
      → handles (run pg sq read_file read_dir heap assets wait fs w).0 ≡ handles w
  unfolding run Quiet
  run-handles quiet fs w = launch-handles quiet (parse_flags fs) (validate (parse_flags fs)) w
