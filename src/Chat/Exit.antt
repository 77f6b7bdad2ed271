-- ===== src/Chat/Exit.antt =====
-- How the program ends: `main` of cmd/chat/main.go, with what each goroutine of the group returns, and
-- `Serve` and `Shutdown` of internal/web/server.go. The group of the package errgroup is a parameter.
use chat_room.Prelude.{◌≡◌, ℕ, String, Bool, Option, none, some, List, [], ◌∷◌, map}
use chat_room.Hub.Clients.{Heap}
use chat_room.Config.{Config}
use chat_room.Store.Startup.{Driver, Entry}
use chat_room.Chat.{
  Flag, Stores, Part, hub, persister, server, shutdown, debug_server, debug_shutdown, Wiring,
  RunError, run,
}

-- What `ListenAndServe` returns: nil, `ErrServerClosed`, or another error.
pub data Ending (E : Type 0) : Type 0 where
  ended server_closed : Ending E
  broke : E → Ending E

-- `Serve`, and the same test in `startDebugServer`.
unfoldable pub serve_error : {E : Type 0} → Ending E → Option E
serve_error ended = none
serve_error server_closed = none
serve_error (broke e) = some e

-- How the calls of the HTTP servers end.
pub record Ends (E : Type 0) : Type 0 where
  pub listened : Ending E
  pub shut_down : Option E
  pub debug_listened : Ending E
  pub debug_shut_down : Option E

-- What the goroutines return.
unfoldable pub part_error : {E : Type 0} → Ends E → Part → Option E
unfolding serve_error
part_error r hub = none
part_error r persister = none
part_error r server = serve_error r.listened
part_error r shutdown = r.shut_down
part_error r debug_server = serve_error r.debug_listened
part_error r debug_shutdown = r.debug_shut_down

-- Each result in turn is nil.
abbrev pub AllNil : {E : Type 0} → List (Option E) → Type 0
AllNil [] = Unit
AllNil (r ∷ rs) = (r ≡ none) × AllNil rs

-- `Wait` returns nil exactly when all goroutines have.
pub record IsGroup {E : Type 0} (group : List (Option E) → Option E) : Type 0 where
  pub clean : (rs : List (Option E)) → AllNil rs → group rs ≡ none
  pub failing : (rs : List (Option E)) → group rs ≡ none → AllNil rs

-- `os.Exit(1)` at an error.
unfoldable pub exit_code : {E : Type 0} → Option (RunError E) → ℕ
exit_code none = 0
exit_code (some e) = 1

module _ {W H E : Type 0} (group : List (Option E) → Option E)
    (serving : Config → Stores H → Wiring → List Part → W → W × Ends E) where
  -- `g.Wait()`, after the goroutines have run
  unfoldable pub wait : Config → Stores H → Wiring → List Part → W → W × Option E
  unfolding part_error
  wait c st k ps w = let (w', r) = serving c st k ps w in (w', group (map (part_error r) ps))

  unfoldable pub main :
      Driver W H
      → Driver W H
      → (String → Option String)
      → Option (List Entry)
      → Heap
      → (assets : Bool) → List Flag
      → W
      → W × ℕ
  unfolding wait exit_code
  main pg sq read_file read_dir heap assets fs w =
      let (w', r) = run pg sq read_file read_dir heap assets wait fs w in (w', exit_code r)
