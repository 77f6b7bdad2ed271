-- ===== src/Chat/Status.antt =====
-- When the program exits with 0.
use chat_room.Prelude.{
  String, ◌≡◌, ◌≢◌, ◌↔◌, refl, ap, Bool, true, false, Option, none, some, List, [], ◌∷◌, map, arith,
  ◌==◌, string_eq, if◌then◌else◌,
}
use text.Mathlib.TextEquality.{eq_iff}
use chat_room.Hub.Clients.{Heap}
use chat_room.Config.{Config, ConfigError, validate}
use chat_room.Store.Startup.{Driver, Entry, Opened, opened, failed}
use chat_room.Chat.{
  debug_shutdown, stopped, debug_server, Flag, parse_flags, Stores, Part, parts, Wiring, wired,
  RunError, open_stores, serve, start, launch, run,
}
use chat_room.Chat.Exit.{
  Ending, ended, server_closed, broke, serve_error, Ends, part_error, AllNil, IsGroup, exit_code,
  wait, main,
}

abbrev pub IsOver : {E : Type 0} → Ending E → Type 0
IsOver (broke e) = ⊥
IsOver _ = Unit

-- The servers have been shut down without an error; the debug server counts if it has an address.
pub record IsQuiet {E : Type 0} (c : Config) (r : Ends E) : Type 0 where
  pub listened : IsOver r.listened
  pub shut_down : r.shut_down ≡ none
  pub debug_listened : c.debug_addr ≢ "" → IsOver r.debug_listened
  pub debug_shut_down : c.debug_addr ≢ "" → r.debug_shut_down ≡ none

over : {E : Type 0} (x : Ending E) → serve_error x ≡ none → IsOver x
unfolding serve_error
over ended e = tt
over server_closed e = tt
over (broke b) e = absurd cc

none_over : {E : Type 0} (x : Ending E) → IsOver x → serve_error x ≡ none
unfolding serve_error
none_over ended o = refl
none_over server_closed o = refl
none_over (broke b) o = absurd o

module _ {E : Type 0} (r : Ends E) where
  abbrev debug_parts : Bool → List Part
  debug_parts off = if off then [] else debug_server ∷ debug_shutdown ∷ []

  debug-IsOver :
      (off : Bool)
      → off ≡ false
      → AllNil (map (part_error r) (debug_parts off))
      → IsOver r.debug_listened × (r.debug_shut_down ≡ none)
  unfolding part_error
  debug-IsOver true e a = absurd cc
  debug-IsOver false e a = (over r.debug_listened a.0, a.1.0)

  debug_nil :
      (off : Bool)
      → (off ≡ false → IsOver r.debug_listened)
      → (off ≡ false → r.debug_shut_down ≡ none)
      → AllNil (map (part_error r) (debug_parts off))
  unfolding part_error
  debug_nil true l s = tt
  debug_nil false l s = (none_over r.debug_listened (l refl), (s refl, tt))

  IsQuiet-AllNil : (c : Config) → AllNil (map (part_error r) (parts c)) → IsQuiet c r
  unfolding parts part_error
  IsQuiet-AllNil c (_, (_, (l, (s, debug)))) =
      let on : c.debug_addr ≢ "" → (c.debug_addr == "") ≡ false =
        λ n. ground (arith, eq_iff c.debug_addr "", n) in
      record {
        listened = over r.listened l;
        shut_down = s;
        debug_listened = λ n. (debug-IsOver (c.debug_addr == "") (on n) debug).0;
        debug_shut_down = λ n. (debug-IsOver (c.debug_addr == "") (on n) debug).1;
      }

  AllNil-IsQuiet : (c : Config) → IsQuiet c r → AllNil (map (part_error r) (parts c))
  unfolding parts part_error
  AllNil-IsQuiet c q =
      let given : (c.debug_addr == "") ≡ false → c.debug_addr ≢ "" =
        λ e p. ground (arith, eq_iff c.debug_addr "", p, e) in
      (
        refl,
        (
          refl,
          (
            none_over r.listened q.listened,
            (
              q.shut_down,
              debug_nil (c.debug_addr == "") (λ e. q.debug_listened (given e))
                  (λ e. q.debug_shut_down (given e)),
            ),
          ),
        ),
      )

exit_zero : {E : Type 0} (r : Option (RunError E)) → exit_code r ≡ 0 → r ≡ none
unfolding exit_code
exit_zero none e = refl
exit_zero (some x) e = absurd cc

module _ {W H E : Type 0} (pg sq : Driver W H) (read_file : String → Option String)
    (read_dir : Option (List Entry)) (heap : Heap) (group : List (Option E) → Option E)
    (serving : Config → Stores H → Wiring → List Part → W → W × Ends E) where
  -- The flags are valid, the store opens, the static files are there, and the servers end quietly.
  pub record IsClean (assets : Bool) (c : Config) (w : W) : Type 0 where
    pub valid : validate c ≡ none
    pub stores : Stores H
    pub world : W
    pub opens : open_stores pg sq read_file read_dir c w ≡ (world, opened stores)
    pub found : assets ≡ true
    pub quiet : IsQuiet c (serving c stores (wired heap c) (parts c) world).1

  served : Option E → Option (RunError E)
  served r = elim r [ none ↦ none | some e ↦ some (stopped e) ]

  served-none : (r : Option E) → served r ≡ none → r ≡ none
  unfolding served
  served-none none e = refl
  served-none (some x) e = absurd cc

  module _ (law : IsGroup group) where
    serve-none :
        (assets : Bool) (c : Config) (st : Stores H) (w : W)
        → (serve pg sq read_file read_dir heap assets (wait group serving) c st w).1 ≡ none
        → (assets ≡ true) × IsQuiet c (serving c st (wired heap c) (parts c) w).1
    unfolding serve wait served
    serve-none true c st w e = (refl, IsQuiet-AllNil _ c (law.failing _ (served-none _ e)))
    serve-none false c st w e = absurd cc

    start-none :
        (assets : Bool) (c : Config) (w : W) (p : W × Opened (Stores H))
        → open_stores pg sq read_file read_dir c w ≡ p
        → validate c ≡ none
        → (start pg sq read_file read_dir heap assets (wait group serving) c p).1 ≡ none
        → IsClean assets c w
    unfolding start
    start-none assets c w (w', opened st) o v e =
        let (found, quiet) = serve-none assets c st w' e in
        record { valid = v; stores = st; world = w'; opens = o; found = found; quiet = quiet }
    start-none assets c w (w', failed stage) o v e = absurd cc

    launch-none :
        (assets : Bool) (c : Config) (o : Option ConfigError) (w : W)
        → validate c ≡ o
        → (launch pg sq read_file read_dir heap assets (wait group serving) c o w).1 ≡ none
        → IsClean assets c w
    unfolding launch
    launch-none assets c (some x) w v e = absurd cc
    launch-none assets c none w v e =
        start-none assets c w (open_stores pg sq read_file read_dir c w) refl v e

    clean_none :
        (assets : Bool) (fs : List Flag) (w : W)
        → IsClean assets (parse_flags fs) w
        → (run pg sq read_file read_dir heap assets (wait group serving) fs w).1 ≡ none
    unfolding run launch start serve wait served
    clean_none assets fs w k =
        rw (k.valid, k.opens, k.found)
          (ap served (law.clean _ (AllNil-IsQuiet _ (parse_flags fs) k.quiet)))

    -- Over any drivers of the databases, and a group of goroutines whose `Wait` returns nil exactly
    -- when they all have: the program exits with 0 if and only if its flags pass the validation, the
    -- store that they name opens, the static files are found, and after that the HTTP server, and the
    -- debug server if there is an address for it, end with nil or `ErrServerClosed`, and their
    -- shutdowns return no error.
    pub main-zero_iff :
        (assets : Bool) (fs : List Flag) (w : W)
        → ((main group serving pg sq read_file read_dir heap assets fs w).1 ≡ 0)
          ↔ IsClean assets (parse_flags fs) w
    unfolding main run
    main-zero_iff assets fs w = (
      λ e. launch-none assets (parse_flags fs) (validate (parse_flags fs)) w refl (exit_zero _ e),
      λ k. ap exit_code (clean_none assets fs w k),
    )
