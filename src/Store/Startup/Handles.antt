-- ===== src/Store/Startup/Handles.antt =====
-- Opening a store leaks no handle, and a store that opens has its schema.
use chat_room.Prelude.{
  String, ◌≡◌, refl, sym, ap, ◌∙◌, Bool, true, false, Option, none, some, List, [], ◌∷◌, ◌++◌,
}
use mathlib.Core.List.{append-nil, append_assoc}
use chat_room.Store.Startup.{
  reading, applying, applying_schema, Driver, Stage, Opened, opened, failed, pinging, sqlite_schema,
  sqlite_dsn, close_on, after_ping, after_open, apply_schema, new_sqlite, apply_files,
}

-- What a driver's documentation says of its handles, and of the statements that have run.
pub record IsDriver {W H : Type 0} (handles : W → List H) (ran : W → List String)
    (driver : Driver W H) : Type 0 where
  pub connected :
      (dsn : String) (w w' : W) (h : H)
      → driver.connect dsn w ≡ (w', some h)
      → (handles w' ≡ h ∷ handles w) × (ran w' ≡ ran w)
  pub not_connected :
      (dsn : String) (w w' : W)
      → driver.connect dsn w ≡ (w', none)
      → (handles w' ≡ handles w) × (ran w' ≡ ran w)
  pub pinged :
      (h : H) (w : W)
      → (handles (driver.ping h w).0 ≡ handles w) × (ran (driver.ping h w).0 ≡ ran w)
  pub executed :
      (h : H) (stmt : String) (w w' : W)
      → driver.exec h stmt w ≡ (w', true)
      → (handles w' ≡ handles w) × (ran w' ≡ ran w ++ stmt ∷ [])
  pub not_executed :
      (h : H) (stmt : String) (w w' : W)
      → driver.exec h stmt w ≡ (w', false)
      → (handles w' ≡ handles w) × (ran w' ≡ ran w)
  pub closed :
      (h : H) (hs : List H) (w : W)
      → handles w ≡ h ∷ hs
      → (handles (driver.close h w).0 ≡ hs) × (ran (driver.close h w).0 ≡ ran w)

-- The texts of the files, if each can be read.
abbrev pub joined : Option String → Option (List String) → Option (List String)
joined (some stmt) (some stmts) = some (stmt ∷ stmts)
joined _ _ = none

abbrev pub contents : (String → Option String) → List String → Option (List String)
contents read_file [] = some []
contents read_file (name ∷ names) = joined (read_file name) (contents read_file names)

module _ {W H : Type 0} (handles : W → List H) (ran : W → List String) where
  -- An opened store holds one handle more, and what `Schema` admits has run; a failure holds none.
  abbrev pub IsOpened : (Schema : List String → Type 0) → W → W × Opened H → Type 0
  IsOpened Schema w (w', opened h) =
      (handles w' ≡ h ∷ handles w)
      × ((stmts : List String) × Schema stmts × (ran w' ≡ ran w ++ stmts))
  IsOpened Schema w (w', failed stage) = handles w' ≡ handles w

  abbrev pub IsApplied : (Schema : List String → Type 0) → W → W × Option Stage → Type 0
  IsApplied Schema w (w', none) =
      (handles w' ≡ handles w) × ((stmts : List String) × Schema stmts × (ran w' ≡ ran w ++ stmts))
  IsApplied Schema w (w', some stage) = handles w' ≡ handles w

  pub IsApplied-map :
      (Schema Schema' : List String → Type 0) (w : W) (r : W × Option Stage)
      → ((stmts : List String) → Schema stmts → Schema' stmts)
      → IsApplied Schema w r
      → IsApplied Schema' w r
  IsApplied-map Schema Schema' w (w', none) f (same, (stmts, s, all)) =
      (same, (stmts, f stmts s, all))
  IsApplied-map Schema Schema' w (w', some stage) f same = same

  module _ (driver : Driver W H) (law : IsDriver handles ran driver) where
    -- One statement more, before those that follow.
    IsApplied-after :
        (Schema Schema' : List String → Type 0) (stmt : String) (w w' : W) (r : W × Option Stage)
        → ((stmts : List String) → Schema' stmts → Schema (stmt ∷ stmts))
        → (handles w' ≡ handles w) × (ran w' ≡ ran w ++ stmt ∷ [])
        → IsApplied Schema' w' r
        → IsApplied Schema w r
    IsApplied-after Schema Schema' stmt w w' (w'', none) grow (same, more)
          (same', (stmts, s, all)) =
        (
          same' ∙ same,
          (
            stmt ∷ stmts,
            grow stmts s,
            all ∙ ap (λ l. l ++ stmts) more ∙ append_assoc (ran w) (stmt ∷ []) stmts,
          ),
        )
    IsApplied-after Schema Schema' stmt w w' (w'', some stage) grow (same, more) same' =
        same' ∙ same

    -- A statement runs, and the rest if it succeeds.
    exec-IsApplied :
        (Schema Schema' : List String → Type 0) (stmt : String) (stage : Stage) (h : H) (w : W)
        (next : W → W × Option Stage)
        → ((stmts : List String) → Schema' stmts → Schema (stmt ∷ stmts))
        → ((w : W) → IsApplied Schema' w (next w))
        → (p : W × Bool) → driver.exec h stmt w ≡ p
        → IsApplied Schema w
            (let (w', done) = p in elim done [ true ↦ next w' | false ↦ (w', some stage) ])
    exec-IsApplied Schema Schema' stmt stage h w next grow rest (w', true) e =
        IsApplied-after Schema Schema' stmt w w' (next w') grow (law.executed h stmt w w' e)
          (rest w')
    exec-IsApplied Schema Schema' stmt stage h w next grow rest (w', false) e =
        (law.not_executed h stmt w w' e).0

    apply_schema-IsApplied :
        (stmts : List String) (h : H) (w : W)
        → IsApplied (λ l. l ≡ stmts) w (apply_schema driver stmts h w)
    unfolding apply_schema
    apply_schema-IsApplied [] h w = (refl, ([], refl, sym (append-nil (ran w))))
    apply_schema-IsApplied (s ∷ ss) h w =
        exec-IsApplied (λ l. l ≡ s ∷ ss) (λ l. l ≡ ss) s applying_schema h w
          (apply_schema driver ss h) (λ stmts e. ap (λ l. s ∷ l) e) (apply_schema-IsApplied ss h)
          (driver.exec h s w) refl

    -- A file is read and its text runs, and then those that follow.
    file-IsApplied :
        (name : String) (h : H) (w : W) (rest : Option (List String)) (next : W → W × Option Stage)
        → ((w : W) → IsApplied (λ l. rest ≡ some l) w (next w))
        → (o : Option String)
        → IsApplied
            (λ l. joined o rest ≡ some l)
            w
            (elim o [
              | none ↦ (w, some (reading name))
              | some stmt ↦
                  let (w', done) = driver.exec h stmt w in
                  elim done [ true ↦ next w' | false ↦ (w', some (applying name)) ]
            ])
    file-IsApplied name h w rest next applied none = refl
    file-IsApplied name h w rest next applied (some stmt) =
        exec-IsApplied (λ l. joined (some stmt) rest ≡ some l) (λ l. rest ≡ some l) stmt
          (applying name) h w next (λ stmts s. ap (joined (some stmt)) s) applied
          (driver.exec h stmt w) refl

    pub apply_files-IsApplied :
        (read_file : String → Option String) (names : List String) (h : H) (w : W)
        → IsApplied
            (λ l. contents read_file names ≡ some l)
            w
            (apply_files driver read_file names h w)
    unfolding apply_files
    apply_files-IsApplied read_file [] h w = (refl, ([], refl, sym (append-nil (ran w))))
    apply_files-IsApplied read_file (name ∷ names) h w =
        file-IsApplied name h w (contents read_file names) (apply_files driver read_file names h)
          (apply_files-IsApplied read_file names h) (read_file name)

    close_on-IsOpened :
        (Schema : List String → Type 0) (h : H) (w0 w : W) (r : W × Option Stage)
        → (handles w ≡ h ∷ handles w0) × (ran w ≡ ran w0)
        → IsApplied Schema w r
        → IsOpened Schema w0 (close_on driver h r)
    unfolding close_on
    close_on-IsOpened Schema h w0 w (w', none) (held, same) (kept, (stmts, s, all)) =
        (kept ∙ held, (stmts, s, all ∙ ap (λ l. l ++ stmts) same))
    close_on-IsOpened Schema h w0 w (w', some stage) (held, same) kept =
        (law.closed h (handles w0) w' (kept ∙ held)).0

    pub after_open-IsOpened :
        (Schema : List String → Type 0) (apply : H → W → W × Option Stage) (dsn : String) (w : W)
        (p : W × Option H)
        → ((h : H) (w : W) → IsApplied Schema w (apply h w))
        → driver.connect dsn w ≡ p
        → IsOpened Schema w (after_open driver apply p)
    unfolding after_open after_ping
    after_open-IsOpened Schema apply dsn w (w1, none) applied e = (law.not_connected dsn w w1 e).0
    after_open-IsOpened Schema apply dsn w (w1, some h) applied e =
        let (held, same) = law.connected dsn w w1 h e in
        let (kept, quiet) = law.pinged h w1 in
        answered (driver.ping h w1) (kept ∙ held, quiet ∙ same)
      where
        answered :
            (p : W × Bool)
            → (handles p.0 ≡ h ∷ handles w) × (ran p.0 ≡ ran w)
            → IsOpened Schema w (after_ping driver h (apply h) p)
        answered (w2, true) held = close_on-IsOpened Schema h w w2 (apply h w2) held (applied h w2)
        answered (w2, false) held = close_on-IsOpened Schema h w w2 (w2, some pinging) held refl

-- Over a driver that does what its documentation says: a SQLite store that opens holds one handle
-- more than before, and the statements of its schema have run in order; one that does not, at
-- whatever stage, leaves no handle open.
pub new_sqlite-IsOpened :
    {W H : Type 0} (handles : W → List H) (ran : W → List String) (driver : Driver W H)
    → IsDriver handles ran driver
    → (path : String) (w : W)
    → IsOpened handles ran (λ stmts. stmts ≡ sqlite_schema) w (new_sqlite driver path w)
unfolding new_sqlite
new_sqlite-IsOpened handles ran driver law path w =
    after_open-IsOpened handles ran driver law (λ stmts. stmts ≡ sqlite_schema)
      (apply_schema driver sqlite_schema) (sqlite_dsn path) w (driver.connect (sqlite_dsn path) w)
      (apply_schema-IsApplied handles ran driver law sqlite_schema) refl
