-- ===== src/Auth/Database.antt =====
-- The tables of accounts and sessions, and the statements that internal/auth/sqlite.go and
-- internal/auth/postgres.go run on them. The engine behind the statements is a parameter.
pub mod Lookup
pub mod Contract
pub mod Tests
use chat_room.Prelude.{
  ℕ, String, ◌≡◌, Bool, true, false, Option, none, some, List, [], ◌∷◌, ◌++◌, map, Distinct,
  if◌then◌else◌, ◌==◌, nat_eq, string_eq, lookup, drop_key,
}
use chat_room.Auth.{User, invalid_credentials, no_session, store_failed, Result, ok, err}

-- The columns that the queries read, beside the username and the token's hash, which are the keys.
pub record Account : Type 0 where
  pub id : ℕ
  pub password_hash : String
  pub display_name : String

pub record Session (T : Type 0) : Type 0 where
  pub user_id : ℕ
  pub expires_at : T

pub record Tables (T : Type 0) : Type 0 where
  pub users : List (String × Account)
  pub sessions : List (String × Session T)

-- A driver's error may carry the engine's code.
pub data Executed (C A : Type 0) : Type 0 where
  done : A → Executed C A
  failed : Option C → Executed C A

pub data Fetched (A : Type 0) : Type 0 where
  row : A → Fetched A
  no_rows : Fetched A
  broken : Fetched A

-- One operation for each statement, over a database state; `K` is what an insert tells of the new id.
pub record Engine (D C T K : Type 0) : Type 0 where
  pub tables : D → Tables T
  pub insert_user : String → String → String → D → D × Executed C K
  pub select_user : String → D → Fetched (User × String)
  pub insert_session : String → ℕ → T → D → D × Executed C (Unit {0})
  pub select_session : String → T → D → Fetched User
  pub delete_session : String → D → D × Executed C (Unit {0})

-- What the stores make of a query's answer, and of a statement's.
unfoldable pub found_credentials : Fetched (User × String) → Result (User × String)
found_credentials (row (user, hash)) = ok (user, hash)
found_credentials no_rows = err invalid_credentials
found_credentials broken = err store_failed

unfoldable pub found_session : Fetched User → Result User
found_session (row user) = ok user
found_session no_rows = err no_session
found_session broken = err store_failed

unfoldable pub executed : {C : Type 0} → Executed C (Unit {0}) → Result (Unit {0})
executed (done _) = ok tt
executed (failed code) = err store_failed

abbrev pub fetched : {A : Type 0} → Option A → Fetched A
fetched none = no_rows
fetched (some a) = row a

-- The user of an account, with the hash of its password.
abbrev pub user_of : String → Option Account → Option (User × String)
user_of username none = none
user_of username (some a) =
    some (record { id = a.id; username = username; display_name = a.display_name }, a.password_hash)

abbrev pub find_id : ℕ → List (String × Account) → Option User
find_id id [] = none
find_id id ((username, a) ∷ m) =
    let rest = find_id id m in
    if a.id == id
    then some (record { id = a.id; username = username; display_name = a.display_name })
    else rest

abbrev pub is_present : {A : Type 0} → Option A → Bool
is_present none = false
is_present (some a) = true

-- The session joined with its user, if it expires after `now`.
abbrev pub joined :
    {T : Type 0} → (T → T → Bool) → T → Option (Session T) → List (String × Account) → Option User
joined later now none users = none
joined later now (some s) users = if later s.expires_at now then find_id s.user_id users else none

abbrev pub ids : List (String × Account) → List ℕ
ids [] = []
ids ((username, a) ∷ m) = a.id ∷ ids m

-- What the statements do, by the documentation of SQL, the constraints of the schema and a database
-- that answers: `later` orders the column of the expiry, `unique` is the code of a violated
-- constraint, and `known` the answer to an insert whose id can be read.
pub record IsSql {D C T K : Type 0} (later : T → T → Bool) (unique : C) (known : ℕ → K)
    (e : Engine D C T K) : Type 0 where
  -- `id` is the primary key.
  pub primary : (d : D) → Distinct (ids (e.tables d).users)
  -- A new row stands behind the others; `username` is unique.
  pub users_added :
      (username hash display_name : String) (id : ℕ) (d d' : D)
      → e.insert_user username hash display_name d ≡ (d', done (known id))
      → (lookup username (e.tables d).users ≡ none)
        × (e.tables d' ≡ record (e.tables d) {
          users =
              (e.tables d).users
              ++ (username, record { id = id; password_hash = hash; display_name = display_name })
                ∷ [];
        })
  -- The rows stay where it is violated; the state around them need not, such as a sequence of ids.
  pub users_kept :
      (username hash display_name : String) (d : D) (a : Account)
      → lookup username (e.tables d).users ≡ some a
      → (d' : D) × (e.insert_user username hash display_name d ≡ (d', failed (some unique)))
        × (e.tables d' ≡ e.tables d)
  pub users_read :
      (username : String) (d : D)
      → e.select_user username d ≡ fetched (user_of username (lookup username (e.tables d).users))
  -- `token_hash` is the primary key.
  pub sessions_added :
      (token_hash : String) (user_id : ℕ) (expires_at : T) (d d' : D)
      → e.insert_session token_hash user_id expires_at d ≡ (d', done tt)
      → (lookup token_hash (e.tables d).sessions ≡ none)
        × (e.tables d' ≡ record (e.tables d) {
          sessions =
              (e.tables d).sessions
              ++ (token_hash, record { user_id = user_id; expires_at = expires_at }) ∷ [];
        })
  pub sessions_read :
      (token_hash : String) (now : T) (d : D)
      → e.select_session token_hash now d
        ≡ fetched (joined later now (lookup token_hash (e.tables d).sessions) (e.tables d).users)
  pub sessions_dropped :
      (token_hash : String) (d d' : D)
      → e.delete_session token_hash d ≡ (d', done tt)
      → e.tables d' ≡ record (e.tables d) { sessions = drop_key token_hash (e.tables d).sessions }
  -- No row to delete is no error.
  pub sessions_missing :
      (token_hash : String) (d : D)
      → lookup token_hash (e.tables d).sessions ≡ none
      → (d' : D) × (e.delete_session token_hash d ≡ (d', done tt)) × (e.tables d' ≡ e.tables d)
