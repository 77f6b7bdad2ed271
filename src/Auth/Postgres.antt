-- ===== src/Auth/Postgres.antt =====
-- internal/auth/postgres.go: the store of accounts and sessions in Postgres. The driver takes a time as
-- it is, and `now()` is the server's clock.
pub mod Contract
pub mod Tests
use chat_room.Prelude.{
  string_eq, ℕ, String, Bool, true, false, Option, none, some, ℤ, if◌then◌else◌, ◌==◌, nat_eq,
}
use chat_room.Message.{Time}
use chat_room.Auth.{
  User, Error, username_taken, invalid_credentials, no_session, store_failed, Result, ok, err,
  Store,
}
use chat_room.Auth.Database.{
  found_session, executed, found_credentials, Executed, done, failed, Fetched, row, no_rows, broken,
  Engine,
}

abbrev pub unique_violation : String
unique_violation = "23505"

-- `CreateUser` after the statement, which returns the id.
unfoldable pub created : String → String → Executed String ℕ → Result User
created username display_name (done id) =
    ok (record { id = id; username = username; display_name = display_name })
created username display_name (failed (some code)) =
    if code == unique_violation then err username_taken else err store_failed
created username display_name (failed none) = err store_failed

module _ {D : Type 0} (e : Engine D String Time ℕ) where
  unfoldable pub create_user : String → String → String → D → D × Result User
  unfolding created
  create_user username hash display_name d =
      let (d', r) = e.insert_user username hash display_name d in
      (d', created username display_name r)

  unfoldable pub credentials_by_username : String → D → Result (User × String)
  unfolding found_credentials
  credentials_by_username username d = found_credentials (e.select_user username d)

  unfoldable pub create_session : String → ℕ → Time → D → D × Result (Unit {0})
  unfolding executed
  create_session token_hash user_id expires_at d =
      let (d', r) = e.insert_session token_hash user_id expires_at d in (d', executed r)

  unfoldable pub user_by_session_token : Time → String → D → Result User
  unfolding found_session
  user_by_session_token now token_hash d = found_session (e.select_session token_hash now d)

  unfoldable pub delete_session : String → D → D × Result (Unit {0})
  unfolding executed
  delete_session token_hash d = let (d', r) = e.delete_session token_hash d in (d', executed r)

  -- `NewPostgres`
  unfoldable pub new_postgres : Store D
  unfolding create_user credentials_by_username create_session user_by_session_token delete_session
  new_postgres = record {
    create_user = create_user;
    credentials_by_username = credentials_by_username;
    create_session = create_session;
    user_by_session_token = user_by_session_token;
    delete_session = delete_session;
  }
