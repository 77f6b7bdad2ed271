-- ===== src/Auth/Sqlite/Expiry.antt =====
-- Sessions over SQLite: what the 64-bit column does to their end.
use chat_room.Prelude.{
  ℕ, ◌+◌, ◌≤◌, ◌<◌, ◌^◌, String, ◌≡◌, ap, ◌∙◌, ◌≢◌, false, Option, some, ℤ, ltb, if◌then◌else◌,
  arith,
}
use chat_room.Message.{Time}
use chat_room.Clock.{epoch, unix_nano}
use chat_room.Clock.Range.{IsNear, ltz-unix_nano}
use chat_room.Auth.Database.{Engine, IsSql}
use chat_room.Auth.Sessions.{Matches, authenticate-login}
use chat_room.Auth.{User, no_session, ok, err, Crypto, Draw, login, authenticate}
use chat_room.Auth.Sqlite.{sqlite_unique_violation, new_sqlite}
use chat_room.Auth.Sqlite.Contract.{lasts, later, new_sqlite-IsStore}

-- An expiry that is too far off: the column then holds a time before 1970.
far-lasts :
    (now t : Time)
    → epoch ≤ now
    → now < epoch + 2 ^ 63
    → epoch + 2 ^ 63 ≤ t
    → t < epoch + 2 ^ 64
    → lasts now t ≡ false
unfolding unix_nano
far-lasts now t a b c d = ground arith

module _ {D : Type 0} (crypto : Crypto) (e : Engine D ℕ ℤ (Option ℕ))
    (law : IsSql later sqlite_unique_violation some e) (ttl : ℕ) (d : Draw)
    (username password token : String) (s s' : D) (user : User) (now : Time)
    (m : Matches crypto (new_sqlite e) ttl username password s) (given : token ≢ "")
    (won : login crypto (new_sqlite e) ttl d username password s ≡ (s', ok (user, token))) where
  -- Over an SQLite engine that does what SQL says: after a login with a password that matches, the
  -- token, if it is not empty, leads to the user exactly before the expiry, if the clock and the
  -- expiry are less than 2 ^ 63 nanoseconds off 1970.
  pub authenticate-login_near :
      IsNear now
      → IsNear (d.now + ttl)
      → authenticate crypto (new_sqlite e) ttl now token s'
        ≡ (if ltb now (d.now + ttl) then ok user else err no_session)
  authenticate-login_near near end =
      authenticate-login crypto (new_sqlite e) ttl (new_sqlite-IsStore e law) d username password
        token s s' user now m given won
      ∙ ap (λ b. if b then ok user else err no_session) (ltz-unix_nano now (d.now + ttl) near end)

  -- Over an SQLite engine that does what SQL says: after a login with a password that matches, if the
  -- session is to end 2 ^ 63 to 2 ^ 64 nanoseconds after 1970, it is over at once: the token, if it is
  -- not empty, leads to nobody at any time from 1970 to 2 ^ 63 nanoseconds later.
  pub authenticate-login_far :
      epoch ≤ now
      → now < epoch + 2 ^ 63
      → epoch + 2 ^ 63 ≤ d.now + ttl
      → d.now + ttl < epoch + 2 ^ 64
      → authenticate crypto (new_sqlite e) ttl now token s' ≡ err no_session
  authenticate-login_far a b c f =
      authenticate-login crypto (new_sqlite e) ttl (new_sqlite-IsStore e law) d username password
        token s s' user now m given won
      ∙ ap (λ b. if b then ok user else err no_session) (far-lasts now (d.now + ttl) a b c f)
