-- ===== src/Auth/Sqlite/Tests.antt =====
-- The SQLite store over the engine with one account.
use chat_room.Prelude.{ℕ, ◌+◌, ◌≡◌, refl, Option, some, [], ◌∷◌, ℤ, lookup, arith}
use chat_room.Clock.{epoch, unix_nano}
use chat_room.Auth.Text.{trim_space, trim_left, trim_right}
use chat_room.Auth.{User, ok, err, no_session, Draw, login, authenticate, admit, open_session}
use chat_room.Auth.Sessions.{Matches}
use chat_room.Auth.Tests.{crypto}
use chat_room.Auth.Database.{Engine, IsSql}
use chat_room.Auth.Database.Tests.{OneAccount, one_account, one_account-IsSql}
use chat_room.Auth.Sqlite.{sqlite_unique_violation, new_sqlite}
use chat_room.Auth.Sqlite.Contract.{later}
use chat_room.Auth.Sqlite.Expiry.{authenticate-login_far}

abbrev pub engine : Engine (OneAccount ℤ) ℕ ℤ (Option ℕ)
engine = one_account later sqlite_unique_violation some

pub engine-IsSql : IsSql later sqlite_unique_violation some engine
engine-IsSql = one_account-IsSql later sqlite_unique_violation some (λ a b e. cc)

abbrev pub ann : User
ann = record { id = 1; username = "ann"; display_name = "Ann" }

abbrev pub registered : OneAccount ℤ
registered = record {
  account = some ("ann", record { id = 1; password_hash = "open sesame"; display_name = "Ann" });
  sessions = [];
}

-- At 100 nanoseconds after 1970.
abbrev draw : Draw
draw = record { salt = 5; token = some "t0k"; now = epoch + 100 }

-- The longest `time.Duration`.
abbrev longest : ℕ
longest = 9_223_372_036_854_775_807

abbrev signed_in : ℕ → OneAccount ℤ
signed_in ttl = record registered {
  sessions = ("t0k", record { user_id = 1; expires_at = unix_nano (draw.now + ttl) }) ∷ [];
}

matches : (ttl : ℕ) → Matches crypto (new_sqlite engine) ttl "ann" "open sesame" registered
unfolding new_sqlite trim_space trim_left trim_right lookup
matches ttl = record { user = ann; hash = "open sesame"; found = refl; same = refl }

login_test :
    (ttl : ℕ)
    → login crypto (new_sqlite engine) ttl draw "ann" "open sesame" registered
      ≡ (signed_in ttl, ok (ann, "t0k"))
unfolding login admit open_session new_sqlite trim_space trim_left trim_right lookup
login_test ttl = refl

authenticate-login_far_example :
    authenticate crypto (new_sqlite engine) longest (epoch + 149) "t0k" (signed_in longest)
    ≡ err no_session
authenticate-login_far_example =
    authenticate-login_far crypto engine engine-IsSql longest draw "ann" "open sesame" "t0k"
      registered (signed_in longest) ann (epoch + 149) (matches longest) (λ e. cc)
      (login_test longest) (omega arith) (omega arith) (omega arith) (omega arith)
