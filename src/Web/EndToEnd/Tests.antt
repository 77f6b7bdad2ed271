-- ===== src/Web/EndToEnd/Tests.antt =====
-- A login over the SQLite store at a concrete request.
use chat_room.Prelude.{
  ℤ, false, ◌+◌, ◌≡◌, refl, String, none, some, [], ◌∷◌, arith, ltb, if◌then◌else◌, lookup,
  has_prefix, has_suffix,
}
use chat_room.Clock.{epoch, unix_nano}
use chat_room.Config.{default_config}
use chat_room.Auth.{admit, login, open_session}
use chat_room.Auth.Text.{trim_space, trim_left, trim_right}
use chat_room.Auth.Tests.{crypto}
use chat_room.Auth.Sqlite.{new_sqlite}
use chat_room.Auth.Sqlite.Tests.{engine, engine-IsSql, ann, registered}
use chat_room.Auth.Database.Tests.{OneAccount}
use chat_room.Auth.Token.{crypto_of, drawing, encode, new_token, hash_token}
use chat_room.Auth.Token.RoundTrip.{IsToken}
use chat_room.Auth.Token.Tests.{sha256, bytes, token}
use chat_room.Web.{Response, login_response, handle_login, welcome, session_cookie, serve, account}
use chat_room.Web.Sessions.{with_cookie, answer, issued}
use chat_room.Web.Routing.Mux.{matches_path, matches_request}
use chat_room.Web.Routing.Tests.{best, any_method, chosen, longest, longest-IsMux}
use chat_room.Web.Routing.{patterns, responded, answer as answer_of, dispatch, handle_request}
use chat_room.Web.Tests.{now, login_request, credentials, anyone, blank}
use chat_room.Web.EndToEnd.{login-me_served}

abbrev signed_in : OneAccount ℤ
signed_in = record registered {
  sessions =
      (hash_token sha256 token, record { user_id = 1; expires_at = unix_nano (epoch + 150) }) ∷ [];
}

abbrev welcomed : Response
welcomed = record {
  status = 200;
  cookie = some (issued 50 false token);
  body = account "ann" "Ann";
}

login-me_served_example :
    (t : String) × IsToken bytes t
    × (welcomed.cookie ≡ some (issued 50 default_config.secure_cookies t))
    × (handle_request longest
          (crypto_of crypto.generate_from_password crypto.compare_hash_and_password sha256)
          (new_sqlite engine)
          50
          blank
          anyone
          default_config
          (drawing 5 none (epoch + 149))
          now
          "GET"
          "/api/me"
          (with_cookie t)
          signed_in
        ≡ (
          signed_in,
          responded (answer (if ltb (epoch + 149) (epoch + 150) then some ann else none)),
        ))
unfolding new_sqlite trim_space trim_left trim_right lookup handle_request longest chosen any_method
    best patterns matches_request matches_path has_suffix has_prefix dispatch answer_of serve
    handle_login login_response welcome session_cookie login admit open_session encode new_token
    default_config
login-me_served_example =
    login-me_served crypto.generate_from_password crypto.compare_hash_and_password sha256 engine
      engine-IsSql longest longest-IsMux 50 blank anyone default_config 5 bytes (epoch + 100)
      (drawing 5 none (epoch + 149)) now credentials login_request registered signed_in welcomed
      (omega arith) refl (record { user = ann; hash = "open sesame"; found = refl; same = refl })
      refl (record { since = omega arith; before = omega arith })
      (record { since = omega arith; before = omega arith }) refl refl
