-- ===== src/Web/Tests.antt =====
-- The API at concrete requests, over the store of one account.
use chat_room.Prelude.{
  ℕ, String, List, Bool, has_prefix, has_suffix, ◌≡◌, refl, ◌↔◌, true, none, some, [], nat_eq,
  string_eq, assign, drop_key,
}
use chat_room.Auth.Tests.{Database, database, crypto, draw, registered, database-IsStore, named}
use chat_room.Auth.Text.{trim_space, trim_left, trim_right}
use chat_room.Auth.{login, logout, admit, open_session}
use chat_room.Hub.Snapshot.{Stats}
use chat_room.Web.{
  seconds_of, at_once, plain, reply, welcome, logged_out, login_response, handle_login,
  handle_logout, Credentials, Request, account, nothing, Response, session_cookie, cleared_cookie,
  post_login, get_me, get_rooms, serve,
}
use chat_room.Config.{default_config}
use chat_room.Web.Routing.Mux.{matches_path, matches_request}
use chat_room.Web.Routing.Tests.{best, any_method, chosen, longest, longest-IsMux}
use chat_room.Web.Routing.{patterns, responded, dispatch, handle_request}
use chat_room.Web.Safe.{handle_request_reads}
use chat_room.Web.Sessions.{answer, expired, with_cookie, logout-me}
use chat_room.Web.Refusals.{HasSession, serve-rooms_iff}

abbrev pub now : Stats
now = record { connections = 0; rooms = []; messages_total = 0; message_rate = 0 }

abbrev pub credentials : Credentials
credentials = record { username = "ann"; password = "open sesame"; display_name = "" }

abbrev pub login_request : Request
login_request = record { cookie = none; body = some credentials }

abbrev welcomed : Response
welcomed = record {
  status = 200;
  cookie = some (record { value = "t0k"; secure = true; max_age = seconds_of 50 });
  body = account "ann" "Ann";
}

login_request_test :
    serve crypto database 50 true draw now post_login login_request registered
    ≡ (registered, welcomed)
unfolding serve handle_login login_response welcome session_cookie login admit open_session
    trim_space trim_left trim_right named assign
login_request_test = refl

abbrev goodbye : Response
goodbye = record {
  status = 204;
  cookie = some (record { value = ""; secure = true; max_age = at_once });
  body = nothing;
}

abbrev logged_off : Database
logged_off = record registered { sessions = [] }

logout-me_example :
    (goodbye.cookie ≡ some (expired true))
    × (serve crypto database 50 true draw now get_me (with_cookie "t0k") logged_off
        ≡ (logged_off, answer none))
unfolding serve handle_logout logged_out cleared_cookie logout drop_key
logout-me_example =
    logout-me crypto database 50 true database-IsStore draw now "t0k" registered logged_off
      logged_off goodbye refl refl

serve-rooms_iff_example :
    ((serve crypto database 50 true draw now get_rooms (with_cookie "t0k") registered).1.status
      ≡ 200)
    ↔ HasSession crypto database 50 true draw (with_cookie "t0k") registered
serve-rooms_iff_example =
    serve-rooms_iff crypto database 50 true draw now (with_cookie "t0k") registered

abbrev pub anyone : List String → Bool
anyone origins = true

-- No test looks at the text of an id.
abbrev pub blank : ℕ → String
blank n = ""

handle_request_reads_example :
    (handle_request longest crypto database 50 blank anyone default_config draw now "GET"
      "/api/logout"
      (with_cookie "t0k")
      registered).0
    ≡ registered
handle_request_reads_example =
    handle_request_reads longest crypto database 50 blank anyone default_config draw now "GET"
      "/api/logout" (with_cookie "t0k") registered longest-IsMux (λ w. let e = w.0 in cc)

not_allowed_test :
    handle_request longest crypto database 50 blank anyone default_config draw now "PUT"
      "/api/login"
      (with_cookie "t0k")
      registered
    ≡ (registered, responded (reply 405 (plain "Method Not Allowed")))
unfolding handle_request longest best any_method chosen patterns matches_request matches_path
    has_suffix has_prefix dispatch
not_allowed_test = refl
