-- ===== src/Web.antt =====
-- internal/web/auth.go and the guarded handlers of internal/web/server.go: sessions as cookies.
pub mod Sessions
pub mod Refusals
pub mod Socket
pub mod Routing
pub mod Safe
pub mod EndToEnd
pub mod Tests
use chat_room.Prelude.{
  ℕ, ◌/◌, String, Bool, true, false, Option, none, some, ℤ, pos, negsuc, if◌then◌else◌, ◌==◌,
  string_eq,
}
use chat_room.Hub.Snapshot.{Stats}
use chat_room.Auth.{
  User, Error, username_taken, invalid_credentials, invalid_input, session_failed, Result, ok, err,
  Store, Crypto, Draw, register, login, logout, authenticate,
}

pub record Credentials : Type 0 where
  pub username : String
  pub password : String
  pub display_name : String

-- What the handlers read of a request: the value of the session cookie, and the body, `none` where
-- it does not decode within 4096 bytes.
pub record Request : Type 0 where
  pub cookie : Option String
  pub body : Option Credentials

-- The attribute `MaxAge`: `int(d.Seconds())` of a lifetime in nanoseconds, which the package time
-- computes with floats, or -1.
pub data MaxAge : Type 0 where
  seconds_of : ℕ → MaxAge
  at_once : MaxAge

-- What varies in the cookie that a response sets.
pub record Cookie : Type 0 where
  pub value : String
  pub secure : Bool
  pub max_age : MaxAge

pub data Body : Type 0 where
  nothing : Body
  plain : String → Body
  printed : Error → Body
  account : (username display_name : String) → Body
  me : (authenticated : Bool) (username display_name : String) → Body
  stats : Stats → Body

pub record Response : Type 0 where
  pub status : ℕ
  pub cookie : Option Cookie
  pub body : Body

-- `errors.Is`, which looks through the wrapping of `openSession`.
pub is_username_taken : Error → Bool
is_username_taken username_taken = true
is_username_taken (session_failed e) = is_username_taken e
is_username_taken _ = false

pub is_invalid_input : Error → Bool
is_invalid_input (invalid_input reason) = true
is_invalid_input (session_failed e) = is_invalid_input e
is_invalid_input _ = false

pub is_invalid_credentials : Error → Bool
is_invalid_credentials invalid_credentials = true
is_invalid_credentials (session_failed e) = is_invalid_credentials e
is_invalid_credentials _ = false

-- `http.Error` and `writeJSON`.
pub reply : ℕ → Body → Response
reply status body = record { status = status; cookie = none; body = body }

-- `handleMe`
pub handle_me : Option User → Response
unfolding reply
handle_me none = reply 200 (me false "" "")
handle_me (some user) = reply 200 (me true user.username user.display_name)

-- `handleRooms`, at the hub's snapshot.
pub handle_rooms : Stats → Option User → Response
unfolding reply
handle_rooms now none = reply 401 (plain "authentication required")
handle_rooms now (some user) = reply 200 (stats now)

-- The routes of the API, behind the middleware.
pub data Route : Type 0 where
  post_register post_login post_logout get_me get_rooms : Route

module _ {S : Type 0} (crypto : Crypto) (store : Store S) (session_ttl : ℕ) (secure : Bool) where
  -- `setSessionCookie`
  pub session_cookie : String → Cookie
  session_cookie token = record { value = token; secure = secure; max_age = seconds_of session_ttl }

  -- `clearSessionCookie`
  pub cleared_cookie : Cookie
  cleared_cookie = record { value = ""; secure = secure; max_age = at_once }

  pub welcome : ℕ → User → String → Response
  welcome status user token = record {
    status = status;
    cookie = some (session_cookie token);
    body = account user.username user.display_name;
  }

  pub register_response : Result (User × String) → Response
  unfolding reply welcome is_username_taken is_invalid_input
  register_response (ok (user, token)) = welcome 201 user token
  register_response (err e) =
      if is_username_taken e
      then reply 409 (plain "username already taken")
      else if is_invalid_input e
      then reply 400 (printed e)
      else reply 500 (plain "could not register")

  pub login_response : Result (User × String) → Response
  unfolding reply welcome is_invalid_credentials
  login_response (ok (user, token)) = welcome 200 user token
  login_response (err e) =
      if is_invalid_credentials e
      then reply 401 (plain "invalid username or password")
      else reply 500 (plain "could not log in")

  pub handle_register : Draw → Request → S → S × Response
  unfolding register_response
  handle_register d req s = elim req.body [
    | none ↦ (s, reply 400 (plain "invalid request body"))
    | some c ↦
        let (s', r) = register crypto store session_ttl d c.username c.password c.display_name s in
        (s', register_response r)
  ]

  pub handle_login : Draw → Request → S → S × Response
  unfolding login_response
  handle_login d req s = elim req.body [
    | none ↦ (s, reply 400 (plain "invalid request body"))
    | some c ↦
        let (s', r) = login crypto store session_ttl d c.username c.password s in
        (s', login_response r)
  ]

  logged_out : Response
  unfolding cleared_cookie
  logged_out = record { status = 204; cookie = some cleared_cookie; body = nothing }

  -- A logout that fails is logged, and answered like one that does not.
  pub handle_logout : Request → S → S × Response
  unfolding logged_out
  handle_logout req s = elim req.cookie [
    | none ↦ (s, logged_out)
    | some token ↦
        if token == ""
        then (s, logged_out)
        else ((logout crypto store session_ttl token s).0, logged_out)
  ]

  -- The user that `authMiddleware` puts into the request's context.
  pub resolve : Draw → Request → S → Option User
  resolve d req s = elim req.cookie [
    | none ↦ none
    | some token ↦
        if token == "" then none else elim (authenticate crypto store session_ttl d.now token s) [
          | ok user ↦ some user
          | err e ↦ none
        ]
  ]

  -- One request, through the middleware to its handler.
  pub serve : Draw → Stats → Route → Request → S → S × Response
  serve d now route req s =
      let user = resolve d req s in
      elim route [
        | post_register ↦ handle_register d req s
        | post_login ↦ handle_login d req s
        | post_logout ↦ handle_logout req s
        | get_me ↦ (s, handle_me user)
        | get_rooms ↦ (s, handle_rooms now user)
      ]
