-- ===== src/Auth.antt =====
-- internal/auth/auth.go: accounts and sessions, over a store that the package gets as an interface.
pub mod Text
pub mod Token
pub mod Contract
pub mod Registration
pub mod Sessions
pub mod Database
pub mod Sqlite
pub mod Postgres
pub mod Tests
use Prim.Native.String.{len}
use chat_room.Prelude.{
  ℕ, ◌+◌, String, Bool, true, false, ◌||◌, Option, none, some, ltb, if◌then◌else◌, ◌==◌, string_eq,
}
use chat_room.Message.{Time}
use Text.{trim_space}

pub record User : Type 0 where
  pub id : ℕ
  pub username : String
  pub display_name : String

-- What `validateCredentials` objects to.
pub data Reason : Type 0 where
  bad_username bad_password bad_display_name : Reason

-- The sentinel errors, and those that the service wraps.
pub data Error : Type 0 where
  username_taken invalid_credentials no_session : Error
  invalid_input : Reason → Error
  hashing_failed token_failed store_failed : Error
  session_failed : Error → Error

pub data Result {ℓ} (A : Type ℓ) : Type ℓ where
  ok : A → Result A
  err : Error → Result A

-- The interface `Store`, over a state of the database. A read is given the clock.
pub record Store (S : Type 0) : Type 0 where
  pub create_user : String → String → String → S → S × Result User
  pub credentials_by_username : String → S → Result (User × String)
  pub create_session : String → ℕ → Time → S → S × Result (Unit {0})
  pub user_by_session_token : Time → String → S → Result User
  pub delete_session : String → S → S × Result (Unit {0})

-- bcrypt, with its salt as an argument, and the hex form of SHA-256.
pub record Crypto : Type 0 where
  pub generate_from_password : ℕ → String → Option String
  pub compare_hash_and_password : String → String → Bool
  pub hash_token : String → String

-- What a call draws from the system: a salt, a token unless the random source fails, the time.
pub record Draw : Type 0 where
  pub salt : ℕ
  pub token : Option String
  pub now : Time

-- The limits, in bytes.
abbrev pub min_username : ℕ
min_username = 3

abbrev pub max_username : ℕ
max_username = 32

abbrev pub min_password : ℕ
min_password = 8

abbrev pub max_password : ℕ
max_password = 128

abbrev pub max_display_name : ℕ
max_display_name = 32

-- `none` is a nil error.
unfoldable pub validate_credentials : String → String → String → Option Reason
validate_credentials username password display_name =
    if ltb (len username) min_username || ltb max_username (len username)
    then some bad_username
    else if ltb (len password) min_password || ltb max_password (len password)
    then some bad_password
    else if display_name == "" || ltb max_display_name (len display_name)
    then some bad_display_name
    else none

-- The display name that `Register` goes on with.
abbrev pub shown_name : String → String → String
shown_name username display_name = if display_name == "" then username else display_name

module _ {S : Type 0} (crypto : Crypto) (store : Store S) (session_ttl : ℕ) where
  open crypto use {generate_from_password, compare_hash_and_password, hash_token}
  open store use {
    create_user, credentials_by_username, create_session, user_by_session_token, delete_session,
  }

  unfoldable pub open_session : Draw → ℕ → S → S × Result String
  open_session d user_id s = elim d.token [
    | none ↦ (s, err token_failed)
    | some token ↦
        let (s', r) = create_session (hash_token token) user_id (d.now + session_ttl) s in
        (s', elim r [ err e ↦ err (session_failed e) | ok _ ↦ ok token ])
  ]

  -- A session for a user, and the pair that `Register` and `Login` return.
  unfoldable pub admit : Draw → User → S → S × Result (User × String)
  unfolding open_session
  admit d user s =
      let (s', r) = open_session d user.id s in
      (s', elim r [ err e ↦ err e | ok token ↦ ok (user, token) ])

  unfoldable pub create_account : Draw → String → String → String → S → S × Result (User × String)
  unfolding admit
  create_account d username hash display_name s =
      let (s', r) = create_user username hash display_name s in
      elim r [ err e ↦ (s', err e) | ok user ↦ admit d user s' ]

  -- `Register` after the trimming.
  unfoldable pub sign_up : Draw → String → String → String → S → S × Result (User × String)
  sign_up d username password display_name s =
      elim (validate_credentials username password display_name) [
        | some reason ↦ (s, err (invalid_input reason))
        | none ↦ elim (generate_from_password d.salt password) [
          | none ↦ (s, err hashing_failed)
          | some hash ↦ create_account d username hash display_name s
        ]
      ]

  unfoldable pub register : Draw → String → String → String → S → S × Result (User × String)
  register d username password display_name s =
      let u = trim_space username in sign_up d u password (shown_name u (trim_space display_name)) s

  unfoldable pub login : Draw → String → String → S → S × Result (User × String)
  unfolding admit
  login d username password s = elim (credentials_by_username (trim_space username) s) [
    | err e ↦ (s, err invalid_credentials)
    | ok (user, hash) ↦
        if compare_hash_and_password hash password
        then admit d user s
        else (s, err invalid_credentials)
  ]

  unfoldable pub logout : String → S → S × Result (Unit {0})
  logout token s = if token == "" then (s, ok tt) else delete_session (hash_token token) s

  unfoldable pub authenticate : Time → String → S → Result User
  authenticate now token s =
      if token == "" then err no_session else user_by_session_token now (hash_token token) s
