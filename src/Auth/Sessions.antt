-- ===== src/Auth/Sessions.antt =====
-- `Login`, `Logout` and `Authenticate`: the life of a session.
use chat_room.Prelude.{
  ℕ, ◌+◌, String, ◌≡◌, refl, sym, ap, ◌∙◌, ◌≢◌, ◌↔◌, inl, inr, true, arith, if◌then◌else◌, ◌==◌,
  nat_eq, string_eq, Bool-cases, Bool,
}
use text.Mathlib.TextEquality.{eq_iff}
use chat_room.Message.{Time}
use chat_room.Auth.Text.{trim_space}
use chat_room.Auth.Contract.{IsStore}
use chat_room.Auth.Registration.{admit-ok}
use chat_room.Auth.{
  User, invalid_credentials, no_session, Result, ok, err, Store, Crypto, Draw, admit, login, logout,
  authenticate,
}

module _ {S : Type 0} (crypto : Crypto) (store : Store S) (ttl : ℕ) where
  -- The account of the trimmed name has the password.
  pub record Matches (username password : String) (s : S) : Type 0 where
    pub user : User
    pub hash : String
    pub found : store.credentials_by_username (trim_space username) s ≡ ok (user, hash)
    pub same : crypto.compare_hash_and_password hash password ≡ true

  pub login-admit :
      (d : Draw) (username password : String) (s : S) (m : Matches username password s)
      → login crypto store ttl d username password s ≡ admit crypto store ttl d m.user s
  unfolding login
  login-admit d username password s m = rw (m.found, login, m.same) refl

  admit-ne :
      (d : Draw) (user : User) (s : S)
      → (admit crypto store ttl d user s).1 ≢ err invalid_credentials
  unfolding admit
  admit-ne d user s e = ground arith

  refused :
      (d : Draw) (username password : String) (s : S)
      → ¬ Matches username password s
      → login crypto store ttl d username password s ≡ (s, err invalid_credentials)
  unfolding login
  refused d username password s none_fits =
      try (store.credentials_by_username (trim_space username) s) refl
    where
      try :
          (r : Result (User × String))
          → store.credentials_by_username (trim_space username) s ≡ r
          → login crypto store ttl d username password s ≡ (s, err invalid_credentials)
      try (err e) f = rw (f, login) refl
      try (ok (user, hash)) f = elim (Bool-cases (crypto.compare_hash_and_password hash password)) [
        | inl same ↦
            absurd (none_fits (record { user = user; hash = hash; found = f; same = same }))
        | inr other ↦ rw (f, login, other) refl
      ]

  -- A login returns `ErrInvalidCredentials` with the store unchanged exactly when the lookup gives no
  -- account of the trimmed name whose hash the password matches.
  pub login_invalid_iff :
      (d : Draw) (username password : String) (s : S)
      → (login crypto store ttl d username password s ≡ (s, err invalid_credentials))
        ↔ (¬ Matches username password s)
  login_invalid_iff d username password s = (
    λ e m. admit-ne d m.user s (ap (λ x. x.1) (sym (login-admit d username password s m) ∙ e)),
    refused d username password s,
  )

  authenticate_hashed :
      (now : Time) (token : String) (s : S)
      → token ≢ ""
      → authenticate crypto store ttl now token s
        ≡ store.user_by_session_token now (crypto.hash_token token) s
  unfolding authenticate
  authenticate_hashed now token s n = ground (arith, eq_iff token "")

  module _ {lasts : Time → Time → Bool} (contract : IsStore lasts store) where
    -- Over a store that keeps its contract: after a login with a password that matches, the token, if
    -- it is not empty, leads to the user until the session expires by the store's clock, and to nobody from then on.
    pub authenticate-login :
        (d : Draw) (username password token : String) (s s' : S) (user : User) (now : Time)
        → Matches username password s
        → token ≢ ""
        → login crypto store ttl d username password s ≡ (s', ok (user, token))
        → authenticate crypto store ttl now token s'
          ≡ (if lasts now (d.now + ttl) then ok user else err no_session)
    authenticate-login d username password token s s' user now m given e =
        let (same, drawn, opened) =
          admit-ok crypto store ttl d m.user user token s s'
            (sym (login-admit d username password s m) ∙ e) in
        authenticate_hashed now token s' given
        ∙ contract.opened (trim_space username) m.hash (crypto.hash_token token) (d.now + ttl) now s
            s' user (m.found ∙ ap (λ x. ok (x, m.hash)) (sym same)) (rw same opened)

    -- Over a store that keeps its contract: after a logout that succeeds the token leads to nobody.
    pub authenticate-logout :
        (token : String) (s s' : S) (now : Time)
        → logout crypto store ttl token s ≡ (s', ok tt)
        → authenticate crypto store ttl now token s' ≡ err no_session
    unfolding logout authenticate
    authenticate-logout token s s' now e = elim (Bool-cases (token == "")) [
      | inl blank ↦ rw blank refl
      | inr given ↦ rw given (contract.deleted (crypto.hash_token token) now s s' (ground arith))
    ]
