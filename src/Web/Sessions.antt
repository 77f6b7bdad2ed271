-- ===== src/Web/Sessions.antt =====
-- The life of a session over several requests, and what is refused.
use chat_room.Message.{Time}
use chat_room.Prelude.{
  ℕ, ◌+◌, String, ◌≡◌, refl, sym, ap, ◌∙◌, ◌≢◌, inl, inr, Bool, true, false, Option, none, some,
  arith, if◌then◌else◌, ◌==◌, nat_eq, string_eq, Bool-cases,
}
use text.Mathlib.TextEquality.{eq_iff}
use chat_room.Auth.Contract.{IsStore}
use chat_room.Auth.Registration.{admit-ok}
use chat_room.Auth.Sessions.{login-admit, Matches, authenticate-login, authenticate-logout}
use chat_room.Auth.{
  User, no_session, Result, ok, err, Store, Crypto, Draw, login, logout, authenticate,
}
use chat_room.Hub.Snapshot.{Stats}
use chat_room.Web.{
  seconds_of, at_once, me, welcome, Cookie, reply, logged_out, Credentials, Request, Response,
  handle_me, session_cookie, cleared_cookie, login_response, handle_login, handle_logout, resolve,
  post_login, post_logout, get_me, serve,
}

-- The request of a browser that holds a cookie.
abbrev pub with_cookie : String → Request
with_cookie token = record { cookie = some token; body = none }

-- The answer to the session probe.
abbrev pub answer : Option User → Response
answer none = record { status = 200; cookie = none; body = me false "" "" }
answer (some user) = record {
  status = 200;
  cookie = none;
  body = me true user.username user.display_name;
}

handle_me-answer : (u : Option User) → handle_me u ≡ answer u
unfolding handle_me reply
handle_me-answer none = refl
handle_me-answer (some user) = refl

-- The cookie of a session that begins, with its lifetime, and the one that ends it.
abbrev pub issued : ℕ → Bool → String → Cookie
issued ttl secure token = record { value = token; secure = secure; max_age = seconds_of ttl }

abbrev pub expired : Bool → Cookie
expired secure = record { value = ""; secure = secure; max_age = at_once }

-- The user of a session, at a time and with its expiry.
abbrev pub live_until : (Time → Time → Bool) → Time → Time → User → Option User
live_until lasts expires_at now user = if lasts now expires_at then some user else none

module _ {S : Type 0} (crypto : Crypto) (store : Store S) (ttl : ℕ) (secure : Bool) where
  -- A login answered with 200 has let a user in, and sets that session's cookie.
  login_response-ok :
      (r : Result (User × String))
      → (login_response crypto store ttl secure r).status ≡ 200
      → (user : User) × (token : String) × (r ≡ ok (user, token))
        × ((login_response crypto store ttl secure r).cookie ≡ some (issued ttl secure token))
  unfolding login_response welcome session_cookie
  login_response-ok (ok (user, token)) e = (user, token, refl, refl)
  login_response-ok (err f) e = absurd (ground arith)

  resolve_given :
      (d : Draw) (token : String) (s : S) (r : Result User)
      → token ≢ ""
      → authenticate crypto store ttl d.now token s ≡ r
      → resolve crypto store ttl secure d (with_cookie token) s
        ≡ (elim r [ ok user ↦ some user | err f ↦ none ])
  unfolding resolve
  resolve_given d token s r n e =
      let solid : (token == "") ≡ false = ground (arith, eq_iff token "") in rw (solid, e) refl

  serve-login :
      (d : Draw) (now : Stats) (c : Credentials) (req : Request) (s : S)
      → req.body ≡ some c
      → let l = login crypto store ttl d c.username c.password s in
        serve crypto store ttl secure d now post_login req s
        ≡ (l.0, login_response crypto store ttl secure l.1)
  unfolding serve handle_login
  serve-login d now c req s b = rw (b, handle_login) refl

  live_user :
      (b : Bool) (user : User)
      → (elim (if b then ok user else err no_session) as (λ _. Option User) [
        | ok u ↦ some u
        | err f ↦ none
      ])
        ≡ (if b then some user else none)
  live_user true user = refl
  live_user false user = refl

  logged_out_cookie :
      (token : String) (s : S)
      → (handle_logout crypto store ttl secure (with_cookie token) s).1.cookie
        ≡ some (expired secure)
  unfolding handle_logout logged_out cleared_cookie
  logged_out_cookie token s = elim (Bool-cases (token == "")) [
    | inl blank ↦ rw blank refl
    | inr given ↦ rw given refl
  ]

  logged_out_store :
      (token : String) (s : S)
      → (token == "") ≡ false
      → (handle_logout crypto store ttl secure (with_cookie token) s).0
        ≡ (logout crypto store ttl token s).0
  unfolding handle_logout
  logged_out_store token s given = rw given refl

  module _ {lasts : Time → Time → Bool} (contract : IsStore lasts store) where
    resolve-login :
        (d e : Draw) (username password token : String) (s s' : S) (user : User)
        → (m : Matches crypto store ttl username password s) → token ≢ ""
        → login crypto store ttl d username password s ≡ (s', ok (user, token))
        → resolve crypto store ttl secure e (with_cookie token) s'
          ≡ live_until lasts (d.now + ttl) e.now user
    resolve-login d e username password token s s' user m given f =
        resolve_given e token s' _ given (
          authenticate-login crypto store ttl contract d username password token s s' user e.now m
            given f)
        ∙ live_user (lasts e.now (d.now + ttl)) user

    -- Over a store that keeps its contract: if a login request with a password that matches is answered
    -- with 200, and the drawn token is not empty, the response sets the token as the session cookie;
    -- and a request that brings the cookie back is answered with the user's names until the session
    -- expires by the store's clock, and as not authenticated from then on.
    pub login-me :
        (d e : Draw) (now : Stats) (c : Credentials) (req : Request) (token : String) (s s' : S)
        (resp : Response)
        → (m : Matches crypto store ttl c.username c.password s) → req.body ≡ some c
        → d.token ≡ some token
        → token ≢ ""
        → serve crypto store ttl secure d now post_login req s ≡ (s', resp)
        → resp.status ≡ 200
        → (resp.cookie ≡ some (issued ttl secure token))
          × (serve crypto store ttl secure e now get_me (with_cookie token) s'
              ≡ (s', answer (live_until lasts (d.now + ttl) e.now m.user)))
    unfolding serve
    login-me d e now c req token s s' resp m b drawn given f k =
        let l = login crypto store ttl d c.username c.password s in
        let q = sym (serve-login d now c req s b) ∙ f in
        let (user, t, won, sets) = login_response-ok l.1 (ap (λ x. x.1.status) q ∙ k) in
        let all : l ≡ (s', ok (user, t)) = λ i. ((q i).0, won i) in
        let (same, drawn', _) =
          admit-ok crypto store ttl d m.user user t s s'
            (sym (login-admit crypto store ttl d c.username c.password s m) ∙ all) in
        let e' : t ≡ token = ground (arith, drawn, drawn') in
        (
          sym (ap (λ x. x.1.cookie) q) ∙ sets ∙ ap (λ x. some (issued ttl secure x)) e',
          ap (λ x. (s', x)) (handle_me-answer _)
              ∙ ap (λ x. (s', answer x))
                  (resolve-login d e c.username c.password token s s' m.user m given
                    (all ∙ (λ i. (s', ok (same i, e' i))))),
        )

    resolve-logout :
        (e : Draw) (token : String) (s s' t : S)
        → logout crypto store ttl token s ≡ (s', ok tt)
        → (handle_logout crypto store ttl secure (with_cookie token) s).0 ≡ t
        → resolve crypto store ttl secure e (with_cookie token) t ≡ none
    unfolding resolve
    resolve-logout e token s s' t l f = elim (Bool-cases (token == "")) [
      | inl blank ↦ rw blank refl
      | inr given ↦
          let same : s' ≡ t = sym (ap (λ x. x.0) l) ∙ sym (logged_out_store token s given) ∙ f in
          resolve_given e token t _ (ground (arith, eq_iff token "")) (
            authenticate-logout crypto store ttl contract token s t e.now
              (l ∙ (λ i. (same i, ok tt))))
    ]

    -- Over a store that keeps its contract: if the logout of a token succeeds in the store, then the
    -- response to a logout request with that cookie clears it, and a request that still brings the
    -- cookie is answered as not authenticated.
    pub logout-me :
        (e : Draw) (now : Stats) (token : String) (s s' t : S) (resp : Response)
        → logout crypto store ttl token s ≡ (s', ok tt)
        → serve crypto store ttl secure e now post_logout (with_cookie token) s ≡ (t, resp)
        → (resp.cookie ≡ some (expired secure))
          × (serve crypto store ttl secure e now get_me (with_cookie token) t ≡ (t, answer none))
    unfolding serve
    logout-me e now token s s' t resp l f = (
      sym (ap (λ x. x.1.cookie) f) ∙ logged_out_cookie token s,
      ap (λ x. (t, x)) (handle_me-answer _)
          ∙ ap (λ x. (t, answer x)) (resolve-logout e token s s' t l (ap (λ x. x.0) f)),
    )
