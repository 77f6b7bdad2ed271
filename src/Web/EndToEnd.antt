-- ===== src/Web/EndToEnd.antt =====
-- A login and the session after it, through the mux, the middleware and the handlers of internal/web,
-- the service of internal/auth and its SQLite store.
pub mod Tests
use chat_room.Prelude.{
  ℕ, ◌+◌, String, ◌≡◌, ◌≢◌, refl, sym, ap, ◌∙◌, Bool, true, false, Option, none, some, List, ltb, ℤ,
  length, if◌then◌else◌, has_prefix, has_suffix,
}
use chat_room.Message.{Time}
use chat_room.Clock.Range.{IsNear, ltz-unix_nano}
use chat_room.Config.{Config}
use chat_room.Hub.Snapshot.{Stats}
use chat_room.Auth.{Store, Crypto, Draw}
use chat_room.Auth.Sessions.{Matches}
use chat_room.Auth.Database.{Engine, IsSql}
use chat_room.Auth.Sqlite.{sqlite_unique_violation, new_sqlite}
use chat_room.Auth.Sqlite.Contract.{lasts, later, new_sqlite-IsStore}
use chat_room.Auth.Token.{crypto_of, drawing}
use chat_room.Auth.Token.RoundTrip.{AllBytes, IsToken, new_token-IsToken}
use chat_room.Auth.Token.Drawn.{IsToken-ne}
use chat_room.Web.{Request, Response, Credentials, Route, post_login, get_me, serve}
use chat_room.Web.Sessions.{with_cookie, answer, issued, live_until, login-me}
use chat_room.Web.Routing.Mux.{IsMux}
use chat_room.Web.Routing.{
  patterns, Mux, Answer, responded, answer as answer_of, dispatch, handle_request,
}

module _ {S : Type 0} (mux : Mux) (mux_law : IsMux mux patterns) (crypto : Crypto) (store : Store S)
    (ttl : ℕ) (format_int : ℕ → String) (accept : List String → Bool) (c : Config) where
  -- The API's answer to a route.
  through : Draw → Stats → Route → Request → S → S × Answer
  through d now route req s =
      let (s', r) = serve crypto store ttl c.secure_cookies d now route req s in (s', responded r)

  to_login :
      (d : Draw) (now : Stats) (req : Request) (s : S)
      → handle_request mux crypto store ttl format_int accept c d now "POST" "/api/login" req s
        ≡ through d now post_login req s
  unfolding handle_request patterns has_suffix dispatch answer_of through
  to_login d now req s =
      ap (λ x. dispatch mux crypto store ttl format_int accept c x d now "/api/login" req s)
        (mux_law.exact.1.1.0 refl)

  to_me :
      (d : Draw) (now : Stats) (req : Request) (s : S)
      → handle_request mux crypto store ttl format_int accept c d now "GET" "/api/me" req s
        ≡ through d now get_me req s
  unfolding handle_request patterns has_suffix dispatch answer_of through
  to_me d now req s =
      ap (λ x. dispatch mux crypto store ttl format_int accept c x d now "/api/me" req s)
        (mux_law.exact.1.1.1.1.0 refl)

  response : Answer → Response → Response
  response (responded r) other = r
  response a other = other

  through_only :
      (r : S × Response) (s' : S) (resp : Response)
      → ◌≡◌ {A = S × Answer} (r.0, responded r.1) (s', responded resp)
      → r ≡ (s', resp)
  unfolding response
  through_only r s' resp e = ap (λ x. (x.0, response x.1 resp)) e

module _ {D : Type 0} (generate : ℕ → String → Option String) (compare : String → String → Bool)
    (sha256 : String → List ℕ) (e : Engine D ℕ ℤ (Option ℕ))
    (law : IsSql later sqlite_unique_violation some e) (mux : Mux) (mux_law : IsMux mux patterns)
    (ttl : ℕ) (format_int : ℕ → String) (accept : List String → Bool) (c : Config) where
  -- Over an SQLite engine and a mux that do what their documentation says: if a POST to /api/login with a password that
  -- matches is answered with 200, and the random source gave 32 bytes, the response sets a session
  -- cookie whose value is their URL-safe base64 form; and a GET of /api/me that brings the cookie back
  -- is answered with the user's names exactly before the session's expiry, and as not authenticated
  -- from then on, if the clock and the expiry are less than 2 ^ 63 nanoseconds off 1970.
  pub login-me_served :
      (salt : ℕ) (bytes : List ℕ) (opened_at : Time) (d : Draw) (now : Stats) (given : Credentials)
      (req : Request) (s s' : D) (resp : Response)
      → AllBytes bytes
      → length bytes ≡ 32
      → (m : Matches
          (crypto_of generate compare sha256)
          (new_sqlite e)
          ttl
          given.username
          given.password
          s)
      → req.body ≡ some given
      → IsNear d.now
      → IsNear (opened_at + ttl)
      → handle_request mux
          (crypto_of generate compare sha256)
          (new_sqlite e)
          ttl
          format_int
          accept
          c
          (drawing salt (some bytes) opened_at)
          now
          "POST"
          "/api/login"
          req
          s
        ≡ (s', responded resp)
      → resp.status ≡ 200
      → (token : String) × IsToken bytes token
        × (resp.cookie ≡ some (issued ttl c.secure_cookies token))
        × (handle_request mux
              (crypto_of generate compare sha256)
              (new_sqlite e)
              ttl
              format_int
              accept
              c
              d
              now
              "GET"
              "/api/me"
              (with_cookie token)
              s'
            ≡ (s', responded (answer (if ltb d.now (opened_at + ttl) then some m.user else none))))
  unfolding through
  login-me_served salt bytes opened_at d now given req s s' resp hb n m b near end f k =
      let crypto = crypto_of generate compare sha256 in
      let store = new_sqlite e in
      let first = drawing salt (some bytes) opened_at in
      let (token, drawn, i) = new_token-IsToken bytes hb in
      let won =
        through_only mux mux_law crypto store ttl format_int accept c
          (serve crypto store ttl c.secure_cookies first now post_login req s) s' resp
          (sym (to_login mux mux_law crypto store ttl format_int accept c first now req s) ∙ f) in
      let (sets, seen) =
        login-me crypto store ttl c.secure_cookies (new_sqlite-IsStore e law) first d now given req
          token s s' resp m b drawn (IsToken-ne bytes token n i) won k in
      (
        token,
        i,
        sets,
        to_me mux mux_law crypto store ttl format_int accept c d now (with_cookie token) s'
            ∙ ap (λ x. (x.0, responded x.1)) seen
            ∙ ap (λ b. (s', responded (answer (if b then some m.user else none))))
                (ltz-unix_nano d.now (opened_at + ttl) near end),
      )
