-- ===== src/Web/Refusals.antt =====
-- What the API refuses: bad registrations, and requests without a session.
use chat_room.Prelude.{
  ℕ, String, ◌≡◌, refl, ap, ◌≢◌, ◌↔◌, inl, inr, Bool, false, Option, none, some, arith, ◌==◌,
  nat_eq, string_eq, Bool-cases, Option-cases,
}
use text.Mathlib.TextEquality.{eq_iff}
use chat_room.Auth.Text.{trim_space}
use chat_room.Auth.Registration.{IsAcceptable, register_invalid}
use chat_room.Auth.{
  User, invalid_input, Result, ok, err, Store, Crypto, Draw, shown_name, authenticate,
}
use chat_room.Hub.Snapshot.{Stats}
use chat_room.Web.{
  Response, Credentials, Request, Body, plain, printed, reply, handle_rooms, register_response,
  handle_register, resolve, post_register, get_rooms, serve,
}

-- The body is missing or malformed, or its credentials are not acceptable once trimmed.
abbrev pub IsBad : Option Credentials → Type 0
IsBad none = Unit
IsBad (some c) =
    ¬ IsAcceptable (trim_space c.username) c.password
      (shown_name (trim_space c.username) (trim_space c.display_name))

module _ {S : Type 0} (crypto : Crypto) (store : Store S) (ttl : ℕ) (secure : Bool) where
  register_bad :
      (d : Draw) (b : Option Credentials) (cookie : Option String) (s : S)
      → IsBad b
      → (body : Body) × (handle_register crypto store ttl secure d
            (record { cookie = cookie; body = b })
            s
          ≡ (s, reply 400 body))
  unfolding handle_register register_response
  register_bad d none cookie s bad = (plain "invalid request body", refl)
  register_bad d (some c) cookie s bad =
      let (reason, e) =
        register_invalid crypto store ttl d c.username c.password c.display_name s bad in
      (printed (invalid_input reason), rw e refl)

  -- A registration request whose body does not decode, or whose credentials are not acceptable once
  -- trimmed, is answered with 400 and without a cookie, and the store stays as it was.
  pub serve_bad_register :
      (d : Draw) (now : Stats) (req : Request) (s : S)
      → IsBad req.body
      → (resp : Response) × (serve crypto store ttl secure d now post_register req s ≡ (s, resp))
        × (resp.status ≡ 400)
        × (resp.cookie ≡ none)
  unfolding serve reply
  serve_bad_register d now req s bad =
      let (body, e) = register_bad d req.body req.cookie s bad in (reply 400 body, e, refl, refl)

  -- The session of a request: a cookie that is not empty, and the user that it leads to.
  pub record HasSession (d : Draw) (req : Request) (s : S) : Type 0 where
    pub token : String
    pub user : User
    pub sent : req.cookie ≡ some token
    pub given : token ≢ ""
    pub live : authenticate crypto store ttl d.now token s ≡ ok user

  found :
      {user : User} (r : Result User)
      → (elim r as (λ _. Option User) [ ok u ↦ some u | err f ↦ none ]) ≡ some user
      → r ≡ ok user
  found (ok u) e = ground arith
  found (err f) e = absurd (ground arith)

  pub session_of :
      (d : Draw) (req : Request) (s : S) (user : User)
      → resolve crypto store ttl secure d req s ≡ some user
      → HasSession d req s
  unfolding resolve
  session_of d req s user e = elim (Option-cases req.cookie) [
    | inl out ↦ absurd (ground arith)
    | inr (token, sent) ↦ elim (Bool-cases (token == "")) [
      | inl blank ↦ absurd (ground arith)
      | inr given ↦ record {
        token = token;
        user = user;
        sent = sent;
        given = ground (arith, eq_iff token "");
        live = found (authenticate crypto store ttl d.now token s) (ground arith);
      }
    ]
  ]

  pub resolved :
      (d : Draw) (req : Request) (s : S) (h : HasSession d req s)
      → resolve crypto store ttl secure d req s ≡ some h.user
  unfolding resolve
  resolved d req s h =
      let solid : (h.token == "") ≡ false = ground (arith, eq_iff h.token "", h.given) in
      rw (h.sent, resolve, solid, h.live) refl

  rooms_user :
      (now : Stats) (u : Option User)
      → (handle_rooms now u).status ≡ 200
      → (user : User) × (u ≡ some user)
  unfolding handle_rooms reply
  rooms_user now none e = absurd (ground arith)
  rooms_user now (some user) e = (user, refl)

  -- A request for the list of rooms is answered with status 200 exactly if its cookie is not empty and
  -- leads to a user at that time.
  pub serve-rooms_iff :
      (d : Draw) (now : Stats) (req : Request) (s : S)
      → ((serve crypto store ttl secure d now get_rooms req s).1.status ≡ 200) ↔ HasSession d req s
  unfolding serve handle_rooms reply
  serve-rooms_iff d now req s = (
    λ e.
        let (user, r) = rooms_user now (resolve crypto store ttl secure d req s) e in
        session_of d req s user r,
    λ h. ap (λ x. (handle_rooms now x).status) (resolved d req s h),
  )
