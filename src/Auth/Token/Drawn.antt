-- ===== src/Auth/Token/Drawn.antt =====
-- Sessions whose tokens are drawn as random bytes.
use chat_room.Prelude.{
  ℕ, ◌+◌, String, Bool, ◌≡◌, ◌≢◌, sym, ap, ◌∙◌, Option, some, List, [], length, arith,
  if◌then◌else◌,
}
use mathlib.Core.Path.{subst}
use text.Mathlib.TextBridge.{to_list, to_list-of_list}
use chat_room.Message.{Time}
use chat_room.Auth.{User, Store, ok, err, no_session, login, authenticate}
use chat_room.Auth.Contract.{IsStore}
use chat_room.Auth.Registration.{admit-ok}
use chat_room.Auth.Sessions.{Matches, login-admit, authenticate-login}
use chat_room.Auth.Token.{crypto_of, drawing}
use chat_room.Auth.Token.RoundTrip.{AllBytes, IsToken, new_token-IsToken}

long_ne : (t : String) → length (to_list t) ≡ 43 → t ≢ ""
long_ne t h e =
    let p : 43 ≡ 0 = sym h ∙ ap (λ x. length (to_list x)) e ∙ ap length (to_list-of_list []) in
    omega (arith, p)

-- A token of 32 bytes is not empty.
pub IsToken-ne :
    (bytes : List ℕ) (token : String) → length bytes ≡ 32 → IsToken bytes token → token ≢ ""
IsToken-ne bytes token n i = long_ne token (ground (arith, i.long, n))

module _ {S : Type 0} (generate : ℕ → String → Option String) (compare : String → String → Bool)
    (sha256 : String → List ℕ) (store : Store S) (ttl : ℕ) {lasts : Time → Time → Bool}
    (contract : IsStore lasts store) where
  -- Over a store that keeps its contract: a login with a password that matches, for which the random
  -- source gives 32 bytes, hands out as its token the 43 characters of their URL-safe base64 form; and
  -- the token leads to the user until the session expires by the store's clock, and to nobody from
  -- then on.
  pub login-IsToken :
      (salt : ℕ) (bytes : List ℕ) (drawn_at now : Time) (username password token : String)
      (s s' : S) (user : User)
      → AllBytes bytes
      → length bytes ≡ 32
      → Matches (crypto_of generate compare sha256) store ttl username password s
      → login
          (crypto_of generate compare sha256)
          store
          ttl
          (drawing salt (some bytes) drawn_at)
          username
          password
          s
        ≡ (s', ok (user, token))
      → IsToken bytes token
        × (length (to_list token) ≡ 43)
        × (authenticate (crypto_of generate compare sha256) store ttl now token s'
            ≡ (if lasts now (drawn_at + ttl) then ok user else err no_session))
  login-IsToken salt bytes drawn_at now username password token s s' user hb n m e =
      let crypto = crypto_of generate compare sha256 in
      let d = drawing salt (some bytes) drawn_at in
      let (_, drawn, _) =
        admit-ok crypto store ttl d m.user user token s s'
          (sym (login-admit crypto store ttl d username password s m) ∙ e) in
      let (t, f, i) = new_token-IsToken bytes hb in
      let j = subst (IsToken bytes) (given t token (sym f ∙ drawn)) i in
      let long : length (to_list token) ≡ 43 = ground (arith, j.long, n) in
      (
        j,
        long,
        authenticate-login crypto store ttl contract d username password token s s' user now m
            (long_ne token long) e,
      )
    where
      given : (x y : String) → some x ≡ some y → x ≡ y
      given x y p = cc
