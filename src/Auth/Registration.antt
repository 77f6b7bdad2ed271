-- ===== src/Auth/Registration.antt =====
-- `Register`: what it refuses, and what it creates.
use chat_room.Prelude.{
  ℕ, ◌+◌, ◌≤◌, ◌<◌, String, ◌≡◌, refl, sym, ap, ◌∙◌, ◌≢◌, ◌↔◌, inl, inr, none, some, arith,
  if◌then◌else◌, nat_eq, string_eq, Option-cases, Bool,
}
use text.Mathlib.TextEquality.{eq_iff}
use Prim.Native.String.{len}
use chat_room.Auth.Text.{trim_space}
use chat_room.Auth.Contract.{IsStore, IsBcrypt}
use chat_room.Auth.{
  no_session, Time, sign_up, User, Reason, Error, invalid_input, hashing_failed, username_taken,
  Result, ok, err, Store, Crypto, Draw, validate_credentials, shown_name, admit, create_account,
  register,
}

-- The lengths are in bytes.
pub record IsAcceptable (username password display_name : String) : Type 0 where
  pub username_min : 3 ≤ len username
  pub username_max : len username ≤ 32
  pub password_min : 8 ≤ len password
  pub password_max : len password ≤ 128
  pub display_name_given : display_name ≢ ""
  pub display_name_max : len display_name ≤ 32

IsAcceptable-of_none : (u p n : String) → validate_credentials u p n ≡ none → IsAcceptable u p n
unfolding validate_credentials
IsAcceptable-of_none u p n e = ground (arith, eq_iff n "")

none_of_acceptable : (u p n : String) → IsAcceptable u p n → validate_credentials u p n ≡ none
unfolding validate_credentials
none_of_acceptable u p n a = ground (arith, eq_iff n "")

-- The credentials pass exactly if, in bytes, the username has 3 to 32, the password 8 to 128, and the
-- display name 1 to 32.
pub validate_credentials-IsAcceptable_iff :
    (u p n : String) → (validate_credentials u p n ≡ none) ↔ IsAcceptable u p n
validate_credentials-IsAcceptable_iff u p n = (IsAcceptable-of_none u p n, none_of_acceptable u p n)

-- An account was made and a session opened: what `register` went through.
record Passes {S : Type 0} (crypto : Crypto) (store : Store S) (ttl : ℕ) (d : Draw) (u p n : String)
    (user : User) (token : String) (s s' : S) : Type 0 where
  valid : validate_credentials u p n ≡ none
  hash : String
  hashed : crypto.generate_from_password d.salt p ≡ some hash
  mid : S
  created : store.create_user u hash n s ≡ (mid, ok user)
  drawn : d.token ≡ some token
  opened : store.create_session (crypto.hash_token token) user.id (d.now + ttl) mid ≡ (s', ok tt)

module _ {S : Type 0} (crypto : Crypto) (store : Store S) (ttl : ℕ) (d : Draw) where
  -- A session that was opened is under the token's hash, with the expiry that the clock gives.
  pub admit-ok :
      (user user' : User) (token : String) (s s' : S)
      → admit crypto store ttl d user s ≡ (s', ok (user', token))
      → (user' ≡ user)
        × (d.token ≡ some token)
        × (store.create_session (crypto.hash_token token) user.id (d.now + ttl) s ≡ (s', ok tt))
  unfolding admit
  admit-ok user user' token s s' e = ground arith

  create_account-ok :
      (u hash n token : String) (s s' : S) (user : User)
      → create_account crypto store ttl d u hash n s ≡ (s', ok (user, token))
      → (mid : S) × (store.create_user u hash n s ≡ (mid, ok user))
        × (d.token ≡ some token)
        × (store.create_session (crypto.hash_token token) user.id (d.now + ttl) mid ≡ (s', ok tt))
  unfolding create_account
  create_account-ok u hash n token s s' user e = made (store.create_user u hash n s) refl e
    where
      made :
          (x : S × Result User)
          → store.create_user u hash n s ≡ x
          → (elim x.1 [ err q ↦ (x.0, err q) | ok new ↦ admit crypto store ttl d new x.0 ])
            ≡ (s', ok (user, token))
          → (mid : S) × (store.create_user u hash n s ≡ (mid, ok user))
            × (d.token ≡ some token)
            × (store.create_session (crypto.hash_token token) user.id (d.now + ttl) mid
                ≡ (s', ok tt))
      made (mid, err q) h f = ground arith
      made (mid, ok new) h f =
          let (same, drawn, opened) = admit-ok new user token mid s' f in
          (mid, h ∙ ap (λ x. (mid, ok x)) (sym same), drawn, rw same opened)

  sign_up-Passes :
      (u p n token : String) (s s' : S) (user : User)
      → sign_up crypto store ttl d u p n s ≡ (s', ok (user, token))
      → Passes crypto store ttl d u p n user token s s'
  unfolding sign_up
  sign_up-Passes u p n token s s' user e = elim (Option-cases (validate_credentials u p n)) [
    | inr (reason, v) ↦ absurd (ground arith)
    | inl v ↦ elim (Option-cases (crypto.generate_from_password d.salt p)) [
      | inl h ↦ absurd (ground arith)
      | inr (hash, h) ↦
          let (mid, created, drawn, opened) =
            create_account-ok u hash n token s s' user (ground arith) in
          record {
            valid = v;
            hash = hash;
            hashed = h;
            mid = mid;
            created = created;
            drawn = drawn;
            opened = opened;
          }
    ]
  ]

  sign_up_hashed :
      (u p n hash : String) (s : S)
      → IsAcceptable u p n
      → crypto.generate_from_password d.salt p ≡ some hash
      → sign_up crypto store ttl d u p n s ≡ create_account crypto store ttl d u hash n s
  unfolding sign_up
  sign_up_hashed u p n hash s a h = rw (none_of_acceptable u p n a, sign_up, h) refl

  create_account_failed :
      (u hash n : String) (s s' : S) (e : Error)
      → store.create_user u hash n s ≡ (s', err e)
      → create_account crypto store ttl d u hash n s ≡ (s', err e)
  unfolding create_account
  create_account_failed u hash n s s' e f = ground arith

  module _ {lasts : Time → Time → Bool} (contract : IsStore lasts store) where
    -- Over a store that keeps its contract: a registration that succeeds has acceptable input once
    -- trimmed, returns a user with the trimmed name and the shown name, and leaves an account under the
    -- trimmed name with the hash of the password, and a session under the token's hash that leads to
    -- the user until it expires by the store's clock, and to nobody from then on.
    pub register-ok :
        (username password display_name token : String) (s s' : S) (user : User)
        → register crypto store ttl d username password display_name s ≡ (s', ok (user, token))
        → IsAcceptable
            (trim_space username)
            password
            (shown_name (trim_space username) (trim_space display_name))
          × (user.username ≡ trim_space username)
          × (user.display_name ≡ shown_name (trim_space username) (trim_space display_name))
          × ((hash : String) × (crypto.generate_from_password d.salt password ≡ some hash)
              × (store.credentials_by_username (trim_space username) s' ≡ ok (user, hash)))
          × ((now : Time)
              → store.user_by_session_token now (crypto.hash_token token) s'
                ≡ (if lasts now (d.now + ttl) then ok user else err no_session))
    unfolding register
    register-ok username password display_name token s s' user e =
        let u = trim_space username in
        let n = shown_name u (trim_space display_name) in
        let p = sign_up-Passes u password n token s s' user e in
        let c = contract.created u p.hash n s p.mid user p.created in
        (
          IsAcceptable-of_none u password n p.valid,
          c.1,
          c.2,
          (
            p.hash,
            p.hashed,
            contract.kept u (crypto.hash_token token) user.id (d.now + ttl) p.mid s' p.opened ∙ c.0,
          ),
          λ now.
              contract.opened u p.hash (crypto.hash_token token) (d.now + ttl) now p.mid s' user c.0
                p.opened,
        )

    -- Over a store that keeps its contract: an acceptable registration whose password can be hashed, with
    -- a name that has an account, is refused with `ErrUsernameTaken`, and the store keeps its accounts and
    -- sessions.
    pub register_taken :
        (username password display_name hash other : String) (s : S) (user : User)
        → IsAcceptable
            (trim_space username)
            password
            (shown_name (trim_space username) (trim_space display_name))
        → crypto.generate_from_password d.salt password ≡ some hash
        → store.credentials_by_username (trim_space username) s ≡ ok (user, other)
        → (s' : S) × (register crypto store ttl d username password display_name s
            ≡ (s', err username_taken))
          × ((name : String) → contract.account s' name ≡ contract.account s name)
          × ((token_hash : String) → contract.holds s' token_hash ≡ contract.holds s token_hash)
    unfolding register
    register_taken username password display_name hash other s user a h c =
        let u = trim_space username in
        let n = shown_name u (trim_space display_name) in
        let (s', e, accounts, sessions) = contract.taken u hash n other s user c in
        (
          s',
          sign_up_hashed u password n hash s a h
              ∙ create_account_failed u hash n s s' username_taken e,
          accounts,
          sessions,
        )

  sign_up_invalid :
      (u p n : String) (s : S)
      → ¬ IsAcceptable u p n
      → (reason : Reason) × (sign_up crypto store ttl d u p n s ≡ (s, err (invalid_input reason)))
  unfolding sign_up
  sign_up_invalid u p n s bad = elim (Option-cases (validate_credentials u p n)) [
    | inl v ↦ absurd (bad (IsAcceptable-of_none u p n v))
    | inr (reason, v) ↦ (reason, rw (v, sign_up) refl)
  ]

  -- Input that is not acceptable, once trimmed, is refused with an invalid-input error, and the store
  -- stays as it was.
  pub register_invalid :
      (username password display_name : String) (s : S)
      → ¬ IsAcceptable
          (trim_space username)
          password
          (shown_name (trim_space username) (trim_space display_name))
      → (reason : Reason) × (register crypto store ttl d username password display_name s
          ≡ (s, err (invalid_input reason)))
  unfolding register
  register_invalid username password display_name s bad = sign_up_invalid _ password _ s bad

  sign_up_long :
      (u p n : String) (s : S)
      → IsBcrypt crypto
      → IsAcceptable u p n
      → 72 < len p
      → sign_up crypto store ttl d u p n s ≡ (s, err hashing_failed)
  unfolding sign_up
  sign_up_long u p n s b a long =
      rw (none_of_acceptable u p n a, sign_up, b.too_long d.salt p long) refl

  -- With bcrypt's limit of 72 bytes: input that is acceptable, with a password of more than 72 bytes,
  -- is refused with the hashing error, and the store stays as it was.
  pub register_long_password :
      (username password display_name : String) (s : S)
      → IsBcrypt crypto
      → IsAcceptable
          (trim_space username)
          password
          (shown_name (trim_space username) (trim_space display_name))
      → 72 < len password
      → register crypto store ttl d username password display_name s ≡ (s, err hashing_failed)
  unfolding register
  register_long_password username password display_name s b a long =
      sign_up_long _ password _ s b a long
