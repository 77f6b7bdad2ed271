-- ===== src/Auth/Contract.antt =====
-- What the comments on the interface `Store` of internal/auth/auth.go promise, and what the
-- documentation of bcrypt says, as hypotheses of the theorems that need them.
use Prim.Native.String.{len}
use chat_room.Prelude.{
  Option, false, ◌||◌, ◌==◌, string_eq, Bool, ℕ, ◌<◌, ◌≡◌, String, true, none, some, if◌then◌else◌,
}
use chat_room.Message.{Time}
use chat_room.Auth.{
  Result, User, username_taken, invalid_credentials, no_session, ok, err, Store, Crypto,
}

-- `CredentialsByUsername` returns the account, or `ErrInvalidCredentials` if there is none.
abbrev pub answered : Option (User × String) → Result (User × String)
answered none = err invalid_credentials
answered (some found) = ok found

-- `lasts now expires_at` is how the store compares the clock with an expiry: databases keep times in
-- columns of their own range and precision.
pub record IsStore {S : Type 0} (lasts : Time → Time → Bool) (store : Store S) : Type 0 where
  -- The account of a name, with its hash, and whether there is a session under a token's hash.
  pub account : S → String → Option (User × String)
  pub holds : S → String → Bool
  pub looked_up :
      (username : String) (s : S)
      → store.credentials_by_username username s ≡ answered (account s username)
  -- A new account can be looked up by its name.
  pub created :
      (username hash display_name : String) (s s' : S) (user : User)
      → store.create_user username hash display_name s ≡ (s', ok user)
      → (store.credentials_by_username username s' ≡ ok (user, hash))
        × (user.username ≡ username)
        × (user.display_name ≡ display_name)
  -- A new account takes a name that was free; the other accounts and the sessions stay.
  pub added :
      (username hash display_name : String) (s s' : S) (user : User)
      → store.create_user username hash display_name s ≡ (s', ok user)
      → (account s username ≡ none)
        × ((name : String)
            → account s' name ≡ (if username == name then some (user, hash) else account s name))
        × ((token_hash : String) → holds s' token_hash ≡ holds s token_hash)
  -- A name is given to one account only.
  pub taken :
      (username hash display_name other : String) (s : S) (user : User)
      → store.credentials_by_username username s ≡ ok (user, other)
      → (s' : S) × (store.create_user username hash display_name s ≡ (s', err username_taken))
        × ((name : String) → account s' name ≡ account s name)
        × ((token_hash : String) → holds s' token_hash ≡ holds s token_hash)
  -- Sessions do not bear on the accounts.
  pub kept :
      (username token_hash : String) (user_id : ℕ) (expires_at : Time) (s s' : S)
      → store.create_session token_hash user_id expires_at s ≡ (s', ok tt)
      → store.credentials_by_username username s' ≡ store.credentials_by_username username s
  -- A session leads to its user until it expires.
  pub opened :
      (username hash token_hash : String) (expires_at now : Time) (s s' : S) (user : User)
      → store.credentials_by_username username s ≡ ok (user, hash)
      → store.create_session token_hash user.id expires_at s ≡ (s', ok tt)
      → store.user_by_session_token now token_hash s'
        ≡ (if lasts now expires_at then ok user else err no_session)
  -- A new session is there, and the other sessions stay.
  pub stored :
      (token_hash other : String) (user_id : ℕ) (expires_at : Time) (s s' : S)
      → store.create_session token_hash user_id expires_at s ≡ (s', ok tt)
      → holds s' other ≡ (token_hash == other || holds s other)
  -- Without a session there is no user.
  pub vacant :
      (token_hash : String) (now : Time) (s : S)
      → holds s token_hash ≡ false
      → store.user_by_session_token now token_hash s ≡ err no_session
  -- A deleted session leads to nobody.
  pub deleted :
      (token_hash : String) (now : Time) (s s' : S)
      → store.delete_session token_hash s ≡ (s', ok tt)
      → store.user_by_session_token now token_hash s' ≡ err no_session
  -- Only that session goes, and the accounts stay.
  pub dropped :
      (token_hash : String) (s s' : S)
      → store.delete_session token_hash s ≡ (s', ok tt)
      → ((other : String) → holds s' other ≡ (if token_hash == other then false else holds s other))
        × ((name : String) → account s' name ≡ account s name)
  -- Deleting a missing session is no error, and changes nothing.
  pub missing :
      (token_hash : String) (s : S)
      → holds s token_hash ≡ false
      → (s' : S) × (store.delete_session token_hash s ≡ (s', ok tt))
        × ((other : String) → holds s' other ≡ holds s other)
        × ((name : String) → account s' name ≡ account s name)

-- A password of more than 72 bytes is refused, and a hash is matched by its own password.
pub record IsBcrypt (crypto : Crypto) : Type 0 where
  pub too_long :
      (salt : ℕ) (password : String)
      → 72 < len password
      → crypto.generate_from_password salt password ≡ none
  pub matches :
      (salt : ℕ) (password hash : String)
      → crypto.generate_from_password salt password ≡ some hash
      → crypto.compare_hash_and_password hash password ≡ true
