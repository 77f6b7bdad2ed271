-- ===== src/Auth/Tests.antt =====
-- The service at concrete inputs, over a store with room for one account.
use chat_room.Prelude.{
  Bool-cases, inl, inr, ◌||◌, false, ℕ, String, ◌≡◌, refl, sym, ap, ◌∙◌, Option, none, some, List,
  [], ◌∷◌, arith, ltb, if◌then◌else◌, ◌==◌, nat_eq, string_eq, nat_beq_iff, ==_refl, lookup, assign,
  drop_key, lookup-assign, lookup-drop_key, ok,
}
use text.Mathlib.TextEquality.{eq_iff}
use Prim.Native.String.{len}
use chat_room.Message.{Time}
use chat_room.Auth.Text.{trim_space, trim_left, trim_right}
use chat_room.Auth.Database.{is_present}
use chat_room.Auth.Contract.{answered, IsStore, IsBcrypt}
use chat_room.Auth.Registration.{IsAcceptable, register-ok, register_long_password, register_taken}
use chat_room.Auth.Sessions.{Matches}
use chat_room.Auth.{
  User, username_taken, invalid_credentials, no_session, hashing_failed, store_failed, Result, ok,
  err, Store, Crypto, Draw, validate_credentials, shown_name, open_session, admit, create_account,
  sign_up, register, login,
}

-- An account with its hash, and for each token's hash the user and the expiry.
pub record Database : Type 0 where
  pub account : Option (User × String)
  pub sessions : List (String × (ℕ × Time))

pub make_account :
    String → String → String → Database → Option (User × String) → Database × Result User
make_account username hash display_name s none =
    let user : User = record { id = 1; username = username; display_name = display_name } in
    (record s { account = some (user, hash) }, ok user)
make_account username hash display_name s (some (user, _)) =
    (s, if user.username == username then err username_taken else err store_failed)

unfoldable pub named : String → Option (User × String) → Result (User × String)
named username none = err invalid_credentials
named username (some (user, hash)) =
    if user.username == username then ok (user, hash) else err invalid_credentials

-- The account of a name.
abbrev owned : String → Option (User × String) → Option (User × String)
owned username none = none
owned username (some (user, hash)) = if user.username == username then some (user, hash) else none

pub with_id : ℕ → Option (User × String) → Result User
with_id id none = err no_session
with_id id (some (user, _)) = if user.id == id then ok user else err no_session

pub holder : Time → Option (User × String) → Option (ℕ × Time) → Result User
holder now account none = err no_session
holder now account (some (id, expires_at)) =
    if ltb now expires_at then with_id id account else err no_session

abbrev pub database : Store Database
database = record {
  create_user = λ username hash display_name s. make_account username hash display_name s s.account;
  credentials_by_username = λ username s. named username s.account;
  create_session = λ token_hash user_id expires_at s.
      (record s { sessions = assign token_hash (user_id, expires_at) s.sessions }, ok tt);
  user_by_session_token = λ now token_hash s. holder now s.account (lookup token_hash s.sessions);
  delete_session = λ token_hash s. (record s { sessions = drop_key token_hash s.sessions }, ok tt);
}

-- Hashing that keeps its input, with the limit of bcrypt.
abbrev pub crypto : Crypto
crypto = record {
  generate_from_password = λ salt password. if ltb 72 (len password) then none else some password;
  compare_hash_and_password = λ hash password. hash == password;
  hash_token = λ token. token;
}

crypto-IsBcrypt : IsBcrypt crypto
crypto-IsBcrypt = record {
  too_long = λ salt password long. ground arith;
  matches = λ salt password hash e. ground (arith, eq_iff hash password);
}

made :
    (username hash display_name : String) (s s' : Database) (user : User)
    (a : Option (User × String))
    → make_account username hash display_name s a ≡ (s', ok user)
    → (named username s'.account ≡ ok (user, hash))
      × (user.username ≡ username)
      × (user.display_name ≡ display_name)
unfolding make_account named
made username hash display_name s s' user none e = ground (arith, eq_iff username username)
made username hash display_name s s' user (some (other, h)) e = absurd (ground arith)

refused :
    (username hash display_name other : String) (s : Database) (user : User)
    (a : Option (User × String))
    → named username a ≡ ok (user, other)
    → make_account username hash display_name s a ≡ (s, err username_taken)
unfolding make_account named
refused username hash display_name other s user none e = absurd (ground arith)
refused username hash display_name other s user (some (holder, h)) e = ground arith

found :
    (username hash : String) (user : User) (a : Option (User × String))
    → named username a ≡ ok (user, hash)
    → with_id user.id a ≡ ok user
unfolding named with_id
found username hash user none e = absurd (ground arith)
found username hash user (some (other, h)) e = ground (arith, nat_beq_iff user.id user.id)

owned-answered :
    (username : String) (a : Option (User × String))
    → named username a ≡ answered (owned username a)
unfolding named
owned-answered username none = refl
owned-answered username (some (user, hash)) = elim (Bool-cases (user.username == username)) [
  | inl same ↦ rw same refl
  | inr other ↦ rw other refl
]

only :
    (username hash display_name : String) (s s' : Database) (user : User)
    (a : Option (User × String))
    → make_account username hash display_name s a ≡ (s', ok user)
    → (owned username a ≡ none)
      × ((name : String)
          → owned name s'.account ≡ (if username == name then some (user, hash) else owned name a))
      × (s'.sessions ≡ s.sessions)
unfolding make_account
only username hash display_name s s' user none e =
    (refl, λ name. rw (← ap (λ x. x.0.account) e) (own name), ap (λ x. x.0.sessions) (sym e))
  where
    own :
        (name : String)
        → owned name
            (some (record { id = 1; username = username; display_name = display_name }, hash))
          ≡ (if username == name then some (user, hash) else none)
    own name = ground arith
only username hash display_name s s' user (some (other, h)) e = absurd (ground arith)

held_otherwise :
    (k j : String) (v : ℕ × Time) (m : List (String × (ℕ × Time)))
    → is_present (lookup j (assign k v m)) ≡ (k == j || is_present (lookup j m))
held_otherwise k j v m =
    rw (lookup-assign k j v m)
      (elim (Bool-cases (k == j)) [ inl same ↦ rw same refl | inr other ↦ rw other refl ])

dropped_otherwise :
    (k j : String) (m : List (String × (ℕ × Time)))
    → is_present (lookup j (drop_key k m)) ≡ (if k == j then false else is_present (lookup j m))
dropped_otherwise k j m =
    rw (lookup-drop_key k j m)
      (elim (Bool-cases (k == j)) [ inl same ↦ rw same refl | inr other ↦ rw other refl ])

kept_missing :
    (k j : String) (m : List (String × (ℕ × Time)))
    → is_present (lookup k m) ≡ false
    → (if k == j then false else is_present (lookup j m)) ≡ is_present (lookup j m)
kept_missing k j m e =
    ground (arith, eq_iff k j, e, λ (p : k ≡ j). ap (λ x. is_present (lookup x m)) p)

vacant_of :
    (now : Time) (a : Option (User × String)) (o : Option (ℕ × Time))
    → is_present o ≡ false
    → holder now a o ≡ err no_session
unfolding holder
vacant_of now a none e = refl
vacant_of now a (some p) e = absurd cc

pub database-IsStore : IsStore ltb database
unfolding holder
database-IsStore = record {
  created = λ username hash display_name s s' user e.
      made username hash display_name s s' user s.account e;
  account = λ s name. owned name s.account;
  holds = λ s th. is_present (lookup th s.sessions);
  looked_up = λ username s. owned-answered username s.account;
  added = λ username hash display_name s s' user e.
      let (free, same, sessions) = only username hash display_name s s' user s.account e in
      (free, same, λ th. ap (λ x. is_present (lookup th x)) sessions);
  taken = λ username hash display_name other s user e.
      (s, refused username hash display_name other s user s.account e, λ name. refl, λ th. refl);
  stored = λ th other user_id expires_at s s' e.
      ap (λ x. is_present (lookup other x.0.sessions)) (sym e)
      ∙ held_otherwise th other (user_id, expires_at) s.sessions;
  vacant = λ th now s e. vacant_of now s.account (lookup th s.sessions) e;
  dropped = λ th s s' e. (
    λ other.
        ap (λ x. is_present (lookup other x.0.sessions)) (sym e)
        ∙ dropped_otherwise th other s.sessions,
    λ name. ap (λ x. owned name x.0.account) (sym e),
  );
  missing = λ th s e. (
    _,
    refl,
    λ other. dropped_otherwise th other s.sessions ∙ kept_missing th other s.sessions e,
    λ name. refl,
  );
  kept = λ username token_hash user_id expires_at s s' e. ground arith;
  opened = λ username hash token_hash expires_at now s s' user e f.
      ap (λ x. holder now x.0.account (lookup token_hash x.0.sessions)) (sym f)
      ∙ rw
          (
            lookup-assign token_hash token_hash (user.id, expires_at) s.sessions,
            ==_refl token_hash,
            holder,
            found username hash user s.account e,
          )
          refl;
  deleted = λ token_hash now s s' e.
      rw (← ap (λ x. x.0) e, lookup-drop_key token_hash token_hash s.sessions, ==_refl token_hash)
        refl;
}

abbrev pub draw : Draw
draw = record { salt = 5; token = some "t0k"; now = 100 }

abbrev pub empty : Database
empty = record { account = none; sessions = [] }

abbrev pub ann : User
ann = record { id = 1; username = "ann"; display_name = "Ann" }

abbrev pub registered : Database
registered = record { account = some (ann, "open sesame"); sessions = ("t0k", (1, 150)) ∷ [] }

register_test :
    register crypto database 50 draw " ann " "open sesame" "Ann" empty
    ≡ (registered, ok (ann, "t0k"))
unfolding register sign_up create_account admit open_session validate_credentials trim_space
    trim_left trim_right make_account assign
register_test = refl

acceptable : IsAcceptable "ann" "open sesame" "Ann"
acceptable = record {
  username_min = omega arith;
  username_max = omega arith;
  password_min = omega arith;
  password_max = omega arith;
  display_name_given = λ e. cc;
  display_name_max = omega arith;
}

register-ok_example :
    IsAcceptable
      (trim_space " ann ")
      "open sesame"
      (shown_name (trim_space " ann ") (trim_space "Ann"))
    × (ann.username ≡ trim_space " ann ")
    × (ann.display_name ≡ shown_name (trim_space " ann ") (trim_space "Ann"))
    × ((hash : String) × (crypto.generate_from_password 5 "open sesame" ≡ some hash)
        × (database.credentials_by_username (trim_space " ann ") registered ≡ ok (ann, hash)))
    × ((now : Time)
        → database.user_by_session_token now (crypto.hash_token "t0k") registered
          ≡ (if ltb now 150 then ok ann else err no_session))
register-ok_example =
    register-ok crypto database 50 draw database-IsStore " ann " "open sesame" "Ann" "t0k" empty
      registered ann register_test

register_taken_example :
    (s' : Database) × (register crypto database 50 draw "ann" "open sesame" "Ann" registered
      ≡ (s', err username_taken))
    × ((name : String)
        → database-IsStore.account s' name ≡ database-IsStore.account registered name)
    × ((token_hash : String)
        → database-IsStore.holds s' token_hash ≡ database-IsStore.holds registered token_hash)
unfolding trim_space trim_left trim_right named
register_taken_example =
    register_taken crypto database 50 draw database-IsStore "ann" "open sesame" "Ann" "open sesame"
      "open sesame" registered ann
      (record {
        username_min = omega arith;
        username_max = omega arith;
        password_min = omega arith;
        password_max = omega arith;
        display_name_given = λ e. cc;
        display_name_max = omega arith;
      })
      refl refl

-- 73 bytes.
abbrev long_password : String
long_password = "0123456789012345678901234567890123456789012345678901234567890123456789012"

register_long_password_example :
    register crypto database 50 draw "ann" long_password "" empty ≡ (empty, err hashing_failed)
unfolding trim_space trim_left trim_right
register_long_password_example =
    register_long_password crypto database 50 draw "ann" long_password "" empty crypto-IsBcrypt
      (record {
        username_min = omega arith;
        username_max = omega arith;
        password_min = omega arith;
        password_max = omega arith;
        display_name_given = λ e. cc;
        display_name_max = omega arith;
      })
      (omega arith)

unfoldable pub matches : Matches crypto database 50 "ann" "open sesame" registered
unfolding named trim_space trim_left trim_right
matches = record { user = ann; hash = "open sesame"; found = refl; same = refl }

login_test :
    login crypto database 50 draw "ann" "open sesame" registered ≡ (registered, ok (ann, "t0k"))
unfolding login admit open_session trim_space trim_left trim_right named assign
login_test = refl
