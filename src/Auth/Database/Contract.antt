-- ===== src/Auth/Database/Contract.antt =====
-- A store that puts such statements behind the interface `Store` keeps its contract.
use text.Mathlib.TextEquality.{eq_iff}
use chat_room.Prelude.{
  Bool-cases, inl, inr, ◌||◌, ◌==◌, drop_key, ℕ, String, ◌≡◌, refl, sym, ap, ◌∙◌, Bool, true, false,
  Option, none, some, [], ◌∷◌, ◌++◌, if◌then◌else◌, nat_eq, string_eq, lookup, lookup-drop_key,
  ==_refl, arith,
}
use chat_room.Message.{Time}
use chat_room.Auth.{User, username_taken, no_session, Result, ok, err, Store}
use chat_room.Auth.Contract.{IsStore, answered}
use chat_room.Auth.Database.{
  Account, Executed, done, failed, Engine, IsSql, found_credentials, found_session, executed,
  fetched, user_of, is_present, Session,
}
use chat_room.Auth.Database.Lookup.{lookup-append, lookup-appended, find_id-lookup}

executed-ok : {C : Type 0} (r : Executed C (Unit {0})) → executed r ≡ ok tt → r ≡ done tt
unfolding executed
executed-ok (done tt) e = refl
executed-ok (failed code) e = absurd (ground arith)

credentials-ok :
    (u hash : String) (user : User) (o : Option Account)
    → found_credentials (fetched (user_of u o)) ≡ ok (user, hash)
    → (a : Account) × (o ≡ some a)
      × (user ≡ record { id = a.id; username = u; display_name = a.display_name })
unfolding found_credentials
credentials-ok u hash user none e = absurd (ground arith)
credentials-ok u hash user (some a) e = (a, refl, ground arith)

live_or_not :
    (b : Bool) (user : User)
    → found_session (fetched (if b then some user else none))
      ≡ (if b then ok user else err no_session)
unfolding found_session
live_or_not true user = refl
live_or_not false user = refl

found-answered : (o : Option (User × String)) → found_credentials (fetched o) ≡ answered o
unfolding found_credentials
found-answered none = refl
found-answered (some found) = refl

user_of-if :
    (u name : String) (a : Account) (o : Option Account)
    → user_of name (if u == name then some a else o) ≡ (
        if u == name
        then some
            (record { id = a.id; username = u; display_name = a.display_name }, a.password_hash)
        else user_of name o)
user_of-if u name a o = elim (Bool-cases (u == name)) [
  | inl same ↦ rw same (
      ap
        (λ v.
          some (record { id = a.id; username = v; display_name = a.display_name }, a.password_hash))
        (ground (arith, eq_iff u name, same)))
  | inr other ↦ rw other refl
]

is_present-if :
    {A : Type 0} (b : Bool) (a : A) (o : Option A)
    → is_present (if b then some a else o) ≡ (b || is_present o)
is_present-if true a o = refl
is_present-if false a o = refl

is_present-unless :
    {A : Type 0} (b : Bool) (o : Option A)
    → is_present (if b then none else o) ≡ (if b then false else is_present o)
is_present-unless true o = refl
is_present-unless false o = refl

absent : {A : Type 0} (o : Option A) → is_present o ≡ false → o ≡ none
absent none h = refl
absent (some a) h = absurd cc

-- The store over an engine: `stamp` puts a time into its column, and `answer` is what `CreateUser`
-- makes of its statement.
module _ {D C T K : Type 0} (e : Engine D C T K) (stamp : Time → T)
    (answer : String → String → Executed C K → Result User) where
  create_user : String → String → String → D → D × Result User
  create_user u hash n d = let (d', r) = e.insert_user u hash n d in (d', answer u n r)

  credentials_by_username : String → D → Result (User × String)
  credentials_by_username u d = found_credentials (e.select_user u d)

  create_session : String → ℕ → Time → D → D × Result (Unit {0})
  create_session th id expires_at d =
      let (d', r) = e.insert_session th id (stamp expires_at) d in (d', executed r)

  user_by_session_token : Time → String → D → Result User
  user_by_session_token now th d = found_session (e.select_session th (stamp now) d)

  delete_session : String → D → D × Result (Unit {0})
  delete_session th d = let (d', r) = e.delete_session th d in (d', executed r)

  unfoldable pub backed : Store D
  unfolding create_user credentials_by_username create_session user_by_session_token delete_session
  backed = record {
    create_user = create_user;
    credentials_by_username = credentials_by_username;
    create_session = create_session;
    user_by_session_token = user_by_session_token;
    delete_session = delete_session;
  }

-- `CreateUser` succeeds only with the id of the new row, and knows a taken name by its code.
pub record IsAnswer {C K : Type 0} (unique : C) (known : ℕ → K)
    (answer : String → String → Executed C K → Result User) : Type 0 where
  pub success :
      (u n : String) (r : Executed C K) (user : User)
      → answer u n r ≡ ok user
      → (id : ℕ) × (r ≡ done (known id))
        × (user ≡ record { id = id; username = u; display_name = n })
  pub conflict : (u n : String) → answer u n (failed (some unique)) ≡ err username_taken

module _ {D C T K : Type 0} {later : T → T → Bool} {unique : C} {known : ℕ → K} (e : Engine D C T K)
    (law : IsSql later unique known e) (stamp : Time → T)
    (answer : String → String → Executed C K → Result User)
    (reads : IsAnswer unique known answer) where
  created-IsStore :
      (u hash n : String) (d d' : D) (user : User)
      → create_user e stamp answer u hash n d ≡ (d', ok user)
      → (credentials_by_username e stamp answer u d' ≡ ok (user, hash))
        × (user.username ≡ u)
        × (user.display_name ≡ n)
  unfolding create_user credentials_by_username found_credentials
  created-IsStore u hash n d d' user h =
      let (id, r, same) = reads.success u n (e.insert_user u hash n d).1 user (ap (λ x. x.1) h) in
      let (free, added) = law.users_added u hash n id d d' (λ i. ((h i).0, r i)) in
      (
        rw
            (
              law.users_read u d',
              added,
              lookup-append u (record { id = id; password_hash = hash; display_name = n })
                  (e.tables d).users free,
              same,
              found_credentials,
            )
            refl,
        ap (λ (x : User). x.username) same,
        ap (λ (x : User). x.display_name) same,
      )

  account : D → String → Option (User × String)
  account d u = user_of u (lookup u (e.tables d).users)

  holds : D → String → Bool
  holds d th = is_present (lookup th (e.tables d).sessions)

  looked_up-IsStore :
      (u : String) (d : D) → credentials_by_username e stamp answer u d ≡ answered (account d u)
  unfolding credentials_by_username account
  looked_up-IsStore u d =
      ap found_credentials (law.users_read u d)
      ∙ found-answered (user_of u (lookup u (e.tables d).users))

  added-IsStore :
      (u hash n : String) (d d' : D) (user : User)
      → create_user e stamp answer u hash n d ≡ (d', ok user)
      → (account d u ≡ none)
        × ((name : String)
            → account d' name ≡ (if u == name then some (user, hash) else account d name))
        × ((th : String) → holds d' th ≡ holds d th)
  unfolding create_user account holds
  added-IsStore u hash n d d' user h =
      let (id, r, same) = reads.success u n (e.insert_user u hash n d).1 user (ap (λ x. x.1) h) in
      let (free, added) = law.users_added u hash n id d d' (λ i. ((h i).0, r i)) in
      let a : Account = record { id = id; password_hash = hash; display_name = n } in
      (
        rw free refl,
        λ name.
            rw (added, lookup-appended u name a (e.tables d).users free, same)
              (user_of-if u name a (lookup name (e.tables d).users)),
        λ th. rw added refl,
      )

  taken-IsStore :
      (u hash n other : String) (d : D) (user : User)
      → credentials_by_username e stamp answer u d ≡ ok (user, other)
      → (d' : D) × (create_user e stamp answer u hash n d ≡ (d', err username_taken))
        × ((name : String) → account d' name ≡ account d name)
        × ((th : String) → holds d' th ≡ holds d th)
  unfolding create_user credentials_by_username account holds
  taken-IsStore u hash n other d user h =
      let (a, there, _) =
        credentials-ok u other user (lookup u (e.tables d).users)
          (sym (ap found_credentials (law.users_read u d)) ∙ h) in
      let (d', refused, same) = law.users_kept u hash n d a there in
      (d', rw (refused, reads.conflict u n) refl, λ name. rw same refl, λ th. rw same refl)

  -- The row that an insert of a session leaves.
  inserted :
      (th : String) (id : ℕ) (expires_at : Time) (d d' : D)
      → create_session e stamp answer th id expires_at d ≡ (d', ok tt)
      → (lookup th (e.tables d).sessions ≡ none)
        × (e.tables d' ≡ record (e.tables d) {
          sessions =
              (e.tables d).sessions
              ++ (th, record { user_id = id; expires_at = stamp expires_at }) ∷ [];
        })
  unfolding create_session
  inserted th id expires_at d d' h =
      let r = executed-ok (e.insert_session th id (stamp expires_at) d).1 (ap (λ x. x.1) h) in
      law.sessions_added th id (stamp expires_at) d d' (λ i. ((h i).0, r i))

  opened-IsStore :
      (u hash th : String) (expires_at now : Time) (d d' : D) (user : User)
      → credentials_by_username e stamp answer u d ≡ ok (user, hash)
      → create_session e stamp answer th user.id expires_at d ≡ (d', ok tt)
      → user_by_session_token e stamp answer now th d'
        ≡ (if later (stamp expires_at) (stamp now) then ok user else err no_session)
  unfolding credentials_by_username user_by_session_token
  opened-IsStore u hash th expires_at now d d' user h k =
      let (a, there, same) =
        credentials-ok u hash user (lookup u (e.tables d).users)
          (sym (ap found_credentials (law.users_read u d)) ∙ h) in
      let (free, added) = inserted th user.id expires_at d d' k in
      rw
        (
          law.sessions_read th (stamp now) d',
          added,
          lookup-append th (record { user_id = user.id; expires_at = stamp expires_at })
              (e.tables d).sessions free,
          same,
          find_id-lookup u a (e.tables d).users (law.primary d) there,
        )
        (live_or_not _ _)

  kept-IsStore :
      (u th : String) (id : ℕ) (expires_at : Time) (d d' : D)
      → create_session e stamp answer th id expires_at d ≡ (d', ok tt)
      → credentials_by_username e stamp answer u d' ≡ credentials_by_username e stamp answer u d
  unfolding credentials_by_username
  kept-IsStore u th id expires_at d d' h =
      let (_, added) = inserted th id expires_at d d' h in
      rw (law.users_read u d', law.users_read u d, added) refl

  stored-IsStore :
      (th other : String) (id : ℕ) (expires_at : Time) (d d' : D)
      → create_session e stamp answer th id expires_at d ≡ (d', ok tt)
      → holds d' other ≡ (th == other || holds d other)
  unfolding holds
  stored-IsStore th other id expires_at d d' h =
      let (free, added) = inserted th id expires_at d d' h in
      let s : Session T = record { user_id = id; expires_at = stamp expires_at } in
      rw (added, lookup-appended th other s (e.tables d).sessions free)
        (is_present-if (th == other) s (lookup other (e.tables d).sessions))

  vacant-IsStore :
      (th : String) (now : Time) (d : D)
      → holds d th ≡ false
      → user_by_session_token e stamp answer now th d ≡ err no_session
  unfolding user_by_session_token found_session holds
  vacant-IsStore th now d h =
      rw (law.sessions_read th (stamp now) d, absent (lookup th (e.tables d).sessions) h) refl

  -- The rows that a delete of a session leaves.
  removed :
      (th : String) (d d' : D)
      → delete_session e stamp answer th d ≡ (d', ok tt)
      → e.tables d' ≡ record (e.tables d) { sessions = drop_key th (e.tables d).sessions }
  unfolding delete_session
  removed th d d' h =
      let r = executed-ok (e.delete_session th d).1 (ap (λ x. x.1) h) in
      law.sessions_dropped th d d' (λ i. ((h i).0, r i))

  deleted-IsStore :
      (th : String) (now : Time) (d d' : D)
      → delete_session e stamp answer th d ≡ (d', ok tt)
      → user_by_session_token e stamp answer now th d' ≡ err no_session
  unfolding user_by_session_token found_session
  deleted-IsStore th now d d' h =
      rw
        (
          law.sessions_read th (stamp now) d',
          removed th d d' h,
          lookup-drop_key th th (e.tables d).sessions,
          ==_refl th,
        )
        refl

  dropped-IsStore :
      (th : String) (d d' : D)
      → delete_session e stamp answer th d ≡ (d', ok tt)
      → ((other : String) → holds d' other ≡ (if th == other then false else holds d other))
        × ((name : String) → account d' name ≡ account d name)
  unfolding holds account
  dropped-IsStore th d d' h = (
    λ other.
        rw (removed th d d' h, lookup-drop_key th other (e.tables d).sessions)
          (is_present-unless (th == other) (lookup other (e.tables d).sessions)),
    λ name. rw (removed th d d' h) refl,
  )

  missing-IsStore :
      (th : String) (d : D)
      → holds d th ≡ false
      → (d' : D) × (delete_session e stamp answer th d ≡ (d', ok tt))
        × ((other : String) → holds d' other ≡ holds d other)
        × ((name : String) → account d' name ≡ account d name)
  unfolding delete_session executed holds account
  missing-IsStore th d h =
      let (d', run, same) =
        law.sessions_missing th d (absent (lookup th (e.tables d).sessions) h) in
      (d', rw run refl, λ other. rw same refl, λ name. rw same refl)

  pub backed-IsStore :
      IsStore (λ now expires_at. later (stamp expires_at) (stamp now)) (backed e stamp answer)
  unfolding backed
  backed-IsStore = record {
    account = account;
    holds = holds;
    looked_up = looked_up-IsStore;
    created = created-IsStore;
    added = added-IsStore;
    taken = taken-IsStore;
    kept = kept-IsStore;
    opened = opened-IsStore;
    stored = stored-IsStore;
    vacant = vacant-IsStore;
    deleted = deleted-IsStore;
    dropped = dropped-IsStore;
    missing = missing-IsStore;
  }
