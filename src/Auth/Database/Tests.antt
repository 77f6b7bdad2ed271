-- ===== src/Auth/Database/Tests.antt =====
-- An engine with room for one account, which does what SQL says.
use chat_room.Prelude.{
  ℕ, String, ◌≡◌, refl, sym, ap, Bool, Option, none, some, List, [], ◌∷◌, ◌++◌, Distinct,
  if◌then◌else◌, ◌==◌, nat_eq, string_eq, lookup, drop_key, Bool-cases, inl, inr, arith,
}
use chat_room.Auth.Database.{
  Account, Session, Tables, Executed, done, failed, Engine, IsSql, fetched, user_of, ids, joined,
}

-- Nothing is dropped that is not there.
drop_key-missing :
    {V : Type 0} (k : String) (m : List (String × V)) → lookup k m ≡ none → drop_key k m ≡ m
unfolding lookup drop_key
drop_key-missing k [] e = refl
drop_key-missing k ((j, v) ∷ m) e = elim (Bool-cases (j == k)) [
  | inl here ↦ absurd (ground (arith, here, e))
  | inr other ↦ rw other (ap (λ x. (j, v) ∷ x) (drop_key-missing k m (ground (arith, other, e))))
]

pub record OneAccount (T : Type 0) : Type 0 where
  pub account : Option (String × Account)
  pub sessions : List (String × Session T)

abbrev pub listed : Option (String × Account) → List (String × Account)
listed none = []
listed (some p) = p ∷ []

abbrev pub tables_of : {T : Type 0} → OneAccount T → Tables T
tables_of d = record { users = listed d.account; sessions = d.sessions }

module _ {C T K : Type 0} (later : T → T → Bool) (unique : C) (known : ℕ → K) where
  abbrev pub insert_account :
      String → Account → OneAccount T → Option (String × Account) → OneAccount T × Executed C K
  insert_account username a d none = (record d { account = some (username, a) }, done (known a.id))
  insert_account username a d (some (taken, b)) =
      (d, failed (if taken == username then some unique else none))

  abbrev pub insert_token :
      String → Session T → OneAccount T → Option (Session T) → OneAccount T × Executed C (Unit {0})
  insert_token th s d none = (record d { sessions = d.sessions ++ (th, s) ∷ [] }, done tt)
  insert_token th s d (some other) = (d, failed (some unique))

  abbrev pub one_account : Engine (OneAccount T) C T K
  one_account = record {
    tables = tables_of;
    insert_user = λ username hash display_name d.
        insert_account username
          (record { id = 1; password_hash = hash; display_name = display_name }) d d.account;
    select_user = λ username d. fetched (user_of username (lookup username (tables_of d).users));
    insert_session = λ th user_id expires_at d.
        insert_token th (record { user_id = user_id; expires_at = expires_at }) d
          (lookup th d.sessions);
    select_session =
        λ th now d. fetched (joined later now (lookup th d.sessions) (tables_of d).users);
    delete_session = λ th d. (record d { sessions = drop_key th d.sessions }, done tt);
  }

  primary_of : (a : Option (String × Account)) → Distinct (ids (listed a))
  primary_of none = tt
  primary_of (some (u, a)) = (refl, tt)

  added_of :
      (u hash n : String) (id : ℕ) (d d' : OneAccount T) (o : Option (String × Account))
      → ((a b : ℕ) → known a ≡ known b → a ≡ b)
      → d.account ≡ o
      → insert_account u (record { id = 1; password_hash = hash; display_name = n }) d o
        ≡ (d', done (known id))
      → (lookup u (listed d.account) ≡ none)
        × (tables_of d' ≡ record (tables_of d) {
          users =
              listed d.account
              ++ (u, record { id = id; password_hash = hash; display_name = n }) ∷ [];
        })
  unfolding lookup
  added_of u hash n id d d' none inj p e =
      let same : known 1 ≡ known id = ground (arith, e) in
      rw (p, ← inj 1 id same) (refl, ap (λ x. tables_of x.0) (sym e))
  added_of u hash n id d d' (some (v, b)) inj p e = absurd (ground (arith, e))

  kept_of :
      (u hash n : String) (d : OneAccount T) (a : Account) (o : Option (String × Account))
      → lookup u (listed o) ≡ some a
      → insert_account u (record { id = 1; password_hash = hash; display_name = n }) d o
        ≡ (d, failed (some unique))
  unfolding lookup
  kept_of u hash n d a none e = cc
  kept_of u hash n d a (some (v, b)) e = elim (Bool-cases (v == u)) [
    | inl here ↦ rw here refl
    | inr other ↦ absurd (ground arith)
  ]

  token_of :
      (th : String) (s : Session T) (d d' : OneAccount T) (o : Option (Session T))
      → lookup th d.sessions ≡ o
      → insert_token th s d o ≡ (d', done tt)
      → (lookup th d.sessions ≡ none)
        × (tables_of d' ≡ record (tables_of d) { sessions = d.sessions ++ (th, s) ∷ [] })
  token_of th s d d' none p e = (p, ap tables_of (sym (ap (λ x. x.0) e)))
  token_of th s d d' (some other) p e = absurd (ground (arith, e))

  pub one_account-IsSql :
      ((a b : ℕ) → known a ≡ known b → a ≡ b) → IsSql later unique known one_account
  one_account-IsSql inj = record {
    primary = λ d. primary_of d.account;
    users_added = λ u hash n id d d' e. added_of u hash n id d d' d.account inj refl e;
    users_kept = λ u hash n d a e. (d, kept_of u hash n d a d.account e, refl);
    users_read = λ u d. refl;
    sessions_added = λ th id expires_at d d' e. token_of th _ d d' (lookup th d.sessions) refl e;
    sessions_read = λ th now d. refl;
    sessions_dropped = λ th d d' e. ap tables_of (sym (ap (λ x. x.0) e));
    sessions_missing = λ th d e.
        (_, refl, λ i. record (tables_of d) { sessions = drop_key-missing th d.sessions e i });
  }
