-- ===== src/Auth/Sqlite/Contract.antt =====
-- The SQLite store keeps the contract of the interface `Store`.
use chat_room.Prelude.{ℕ, String, ◌≡◌, refl, Bool, Option, none, some, ℤ, nat_eq, string_eq, arith}
use chat_room.Message.{Time}
use chat_room.Clock.{unix_nano, ltz}
use chat_room.Auth.{User, ok}
use chat_room.Auth.Contract.{IsStore}
use chat_room.Auth.Database.{Executed, done, failed, Engine, IsSql}
use chat_room.Auth.Database.Contract.{IsAnswer, backed, backed-IsStore}
use chat_room.Auth.Sqlite.{sqlite_unique_violation, created, new_sqlite}

-- How the column compares the clock with an expiry.
abbrev pub lasts : Time → Time → Bool
lasts now expires_at = ltz (unix_nano now) (unix_nano expires_at)

abbrev pub later : ℤ → ℤ → Bool
later expires_at now = ltz now expires_at

created-ok :
    (u n : String) (r : Executed ℕ (Option ℕ)) (user : User)
    → created u n r ≡ ok user
    → (id : ℕ) × (r ≡ done (some id)) × (user ≡ record { id = id; username = u; display_name = n })
unfolding created
created-ok u n (done (some id)) user e = (id, refl, ground arith)
created-ok u n (done none) user e = absurd (ground arith)
created-ok u n (failed (some code)) user e = absurd (ground arith)
created-ok u n (failed none) user e = absurd (ground arith)

created-IsAnswer : IsAnswer sqlite_unique_violation some created
unfolding created
created-IsAnswer = record { success = created-ok; conflict = λ u n. refl }

pub new_sqlite-IsStore :
    {D : Type 0} (e : Engine D ℕ ℤ (Option ℕ))
    → IsSql later sqlite_unique_violation some e
    → IsStore lasts (new_sqlite e)
unfolding new_sqlite backed
new_sqlite-IsStore e law = backed-IsStore e law unix_nano created created-IsAnswer
