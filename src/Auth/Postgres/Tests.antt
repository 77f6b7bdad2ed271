-- ===== src/Auth/Postgres/Tests.antt =====
-- The Postgres store over the engine with one account.
use chat_room.Prelude.{ℕ, String}
use chat_room.Message.{Time}
use chat_room.Auth.Database.{Engine}
use chat_room.Auth.Database.Tests.{OneAccount, one_account}
use chat_room.Auth.Postgres.{unique_violation}
use chat_room.Auth.Postgres.Contract.{later}

abbrev engine : Engine (OneAccount Time) String Time ℕ
engine = one_account later unique_violation (λ id. id)
