-- ===== src/Clock/Range.antt =====
-- From 1677 to 2262 the column holds the time exactly.
use chat_room.Prelude.{◌+◌, ◌^◌, ◌≤◌, ◌<◌, ◌≡◌, ltb, arith}
use chat_room.Message.{Time}
use chat_room.Clock.{epoch, unix_nano, of_unix_nano, ltz}

-- The time is less than 2 ^ 63 nanoseconds off 1970.
pub record IsNear (t : Time) : Type 0 where
  pub since : epoch ≤ t + 2 ^ 63
  pub before : t < epoch + 2 ^ 63

pub of_unix_nano-unix_nano : (t : Time) → IsNear t → of_unix_nano (unix_nano t) ≡ t
unfolding of_unix_nano unix_nano
of_unix_nano-unix_nano t n = ground (arith, n.since, n.before)

pub ltz-unix_nano : (t u : Time) → IsNear t → IsNear u → ltz (unix_nano t) (unix_nano u) ≡ ltb t u
unfolding unix_nano
ltz-unix_nano t u n m = ground (arith, n.since, n.before, m.since, m.before)
