-- ===== src/Clock.antt =====
-- `UnixNano` and `Unix(0, n)` of Go's package time, by which the SQLite stores of
-- internal/auth/sqlite.go and internal/store/sqlite.go keep times in 64-bit columns.
pub mod Range
use chat_room.Prelude.{
  ℕ, ◌+◌, ◌-◌, ◌*◌, ◌%◌, ◌^◌, Bool, true, false, ℤ, pos, negsuc, ltb, if◌then◌else◌,
}
use chat_room.Message.{Time}

-- 1970, in nanoseconds from the zero time.
abbrev pub epoch : Time
epoch = 62_135_596_800 * 1_000_000_000

-- The 64-bit pattern of the nanoseconds since 1970; `2 ^ 66` is zero there, and above the epoch.
abbrev pub nano_word : Time → ℕ
nano_word t = (t + 2 ^ 66 - epoch) % 2 ^ 64

-- The integer of a 64-bit pattern.
abbrev pub signed : ℕ → ℤ
signed w = if ltb w (2 ^ 63) then pos w else negsuc (2 ^ 64 - 1 - w)

unfoldable pub unix_nano : Time → ℤ
unix_nano t = signed (nano_word t)

-- `time.Unix(0, n).UTC()`
unfoldable pub of_unix_nano : ℤ → Time
of_unix_nano (pos n) = epoch + n
of_unix_nano (negsuc n) = epoch - n - 1

-- `a < b`
abbrev pub ltz : ℤ → ℤ → Bool
ltz (pos a) (pos b) = ltb a b
ltz (pos a) (negsuc b) = false
ltz (negsuc a) (pos b) = true
ltz (negsuc a) (negsuc b) = ltb b a
