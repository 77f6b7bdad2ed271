-- ===== src/Prelude/Int.antt =====
-- Go's signed integers, and the tests that the program makes on them.
use chat_room.Prelude.Tests.{ltb}
use mathlib.Core.Bool.{Bool, true, false}
use Prim.Native.Nat.{ℕ}

-- `negsuc n` is -(n + 1).
pub data ℤ : Type 0 where
  pos : ℕ → ℤ
  negsuc : ℕ → ℤ

-- `0 < n`
abbrev pub is_positive : ℤ → Bool
is_positive (pos n) = ltb 0 n
is_positive (negsuc n) = false

-- `n < 0`
abbrev pub is_negative : ℤ → Bool
is_negative (pos n) = false
is_negative (negsuc n) = true

-- `max(n, 0)`
abbrev pub clamp : ℤ → ℕ
clamp (pos n) = n
clamp (negsuc n) = 0
