-- ===== src/Prelude/Below.antt =====
-- Tests of all numbers below a bound, by computation.
use Prim.Native.Nat.{ℕ, zero, suc, ◌<◌}
use mathlib.Core.Path.{◌≡◌, ap}
use mathlib.Core.Bool.{Bool, true, ◌&&◌}
use native.Mathlib.Omega.{arith}

-- The numbers below `n` all pass.
unfoldable pub all_below : (ℕ → Bool) → ℕ → Bool
all_below p zero = true
all_below p (suc n) = p n && all_below p n

pub all_below_lem : (p : ℕ → Bool) (n k : ℕ) → all_below p n ≡ true → k < n → p k ≡ true
unfolding all_below
all_below_lem p zero k h b = absurd (omega arith)
all_below_lem p (suc n) k h b = ground (arith, all_below_lem p n k, λ (e : k ≡ n). ap p e)
