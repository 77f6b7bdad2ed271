-- ===== src/Prelude/Outcomes.antt =====
-- A Go statement that returns or panics.
pub data Panic : Type 0 where
  send_on_closed close_of_closed : Panic

pub data Outcome {ℓ} (A : Type ℓ) : Type ℓ where
  ok : A → Outcome A
  panic : Panic → Outcome A

infixl 5 ◌>>=◌
abbrev pub ◌>>=◌ {ℓ κ} : {A : Type ℓ} {B : Type κ} → Outcome A → (A → Outcome B) → Outcome B
ok a >>= f = f a
panic p >>= f = panic p
