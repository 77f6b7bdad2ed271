-- ===== src/Auth/Postgres/Contract.antt =====
-- The Postgres store keeps the contract of the interface `Store`.
use chat_room.Prelude.{◌/◌, ltb, ℕ, Bool, nat_eq, string_eq}
use chat_room.Message.{Time}

-- A column of type TIMESTAMPTZ counts microseconds.
abbrev pub micros : Time → ℕ
micros t = t / 1000

abbrev pub lasts : Time → Time → Bool
lasts now expires_at = ltb (micros now) (micros expires_at)

abbrev pub later : Time → Time → Bool
later expires_at now = lasts now expires_at
