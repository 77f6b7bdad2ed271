-- ===== src/Config/Validation.antt =====
-- `Validate` accepts the usable configurations, and names the first field that is not.
use chat_room.Prelude.{
  ℕ, ◌<◌, ◌≡◌, refl, ◌≢◌, ◌↔◌, true, false, none, some, ℤ, pos, negsuc, arith, is_positive,
  is_negative,
}
use text.Mathlib.TextEquality.{eq_iff}
use chat_room.Config.{
  Config, ConfigError, addr_required, bad_max_message_size, bad_send_buffer, bad_ping_interval,
  bad_history_limit, bad_max_rooms, bad_session_ttl, validate,
}

-- The integer is above zero, or not below zero.
abbrev pub IsAbove : ℤ → Type 0
IsAbove n = (k : ℕ) × (0 < k) × (n ≡ pos k)

abbrev pub IsNatural : ℤ → Type 0
IsNatural n = (k : ℕ) × (n ≡ pos k)

pub record IsUsable (c : Config) : Type 0 where
  pub addr : c.addr ≢ ""
  pub max_message_size : IsAbove c.max_message_size
  pub send_buffer : IsAbove c.send_buffer
  pub ping_interval : IsAbove c.ping_interval
  pub history_limit : IsNatural c.history_limit
  pub max_rooms : IsAbove c.max_rooms
  pub session_ttl : IsAbove c.session_ttl

IsAbove-of_positive : (n : ℤ) → is_positive n ≡ true → IsAbove n
IsAbove-of_positive (pos k) h = (k, ground arith, refl)
IsAbove-of_positive (negsuc k) h = cc

of_above : (n : ℤ) → IsAbove n → is_positive n ≡ true
of_above n (k, p, e) = ground arith

IsNatural-of_nonnegative : (n : ℤ) → is_negative n ≡ false → IsNatural n
IsNatural-of_nonnegative (pos k) h = (k, refl)
IsNatural-of_nonnegative (negsuc k) h = cc

of_natural : (n : ℤ) → IsNatural n → is_negative n ≡ false
of_natural n (k, e) = ground arith

tests_of_none :
    (c : Config)
    → validate c ≡ none
    → (c.addr ≢ "")
      × (is_positive c.max_message_size ≡ true)
      × (is_positive c.send_buffer ≡ true)
      × (is_positive c.ping_interval ≡ true)
      × (is_negative c.history_limit ≡ false)
      × (is_positive c.max_rooms ≡ true)
      × (is_positive c.session_ttl ≡ true)
unfolding validate
tests_of_none c e = ground (arith, eq_iff c.addr "")

IsUsable-of_none : (c : Config) → validate c ≡ none → IsUsable c
IsUsable-of_none c e =
    let t = tests_of_none c e in
    record {
      addr = t.0;
      max_message_size = IsAbove-of_positive _ t.1;
      send_buffer = IsAbove-of_positive _ t.2;
      ping_interval = IsAbove-of_positive _ t.3;
      history_limit = IsNatural-of_nonnegative _ t.4;
      max_rooms = IsAbove-of_positive _ t.5;
      session_ttl = IsAbove-of_positive _ t.6;
    }

none_of_usable : (c : Config) → IsUsable c → validate c ≡ none
unfolding validate
none_of_usable c u = ground (
  arith,
  eq_iff c.addr "",
  of_above c.max_message_size u.max_message_size,
  of_above c.send_buffer u.send_buffer,
  of_above c.ping_interval u.ping_interval,
  of_natural c.history_limit u.history_limit,
  of_above c.max_rooms u.max_rooms,
  of_above c.session_ttl u.session_ttl,
)

-- A configuration is accepted exactly when its address is given, its history limit is not below zero,
-- and its message size, send buffer, ping interval, room limit and session lifetime are above zero.
pub validate-IsUsable_iff : (c : Config) → (validate c ≡ none) ↔ IsUsable c
validate-IsUsable_iff c = (IsUsable-of_none c, none_of_usable c)

not-IsAbove : (n : ℤ) → is_positive n ≡ false → ¬ IsAbove n
not-IsAbove n h a = cc (of_above n a)

not-IsNatural : (n : ℤ) → is_negative n ≡ true → ¬ IsNatural n
not-IsNatural n h a = cc (of_natural n a)

-- The fields from the first on are in order, up to the one that the name says.
abbrev pub ToAddr : Config → Type 0
ToAddr c = c.addr ≢ ""

abbrev pub ToSize : Config → Type 0
ToSize c = ToAddr c × IsAbove c.max_message_size

abbrev pub ToBuffer : Config → Type 0
ToBuffer c = ToSize c × IsAbove c.send_buffer

abbrev pub ToPing : Config → Type 0
ToPing c = ToBuffer c × IsAbove c.ping_interval

abbrev pub ToLimit : Config → Type 0
ToLimit c = ToPing c × IsNatural c.history_limit

abbrev pub ToRooms : Config → Type 0
ToRooms c = ToLimit c × IsAbove c.max_rooms

-- The field that an error names is at fault, its value is the one reported, and all fields that are
-- tested before it are in order.
abbrev pub Reports : Config → ConfigError → Type 0
Reports c addr_required = c.addr ≡ ""
Reports c (bad_max_message_size n) = ToAddr c × (n ≡ c.max_message_size) × (¬ IsAbove n)
Reports c (bad_send_buffer n) = ToSize c × (n ≡ c.send_buffer) × (¬ IsAbove n)
Reports c (bad_ping_interval n) = ToBuffer c × (n ≡ c.ping_interval) × (¬ IsAbove n)
Reports c (bad_history_limit n) = ToPing c × (n ≡ c.history_limit) × (¬ IsNatural n)
Reports c (bad_max_rooms n) = ToLimit c × (n ≡ c.max_rooms) × (¬ IsAbove n)
Reports c (bad_session_ttl n) = ToRooms c × (n ≡ c.session_ttl) × (¬ IsAbove n)

module _ (c : Config) where
  to_addr : {e : ConfigError} → validate c ≡ some e → e ≢ addr_required → ToAddr c
  unfolding validate
  to_addr h n = ground (arith, eq_iff c.addr "")

  -- If the validation returns an error, the field that it names is at fault, the value in it is the
  -- field's, and all fields that are tested earlier are in order.
  pub validate-Reports : (e : ConfigError) → validate c ≡ some e → Reports c e
  unfolding validate
  validate-Reports addr_required h = ground (arith, eq_iff c.addr "")
  validate-Reports (bad_max_message_size n) h =
      (to_addr h (λ q. cc), ground arith, not-IsAbove n (ground arith))
  validate-Reports (bad_send_buffer n) h = (
    (to_addr h (λ q. cc), IsAbove-of_positive _ (ground arith)),
    ground arith,
    not-IsAbove n (ground arith),
  )
  validate-Reports (bad_ping_interval n) h = (
    (
      (to_addr h (λ q. cc), IsAbove-of_positive _ (ground arith)),
      IsAbove-of_positive _ (ground arith),
    ),
    ground arith,
    not-IsAbove n (ground arith),
  )
  validate-Reports (bad_history_limit n) h = (
    (
      (
        (to_addr h (λ q. cc), IsAbove-of_positive _ (ground arith)),
        IsAbove-of_positive _ (ground arith),
      ),
      IsAbove-of_positive _ (ground arith),
    ),
    ground arith,
    not-IsNatural n (ground arith),
  )
  validate-Reports (bad_max_rooms n) h = (
    (
      (
        (
          (to_addr h (λ q. cc), IsAbove-of_positive _ (ground arith)),
          IsAbove-of_positive _ (ground arith),
        ),
        IsAbove-of_positive _ (ground arith),
      ),
      IsNatural-of_nonnegative _ (ground arith),
    ),
    ground arith,
    not-IsAbove n (ground arith),
  )
  validate-Reports (bad_session_ttl n) h = (
    (
      (
        (
          (
            (to_addr h (λ q. cc), IsAbove-of_positive _ (ground arith)),
            IsAbove-of_positive _ (ground arith),
          ),
          IsAbove-of_positive _ (ground arith),
        ),
        IsNatural-of_nonnegative _ (ground arith),
      ),
      IsAbove-of_positive _ (ground arith),
    ),
    ground arith,
    not-IsAbove n (ground arith),
  )
