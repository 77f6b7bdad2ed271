-- ===== src/Config.antt =====
-- internal/config/config.go: the configuration and its validation. Durations are in nanoseconds.
pub mod Validation
pub mod Tests
use chat_room.Prelude.{
  String, Bool, true, false, Option, none, some, List, [], ◌*◌, ℤ, pos, negsuc, is_positive,
  is_negative, if◌then◌else◌, ◌==◌, string_eq, not,
}

pub record Config : Type 0 where
  pub addr : String
  pub db_url : String
  pub max_message_size : ℤ
  pub send_buffer : ℤ
  pub ping_interval : ℤ
  pub history_limit : ℤ
  pub max_rooms : ℤ
  pub allowed_origins : List String
  pub session_ttl : ℤ
  pub secure_cookies : Bool
  pub debug_addr : String

-- `Default`
unfoldable pub default_config : Config
default_config = record {
  addr = ":8080";
  db_url = "";
  max_message_size = pos 4096;
  send_buffer = pos 16;
  ping_interval = pos (30 * 1_000_000_000);
  history_limit = pos 50;
  max_rooms = pos 256;
  allowed_origins = [];
  session_ttl = pos (7 * 24 * 3600 * 1_000_000_000);
  secure_cookies = false;
  debug_addr = "";
}

-- One constructor for each error of `Validate`, with the value that it prints.
pub data ConfigError : Type 0 where
  addr_required : ConfigError
  bad_max_message_size bad_send_buffer bad_ping_interval bad_history_limit : ℤ → ConfigError
  bad_max_rooms bad_session_ttl : ℤ → ConfigError

-- `Validate`: `none` is a nil error.
unfoldable pub validate : Config → Option ConfigError
validate c =
    if c.addr == ""
    then some addr_required
    else if not (is_positive c.max_message_size)
    then some (bad_max_message_size c.max_message_size)
    else if not (is_positive c.send_buffer)
    then some (bad_send_buffer c.send_buffer)
    else if not (is_positive c.ping_interval)
    then some (bad_ping_interval c.ping_interval)
    else if is_negative c.history_limit
    then some (bad_history_limit c.history_limit)
    else if not (is_positive c.max_rooms)
    then some (bad_max_rooms c.max_rooms)
    else if not (is_positive c.session_ttl)
    then some (bad_session_ttl c.session_ttl)
    else none
