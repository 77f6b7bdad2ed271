-- ===== src/Config/Tests.antt =====
-- The validation at concrete configurations.
use chat_room.Prelude.{◌≡◌, refl, ◌↔◌, false, none, [], nat_eq, string_eq, negsuc, pos}
use chat_room.Config.{Config, default_config, validate}
use chat_room.Config.Validation.{IsUsable, validate-IsUsable_iff}

validate-IsUsable_iff_example : (validate default_config ≡ none) ↔ IsUsable default_config
validate-IsUsable_iff_example = validate-IsUsable_iff default_config

-- The defaults are usable.
default_config_test : validate default_config ≡ none
unfolding validate default_config
default_config_test = refl

abbrev unbuffered : Config
unbuffered = record {
  addr = ":8080";
  db_url = "";
  max_message_size = pos 4096;
  send_buffer = pos 0;
  ping_interval = pos 30;
  history_limit = negsuc 0;
  max_rooms = pos 256;
  allowed_origins = [];
  session_ttl = pos 7;
  secure_cookies = false;
  debug_addr = "";
}
