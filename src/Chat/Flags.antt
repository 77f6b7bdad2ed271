-- ===== src/Chat/Flags.antt =====
-- What the flags leave alone.
use chat_room.Prelude.{◌≡◌, refl, ◌∙◌, List, [], ◌∷◌}
use chat_room.Config.{Config, default_config}
use chat_room.Chat.{
  Flag, set_flag, set_flags, parse_flags, addr, db_url, debug_addr, max_message_size, send_buffer,
  ping_interval, history_limit, max_rooms, session_ttl, secure_cookies,
}

set_flag-allowed_origins :
    (f : Flag) (c : Config) → (set_flag f c).allowed_origins ≡ c.allowed_origins
unfolding set_flag
set_flag-allowed_origins (addr s) c = refl
set_flag-allowed_origins (db_url s) c = refl
set_flag-allowed_origins (debug_addr s) c = refl
set_flag-allowed_origins (max_message_size n) c = refl
set_flag-allowed_origins (send_buffer n) c = refl
set_flag-allowed_origins (ping_interval n) c = refl
set_flag-allowed_origins (history_limit n) c = refl
set_flag-allowed_origins (max_rooms n) c = refl
set_flag-allowed_origins (session_ttl n) c = refl
set_flag-allowed_origins (secure_cookies b) c = refl

set_flags-allowed_origins :
    (fs : List Flag) (c : Config) → (set_flags fs c).allowed_origins ≡ c.allowed_origins
unfolding set_flags
set_flags-allowed_origins [] c = refl
set_flags-allowed_origins (f ∷ fs) c =
    set_flags-allowed_origins fs (set_flag f c) ∙ set_flag-allowed_origins f c

-- Whatever the flags, no origin is allowed beside the server's own.
pub parse_flags-allowed_origins : (fs : List Flag) → (parse_flags fs).allowed_origins ≡ []
unfolding parse_flags default_config
parse_flags-allowed_origins fs = set_flags-allowed_origins fs default_config
