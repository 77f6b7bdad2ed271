-- ===== src/Message.antt =====
-- internal/message/message.go: the frames that travel between the clients and the server.
use chat_room.Prelude.{ℕ, String, Bool, true, false, Option, none, List, []}

-- `time.Time` in UTC: nanoseconds since the zero time, for which `IsZero` holds.
abbrev pub Time : Type 0
Time = ℕ

-- The frame types; `unknown` is any other string that a client sends.
pub data FrameType : Type 0 where
  type_join type_leave type_message type_history type_presence type_error : FrameType
  unknown : String → FrameType

pub record Message : Type 0 where
  pub id : ℕ
  pub room : String
  pub sender_id : String
  pub sender_name : String
  pub content : String
  pub created_at : Time

pub record Presence : Type 0 where
  pub user : String
  pub joined : Bool
  pub members : List String

pub record Envelope : Type 0 where
  pub type : FrameType
  pub room : String
  pub text : String
  pub message : Option Message
  pub history : List Message
  pub presence : Option Presence
  pub error : String

-- The zero value, which the composite literals start from.
abbrev pub envelope : FrameType → String → Envelope
envelope t r = record {
  type = t;
  room = r;
  text = "";
  message = none;
  history = [];
  presence = none;
  error = "";
}

-- A chat frame, as against history, presence and errors.
abbrev pub is_chat : Envelope → Bool
is_chat e = elim e.type [ type_message ↦ true | _ ↦ false ]
