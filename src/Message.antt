-- ===== src/Message.antt =====
-- src/message/mod.rs: message types, errors and the constants of the wire format. The children
-- model Header and BgpMessage of that file and the other files of src/message.
pub mod Header
pub mod Frame
pub mod Notification
pub mod Keepalive
pub mod RouteRefresh
pub mod Open
pub mod Prefix
pub mod Update
pub mod Delivery
mod Tests
use Prim.Native.String.{String}
use pathforge.Base.{ℕ, List, [], ◌∷◌, replicate, Outcome, ok, err, ◌==◌, if◌then◌else◌}

pub data MessageType : Type 0 where
  open_type update notification keepalive route_refresh : MessageType

-- The discriminants of the enum, and so `msg_type as u8`.
abbrev pub type_code : MessageType → ℕ
type_code open_type = 1
type_code update = 2
type_code notification = 3
type_code keepalive = 4
type_code route_refresh = 5

pub data MessageError : Type 0 where
  unknown_type : ℕ → MessageError
  -- expected, got
  too_short : ℕ → ℕ → MessageError
  invalid_marker : MessageError
  invalid_length : ℕ → MessageError
  parse_error : String → MessageError

-- `MessageType::try_from`
unfoldable pub try_from : ℕ → Outcome MessageError MessageType
try_from v =
    if v == 1
    then ok open_type
    else if v == 2
    then ok update
    else if v == 3
    then ok notification
    else if v == 4
    then ok keepalive
    else if v == 5
    then ok route_refresh
    else err (unknown_type v)

abbrev pub marker : List ℕ
marker = replicate 16 255

abbrev pub header_len : ℕ
header_len = 19

abbrev pub max_message_len : ℕ
max_message_len = 4096
