-- ===== src/Logger.antt =====
-- reg_fsm/src/Logger.cpp and reg_fsm/inc/Logger.h: the names of the enumerations, the level test
-- and the file name of a record. Writing a record is in module Record.
pub mod FileName
pub mod Record
pub mod Decimal
pub mod Lines
use fsm_framework.Base.{
  ℕ, ◌==◌, leb, Bool, true, false, ◌&&◌, ◌||◌, not, List, [], ◌∷◌, String, if◌then◌else◌,
}
use fsm_framework.Data.{
  Tstate, idle, working, kill_fsm, EerrNo, init, success, error, invalid_state, invalid_msg,
  timer_error, MsgType, msg_init, msg_connect, msg_req, msg_resp, msg_timeout, msg_close,
}

pub data LogLevel : Type 0 where
  debug info warn err off : LogLevel

-- The cast to `int`.
abbrev pub level_int : LogLevel → ℕ
level_int debug = 0
level_int info = 1
level_int warn = 2
level_int err = 3
level_int off = 4

-- The first argument is `_level`.
abbrev pub is_enabled : LogLevel → LogLevel → Bool
is_enabled level l = not (level_int level == level_int off) && leb (level_int level) (level_int l)

abbrev pub log_level_to_string : LogLevel → String
log_level_to_string debug = "DEBUG"
log_level_to_string info = "INFO"
log_level_to_string warn = "WARN"
log_level_to_string err = "ERROR"
log_level_to_string off = "OFF"

abbrev pub msg_type_to_string : MsgType → String
msg_type_to_string msg_init = "MSG_INIT"
msg_type_to_string msg_connect = "MSG_CONNECT"
msg_type_to_string msg_req = "MSG_REQ"
msg_type_to_string msg_resp = "MSG_RESP"
msg_type_to_string msg_timeout = "MSG_TIMEOUT"
msg_type_to_string msg_close = "MSG_CLOSE"

abbrev pub state_to_string : Tstate → String
state_to_string idle = "IDLE"
state_to_string working = "WORKING"
state_to_string kill_fsm = "KILL_FSM"

abbrev pub err_no_to_string : EerrNo → String
err_no_to_string init = "INIT"
err_no_to_string success = "SUCCESS"
err_no_to_string error = "ERROR"
err_no_to_string invalid_state = "INVALID_STATE"
err_no_to_string invalid_msg = "INVALID_MSG"
err_no_to_string timer_error = "TIMER_ERROR"

abbrev pub is_separator : ℕ → Bool
is_separator c = (c == b'/') || (c == b'\\')

-- The loop: `cursor` is the rest of the name, and the first argument is `baseName`.
unfoldable pub base_name_from : List ℕ → List ℕ → List ℕ
base_name_from base [] = base
base_name_from base (c ∷ cursor) = base_name_from (if is_separator c then cursor else base) cursor

unfoldable pub base_file_name : List ℕ → List ℕ
unfolding base_name_from
base_file_name file = base_name_from file file
