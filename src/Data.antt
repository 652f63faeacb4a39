-- ===== src/Data.antt =====
-- reg_fsm/inc/common.h and reg_fsm/inc/CMsg.h: the constants, the enumerations and the message.
-- An `unsigned int` is a native number below `u32_mod`; arithmetic on it is written with the wrap.
-- A byte of a payload is a number.
use fsm_framework.Base.{ℕ, ◌%◌, Bool, true, false, List, []}

abbrev pub u32_mod : ℕ
u32_mod = 4294967296

abbrev pub u32 : ℕ → ℕ
u32 n = n % u32_mod

abbrev pub fsm_num_in_fac : ℕ
fsm_num_in_fac = 32

abbrev pub fac_reg_fac_id : ℕ
fac_reg_fac_id = 1

abbrev pub fac_auth_fac_id : ℕ
fac_auth_fac_id = 3

abbrev pub fac_num_in_mgr_max : ℕ
fac_num_in_mgr_max = 8

pub data Tstate : Type 0 where
  idle working kill_fsm : Tstate

pub data EerrNo : Type 0 where
  init success error invalid_state invalid_msg timer_error : EerrNo

pub data MsgType : Type 0 where
  msg_init msg_connect msg_req msg_resp msg_timeout msg_close : MsgType

-- `==` on the enumerations.
abbrev pub same_state : Tstate → Tstate → Bool
same_state idle idle = true
same_state working working = true
same_state kill_fsm kill_fsm = true
same_state _ _ = false

abbrev pub same_err : EerrNo → EerrNo → Bool
same_err init init = true
same_err success success = true
same_err error error = true
same_err invalid_state invalid_state = true
same_err invalid_msg invalid_msg = true
same_err timer_error timer_error = true
same_err _ _ = false

abbrev pub same_type : MsgType → MsgType → Bool
same_type msg_init msg_init = true
same_type msg_connect msg_connect = true
same_type msg_req msg_req = true
same_type msg_resp msg_resp = true
same_type msg_timeout msg_timeout = true
same_type msg_close msg_close = true
same_type _ _ = false

pub record CMsg : Type 0 where
  pub type : MsgType
  pub service_id : ℕ
  pub fsm_id : ℕ
  pub session_id : ℕ
  pub msg : List ℕ

abbrev pub default_msg : CMsg
default_msg = record { type = msg_init; service_id = 0; fsm_id = 0; session_id = 0; msg = [] }
