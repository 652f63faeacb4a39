-- ===== src/AuthFsm.antt =====
-- reg_fsm/src/AuthFsm.cpp, reg_fsm/inc/AuthFsm.h and reg_fsm/src/AuthFactory.cpp: the
-- authentication flow. The `Handle` functions only log, so they leave the FSM as it is.
pub mod Records
use fsm_framework.Base.{
  ℕ, ◌==◌, Bool, true, false, List, [], ◌∷◌, Option, none, some, if◌then◌else◌,
}
use fsm_framework.Data.{
  idle, working, kill_fsm, EerrNo, success, timer_error, MsgType, msg_init, msg_connect, msg_req,
  msg_resp, msg_close, CMsg,
}
use fsm_framework.Pump.{Hub}
use fsm_framework.Fsm.{Cfsm, new_fsm, fsm_send_msg, fsm_start_timer}
use fsm_framework.Executor.{Transition, execute_fsm_transition}

-- The constructor.
abbrev pub auth_fsm : Cfsm
auth_fsm = new_fsm idle

unfoldable pub send_next_msg : Bool → Cfsm → Hub → CMsg → MsgType → Hub × EerrNo
unfolding fsm_send_msg
send_next_msg has_mgr f h current next_type =
    fsm_send_msg has_mgr f h (record current { type = next_type; fsm_id = f.fsm_id })

unfoldable pub start_next_timer : Bool → Cfsm → Hub → CMsg → MsgType → ℕ → Hub × ℕ
unfolding fsm_start_timer
start_next_timer has_mgr f h current next_type delay_ms =
    fsm_start_timer has_mgr f h delay_ms (record current { type = next_type; fsm_id = f.fsm_id })

abbrev pub handle_init : Cfsm → Cfsm
handle_init f = f

abbrev pub handle_connect : Cfsm → Cfsm
handle_connect f = f

abbrev pub handle_req : Cfsm → Cfsm
handle_req f = f

abbrev pub handle_resp : Cfsm → Cfsm
handle_resp f = f

abbrev pub handle_close : Cfsm → Cfsm
handle_close f = f

abbrev pub transitions : List Transition
transitions =
    record {
      «from» = idle;
      event = msg_init;
      to = working;
      has_next = true;
      next_event = msg_connect;
      delay_ms = 0;
      log = "[AUTH][MSG_INIT]: prepare auth context";
      action = some handle_init;
    }
    ∷ record {
      «from» = working;
      event = msg_connect;
      to = working;
      has_next = true;
      next_event = msg_req;
      delay_ms = 0;
      log = "[AUTH][MSG_CONNECT]: connect auth service";
      action = some handle_connect;
    }
    ∷ record {
      «from» = working;
      event = msg_req;
      to = working;
      has_next = true;
      next_event = msg_resp;
      delay_ms = 0;
      log = "[AUTH][MSG_REQ]: verify credentials";
      action = some handle_req;
    }
    ∷ record {
      «from» = working;
      event = msg_resp;
      to = working;
      has_next = true;
      next_event = msg_close;
      delay_ms = 100;
      log = "[AUTH][MSG_RESP]: auth success";
      action = some handle_resp;
    }
    ∷ record {
      «from» = working;
      event = msg_close;
      to = kill_fsm;
      has_next = false;
      next_event = msg_close;
      delay_ms = 0;
      log = "[AUTH][MSG_CLOSE]: close auth flow";
      action = some handle_close;
    }
    ∷ []

abbrev pub transition_count : ℕ
transition_count = 5

abbrev pub run_action : Option (Cfsm → Cfsm) → Cfsm → Cfsm
run_action none f = f
run_action (some action) f = action f

unfoldable pub post_next_event : Bool → Cfsm → Hub → Transition → CMsg → Hub × EerrNo
unfolding send_next_msg start_next_timer
post_next_event has_mgr f h t current =
    if t.delay_ms == 0
    then send_next_msg has_mgr f h current t.next_event
    else (let started = start_next_timer has_mgr f h current t.next_event t.delay_ms in
        (started.0, if started.1 == 0 then timer_error else success))

unfoldable pub process_msg : Bool → Cfsm → CMsg → Hub → Cfsm × Hub × EerrNo
unfolding execute_fsm_transition post_next_event
process_msg has_mgr f m h =
    execute_fsm_transition run_action post_next_event has_mgr transitions transition_count f m h

-- `CreateFsm` of the factory; `new` does not return null.
abbrev pub create_fsm : Option Cfsm
create_fsm = some auth_fsm
