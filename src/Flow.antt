-- ===== src/Flow.antt =====
-- An abstract description of a business FSM: for each state and event, one reaction. It says what
-- the transition tables of reg_fsm/src/RegFsm.cpp and reg_fsm/src/AuthFsm.cpp, the executor of
-- reg_fsm/inc/FsmTableExecutor.h and the posting helpers do together.
pub mod Refinement
pub mod Laws
use fsm_framework.Base.{
  ℕ, ◌+◌, ◌==◌, Bool, true, not, ◌&&◌, some, if◌then◌else◌, ◌≡◌, ◌++◌, ◌∷◌, [],
}
use fsm_framework.Data.{
  Tstate, idle, working, kill_fsm, EerrNo, success, invalid_state, invalid_msg, timer_error,
  MsgType, msg_init, msg_connect, msg_req, msg_resp, msg_timeout, msg_close, CMsg, u32,
}
use fsm_framework.Timer.{Timer, sleeping}
use fsm_framework.Pump.{Hub}
use fsm_framework.Fsm.{Cfsm}
use fsm_framework.Factory.{FsmClass}

pub data Reaction : Type 0 where
  refuse : EerrNo → Reaction
  -- Go on, and post the event to itself at once, or when a timer of so many milliseconds ends.
  post_next : MsgType → Reaction
  post_later : ℕ → MsgType → Reaction
  finish : Reaction

abbrev pub Plan : Type 0
Plan = Tstate → MsgType → Reaction

abbrev pub reg_plan : Plan
reg_plan kill_fsm e = refuse invalid_state
reg_plan idle msg_init = post_next msg_connect
reg_plan working msg_connect = post_next msg_req
reg_plan working msg_req = post_next msg_resp
reg_plan working msg_resp = post_later 100 msg_timeout
reg_plan working msg_timeout = post_next msg_close
reg_plan working msg_close = finish
reg_plan _ _ = refuse invalid_msg

abbrev pub auth_plan : Plan
auth_plan kill_fsm e = refuse invalid_state
auth_plan idle msg_init = post_next msg_connect
auth_plan working msg_connect = post_next msg_req
auth_plan working msg_req = post_next msg_resp
auth_plan working msg_resp = post_later 100 msg_close
auth_plan working msg_close = finish
auth_plan _ _ = refuse invalid_msg

-- The message that an FSM posts to itself.
abbrev pub follow_up : Cfsm → CMsg → MsgType → CMsg
follow_up f m e = record m { type = e; fsm_id = f.fsm_id }

abbrev pub enqueue : CMsg → Hub → Hub
enqueue m h = record h { pump = h.pump ++ m ∷ [] }

-- A new timer at the end of the list; the next id is one higher, modulo 2 ^ 32.
abbrev pub add_timer : ℕ → CMsg → Hub → Hub
add_timer ms m h =
    let t : Timer = record {
      ctrl = record { id = h.timers.next_timer_id; active = true };
      timeout_ms = ms;
      timeout_msg = m;
      due = h.clock + ms;
      phase = sleeping;
    } in
    record h {
      timers = record {
        timer_list = h.timers.timer_list ++ t ∷ [];
        next_timer_id = u32 (h.timers.next_timer_id + 1);
      };
    }

-- What a reaction does: the FSM, the hub and the result. `linked` says whether the FSM reaches a
-- manager.
abbrev pub react : Reaction → Bool → Cfsm → CMsg → Hub → Cfsm × Hub × EerrNo
react (refuse e) linked f m h = (f, h, e)
react (post_next e) linked f m h = (
  record f { state = working },
  if linked && not h.stopped then enqueue (follow_up f m e) h else h,
  if linked && not h.stopped then success else invalid_state,
)
react (post_later ms e) linked f m h = (
  record f { state = working },
  if linked then add_timer ms (follow_up f m e) h else h,
  if linked && not (h.timers.next_timer_id == 0) then success else timer_error,
)
react finish linked f m h = (record f { state = kill_fsm }, h, success)

-- `ProcessMsg` of the class follows the plan.
pub record Follows (c : FsmClass) (p : Plan) : Type 0 where
  pub starts : (f : Cfsm) → c.create_fsm ≡ some f → f.state ≡ idle
  pub reacts :
      (b : Bool) (f : Cfsm) (m : CMsg) (h : Hub)
      → c.process_msg b f m h ≡ react (p f.state m.type) (f.has_factory && b) f m h
