-- ===== src/Flow/Refinement.antt =====
-- The code of the two business FSMs follows the plans.
use fsm_framework.Base.{◌≡◌, refl, Bool, ◌&&◌, arith}
use fsm_framework.Data.{
  Tstate, idle, working, kill_fsm, MsgType, msg_init, msg_connect, msg_req, msg_resp, msg_timeout,
  msg_close, CMsg,
}
use fsm_framework.Pump.{Hub}
use fsm_framework.Fsm.{Cfsm}
use fsm_framework.Flow.{reg_plan, auth_plan, react, Follows}
use fsm_framework.RegFsm
use fsm_framework.AuthFsm
use fsm_framework.Services.{reg_class, auth_class}

reg_reacts_at :
    (s : Tstate) (e : MsgType) (b : Bool) (f : Cfsm) (m : CMsg) (h : Hub)
    → RegFsm.process_msg b (record f { state = s }) (record m { type = e }) h
      ≡ react (reg_plan s e) (f.has_factory && b) (record f { state = s }) (record m { type = e }) h
unfolding RegFsm.process_msg
reg_reacts_at kill_fsm e b f m h = refl
reg_reacts_at idle msg_init b f m h = ground arith
reg_reacts_at working msg_connect b f m h = ground arith
reg_reacts_at working msg_req b f m h = ground arith
reg_reacts_at working msg_resp b f m h = ground arith
reg_reacts_at working msg_timeout b f m h = ground arith
reg_reacts_at working msg_close b f m h = refl
reg_reacts_at _ _ b f m h = refl

auth_reacts_at :
    (s : Tstate) (e : MsgType) (b : Bool) (f : Cfsm) (m : CMsg) (h : Hub)
    → AuthFsm.process_msg b (record f { state = s }) (record m { type = e }) h
      ≡ react
          (auth_plan s e)
          (f.has_factory && b)
          (record f { state = s })
          (record m { type = e })
          h
unfolding AuthFsm.process_msg
auth_reacts_at kill_fsm e b f m h = refl
auth_reacts_at idle msg_init b f m h = ground arith
auth_reacts_at working msg_connect b f m h = ground arith
auth_reacts_at working msg_req b f m h = ground arith
auth_reacts_at working msg_resp b f m h = ground arith
auth_reacts_at working msg_close b f m h = refl
auth_reacts_at _ _ b f m h = refl

-- `RegFsm` starts idle and follows the registration plan, in every state and on every event.
pub reg_class-Follows : Follows reg_class reg_plan
reg_class-Follows = record {
  starts = λ f e. ground arith;
  reacts = λ b f m h. reg_reacts_at f.state m.type b f m h;
}

-- `AuthFsm` starts idle and follows the authentication plan, in every state and on every event.
pub auth_class-Follows : Follows auth_class auth_plan
auth_class-Follows = record {
  starts = λ f e. ground arith;
  reacts = λ b f m h. auth_reacts_at f.state m.type b f m h;
}
