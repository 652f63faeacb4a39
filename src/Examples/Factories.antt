-- ===== src/Examples/Factories.antt =====
-- A factory of registration FSMs, as the manager of Cfactory_mgr.cpp has it after a first message.
use fsm_framework.Base.{ℕ, ◌≡◌, refl, true, [], ◌∷◌, none, some, arith}
use fsm_framework.Data.{
  idle, working, invalid_state, invalid_msg, MsgType, msg_init, msg_connect, msg_resp, CMsg,
}
use fsm_framework.Pump.{Hub, new_hub}
use fsm_framework.Fsm.{Cfsm, new_fsm}
use fsm_framework.Flow.{reg_plan, follow_up, enqueue}
use fsm_framework.Flow.Laws.{Follows-IsLawful}
use fsm_framework.Flow.Refinement.{reg_class-Follows}
use fsm_framework.Factory.{FsmClass, Cfactory, fac_msg_prc}
use fsm_framework.Factory.Invariant.{IsValid}
use fsm_framework.Factory.Frame.{lookup_fsm, Handled}
use fsm_framework.Factory.Refines.{fresh, fac_msg_prc_existing, fac_msg_prc_new}
use fsm_framework.Factory.Wrap.{zero_id_stranded, stopped_stranded}
use fsm_framework.Services.{reg_class}

abbrev busy : ℕ → Cfsm
busy id = record (new_fsm working) { fsm_id = id; has_factory = true }

abbrev one_busy : Cfactory
one_busy = record {
  fac_id = 1;
  has_mgr = true;
  next_fsm_id = 2;
  fsm_list = busy 1 ∷ [];
  class = reg_class;
}

abbrev wrapped : Cfactory
wrapped = record one_busy { next_fsm_id = 0 }

-- The class that makes nothing.
abbrev barren : FsmClass
barren = record { create_fsm = none; process_msg = reg_class.process_msg }

abbrev empty_barren : Cfactory
empty_barren = record one_busy { class = barren; fsm_list = [] }

abbrev message : MsgType → ℕ → CMsg
message e id = record { type = e; service_id = 1; fsm_id = id; session_id = 7; msg = [] }

abbrev stopped_hub : Hub
stopped_hub = record new_hub { stopped = true }

one_busy-IsValid : IsValid one_busy
one_busy-IsValid = record {
  capped = omega arith;
  ids = (omega arith, ((λ e. ground arith), refl), omega arith);
  lawful = Follows-IsLawful reg_class reg_plan reg_class-Follows;
}

fac_msg_prc_existing_example :
    Handled one_busy
      (busy 1)
      (message msg_resp 1)
      new_hub
      (fac_msg_prc one_busy (message msg_resp 1) new_hub)
fac_msg_prc_existing_example =
    fac_msg_prc_existing one_busy (busy 1) (message msg_resp 1) new_hub one_busy-IsValid refl

fac_msg_prc_new_example :
    Handled one_busy
      (fresh one_busy (new_fsm idle))
      (message msg_init 9)
      new_hub
      (fac_msg_prc one_busy (message msg_init 9) new_hub)
fac_msg_prc_new_example =
    fac_msg_prc_new one_busy (new_fsm idle) (message msg_init 9) new_hub one_busy-IsValid
      (omega arith) refl refl (omega arith) refl

zero_id_stranded_example :
    let done = fac_msg_prc wrapped (message msg_init 0) new_hub in
    let stuck : Cfsm = record (fresh wrapped (new_fsm idle)) { state = working } in
    let own = follow_up stuck (message msg_init 0) msg_connect in
    (lookup_fsm 0 done.0.fsm_list ≡ some stuck)
    × (done.1 ≡ enqueue own new_hub)
    × ((later : Hub) → fac_msg_prc done.0 own later ≡ (done.0, later, invalid_msg))
zero_id_stranded_example =
    zero_id_stranded wrapped reg_plan (new_fsm idle) (message msg_init 0) msg_connect new_hub
      reg_class-Follows refl (λ e. ground arith) refl refl (omega arith) refl refl refl refl refl

stopped_stranded_example :
    let done = fac_msg_prc one_busy (message msg_init 0) stopped_hub in
    (lookup_fsm 2 done.0.fsm_list
      ≡ some (record (fresh one_busy (new_fsm idle)) { state = working }))
    × (done.1 ≡ stopped_hub)
    × (done.2 ≡ invalid_state)
stopped_stranded_example =
    stopped_stranded one_busy reg_plan (new_fsm idle) (message msg_init 0) msg_connect stopped_hub
      one_busy-IsValid reg_class-Follows refl (omega arith) refl refl (omega arith) refl refl
