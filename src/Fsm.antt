-- ===== src/Fsm.antt =====
-- reg_fsm/src/Cfsm.cpp and reg_fsm/inc/Cfsm.h: the base of all FSMs. `_factory` is null or points
-- to the factory that owns the FSM, and `_facMgr` of that factory is null or points to the one
-- manager: each is a Boolean, true where it is not null, the second given to the operations as
-- `has_mgr`. The hooks of `SetState` do nothing here and no FSM of the repository overrides them.
-- `PrePrcMsg`, `PostPrcMsg`, `Destroy` and `Print` change nothing here: they only log (module Records).
pub mod Deferred
pub mod Records
use fsm_framework.Base.{
  ℕ, Bool, true, false, ◌&&◌, List, [], ◌∷◌, ◌++◌, Option, none, some, if◌then◌else◌,
}
use fsm_framework.Data.{Tstate, EerrNo, init, success, invalid_state, timer_error, CMsg, same_state}
use fsm_framework.Pump.{Hub, send_msg, hub_start_timer, hub_stop_timer}

pub record Cfsm : Type 0 where
  pub fsm_id : ℕ
  pub state : Tstate
  pub prc : EerrNo
  pub has_factory : Bool
  pub save : List CMsg
  pub hold : List CMsg

abbrev pub new_fsm : Tstate → Cfsm
new_fsm s = record { fsm_id = 0; state = s; prc = init; has_factory = false; save = []; hold = [] }

abbrev pub set_fsm_id : ℕ → Cfsm → Cfsm
set_fsm_id id f = record f { fsm_id = id }

abbrev pub set_factory : Cfsm → Cfsm
set_factory f = record f { has_factory = true }

abbrev pub create : Cfsm → Cfsm
create f = record f { prc = init }

-- `OnExitState` and `OnEnterState` of the base.
abbrev pub on_exit_state : Tstate → Tstate → Cfsm → Cfsm
on_exit_state old_state new_state f = f

abbrev pub on_enter_state : Tstate → Tstate → Cfsm → Cfsm
on_enter_state old_state new_state f = f

unfoldable pub set_state : Tstate → Cfsm → Cfsm
set_state s f =
    if same_state f.state s
    then f
    else on_enter_state f.state s (record (on_exit_state f.state s f) { state = s })

-- `ProcessMsg` of the base.
abbrev pub base_process_msg : Cfsm → CMsg → EerrNo
base_process_msg f m = success

unfoldable pub fsm_send_msg : Bool → Cfsm → Hub → CMsg → Hub × EerrNo
unfolding send_msg
fsm_send_msg has_mgr f h m = if f.has_factory && has_mgr then send_msg h m else (h, invalid_state)

unfoldable pub fsm_start_timer : Bool → Cfsm → Hub → ℕ → CMsg → Hub × ℕ
unfolding hub_start_timer
fsm_start_timer has_mgr f h ms m =
    if f.has_factory && has_mgr then hub_start_timer h ms m else (h, 0)

unfoldable pub fsm_stop_timer : Bool → Cfsm → Hub → ℕ → Hub × EerrNo
unfolding hub_stop_timer
fsm_stop_timer has_mgr f h id =
    if f.has_factory && has_mgr then hub_stop_timer h id else (h, timer_error)

unfoldable pub save_msg : Cfsm → CMsg → Cfsm
save_msg f m = record f { save = f.save ++ m ∷ [] }

unfoldable pub hold_msg : Cfsm → CMsg → Cfsm
hold_msg f m = record f { hold = f.hold ++ m ∷ [] }

-- `none` is the result false; then `msg` is left as it was.
unfoldable pub pop_saved_msg : Cfsm → Cfsm × Option CMsg
pop_saved_msg f = elim f.save [ [] ↦ (f, none) | m ∷ rest ↦ (record f { save = rest }, some m) ]

unfoldable pub pop_held_msg : Cfsm → Cfsm × Option CMsg
pop_held_msg f = elim f.hold [ [] ↦ (f, none) | m ∷ rest ↦ (record f { hold = rest }, some m) ]
