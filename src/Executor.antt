-- ===== src/Executor.antt =====
-- reg_fsm/inc/FsmTableExecutor.h: the search of a transition table and the execution of a row. The
-- rows of `RegFsm` and `AuthFsm` have the same fields and are one record here. An action is a
-- pointer to a member function, null as `none`. What the template takes from the FSM class,
-- `RunAction` and `PostNextEvent`, is a parameter. Logging is left out; the field `log` is read
-- nowhere in the source.
pub mod Find
use fsm_framework.Base.{
  ℕ, zero, suc, Bool, true, false, not, ◌&&◌, List, [], ◌∷◌, Option, none, some, String,
  if◌then◌else◌,
}
use fsm_framework.Data.{
  Tstate, kill_fsm, EerrNo, success, invalid_state, invalid_msg, MsgType, CMsg, same_state,
  same_err, same_type,
}
use fsm_framework.Pump.{Hub}
use fsm_framework.Fsm.{Cfsm, set_state, base_process_msg}

pub record Transition : Type 0 where
  pub «from» : Tstate
  pub event : MsgType
  pub to : Tstate
  pub has_next : Bool
  pub next_event : MsgType
  pub delay_ms : ℕ
  pub log : String
  pub action : Option (Cfsm → Cfsm)

-- The test of the loop.
abbrev pub fires : Tstate → MsgType → Transition → Bool
fires s e t = same_state t.«from» s && same_type t.event e

-- The loop runs `count` rounds along the array; a `count` past its end is not met (a read there
-- would be undefined).
unfoldable pub find_fsm_transition : List Transition → ℕ → Tstate → MsgType → Option Transition
find_fsm_transition ts zero s e = none
find_fsm_transition [] (suc n) s e = none
find_fsm_transition (t ∷ ts) (suc n) s e =
    if fires s e t then some t else find_fsm_transition ts n s e

abbrev pub RunAction : Type 0
RunAction = Option (Cfsm → Cfsm) → Cfsm → Cfsm

abbrev pub PostNextEvent : Type 0
PostNextEvent = Bool → Cfsm → Hub → Transition → CMsg → Hub × EerrNo

module _ (run_action : RunAction) (post_next_event : PostNextEvent) (has_mgr : Bool) where
  -- What is done with the row found.
  unfoldable pub run_transition : Transition → Cfsm → CMsg → Hub → Cfsm × Hub × EerrNo
  unfolding set_state
  run_transition t f m h =
      let f' = set_state t.to (run_action t.action f) in
      if t.has_next
      then (f', (post_next_event has_mgr f' h t m).0, (post_next_event has_mgr f' h t m).1)
      else (f', h, success)

  unfoldable pub execute_fsm_transition :
      List Transition → ℕ → Cfsm → CMsg → Hub → Cfsm × Hub × EerrNo
  unfolding run_transition find_fsm_transition
  execute_fsm_transition ts n f m h =
      if same_state kill_fsm f.state
      then (f, h, invalid_state)
      else if not (same_err success (base_process_msg f m))
      then (f, h, invalid_msg)
      else elim (find_fsm_transition ts n f.state m.type) [
        | none ↦ (f, h, invalid_msg)
        | some t ↦ run_transition t f m h
      ]
