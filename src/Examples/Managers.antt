-- ===== src/Examples/Managers.antt =====
-- Managers of Cfactory_mgr.cpp with a factory for registrations and one message queued.
use fsm_framework.Base.{◌≡◌, refl, ◌⊎◌, true, false, [], ◌∷◌, some, arith}
use fsm_framework.Data.{invalid_state, msg_init, CMsg}
use fsm_framework.Pump.{new_hub, send_msg}
use fsm_framework.Flow.{reg_plan, auth_plan}
use fsm_framework.Flow.Laws.{reg_plan-Descends, auth_plan-Descends}
use fsm_framework.Flow.Refinement.{reg_class-Follows, auth_class-Follows}
use fsm_framework.Factory.{set_fac_mgr}
use fsm_framework.Factory.Work.{Planned}
use fsm_framework.Manager.{
  Manager, new_manager, register_factory, post, dispatch_msg, with_pump, run_until_empty, stop,
}
use fsm_framework.Manager.Progress.{run_until_empty_total, stop_total}
use fsm_framework.Services.{auth_class, reg_class, reg_factory, auth_factory}
use fsm_framework.System.{Reach, here, next, handles, registers, sends}
use fsm_framework.System.Invariant.{Inv, Reach-Inv}

abbrev first : CMsg
first = record { type = msg_init; service_id = 1; fsm_id = 0; session_id = 7; msg = [] }

-- A manager whose worker runs.
abbrev working_manager : Manager
working_manager = record {
  fac_list = set_fac_mgr (reg_factory 1) ∷ [];
  hub = record new_hub { pump = first ∷ [] };
  running = true;
  joinable = true;
}

-- The same with both factories when it was asked to stop.
abbrev stopping_manager : Manager
stopping_manager = record working_manager {
  fac_list = set_fac_mgr (reg_factory 1) ∷ set_fac_mgr (auth_factory 3) ∷ [];
  hub = record (working_manager.hub) { stopped = true };
}

reg_class-Planned : Planned reg_class
reg_class-Planned = (reg_plan, reg_class-Follows, reg_plan-Descends)

auth_class-Planned : Planned auth_class
auth_class-Planned = (auth_plan, auth_class-Follows, auth_plan-Descends)

run_until_empty_total_example :
    (g' : Manager) × (run_until_empty 9 working_manager ≡ some g') × (g'.hub.pump ≡ [])
run_until_empty_total_example =
    run_until_empty_total 9 working_manager (reg_class-Planned, tt) (omega arith)

stop_total_example :
    (g' : Manager) × (stop 9 working_manager ≡ some g')
    × (g'.joinable ≡ false)
    × ((working_manager.joinable ≡ false) ⊎ (g'.hub.pump ≡ []))
    × ((m : CMsg) → post g' m ≡ (g', invalid_state))
stop_total_example = stop_total 9 working_manager (reg_class-Planned, tt) (omega arith)

-- A manager with one factory that was sent a first message and has handled it.
abbrev sent : Manager
sent = (post (register_factory new_manager (some (reg_factory 1))).0 first).0

sent-Reach : Reach 1 (dispatch_msg (with_pump [] sent) first).0
unfolding register_factory
sent-Reach =
    handles first []
      (next (next here (registers new_manager reg_class 1 reg_class-Planned))
        (sends (register_factory new_manager (some (reg_factory 1))).0 first))
      (unfold send_msg in refl)

Reach-Inv_example : Inv 1 (dispatch_msg (with_pump [] sent) first).0
Reach-Inv_example = Reach-Inv sent-Reach (omega arith)
