-- ===== src/Examples/Told.antt =====
-- A registration on a manager of Cfactory_mgr.cpp whose client listens.
use fsm_framework.Base.{ℕ, ◌+◌, ◌≤◌, ◌<◌, ◌⊎◌, ◌≡◌, refl, true, [], none, some, arith, get_elem?}
use fsm_framework.Data.{msg_init}
use fsm_framework.Timer.{start_timer, timer_wake, timer_post}
use fsm_framework.Pump.{
  send_msg, notify_fsm_completed, hub_timer_wake, hub_timer_post, hub_start_timer,
  set_completion_callback,
}
use fsm_framework.Fsm.{set_state, fsm_send_msg, fsm_start_timer}
use fsm_framework.Executor.{find_fsm_transition, run_transition, execute_fsm_transition}
use fsm_framework.RegFsm
use fsm_framework.Flow.{reg_plan}
use fsm_framework.Flow.Laws.{reg_plan-Descends, work}
use fsm_framework.Flow.Refinement.{reg_class-Follows}
use fsm_framework.Factory.{
  Cfactory, fac_msg_prc, find_fsm, target_fsm, add_fsm, start_fsm, dispatch_to_fsm, dispatch_at,
  reclaim, kill_fsm_by_id, erase_fsm,
}
use fsm_framework.Factory.Frame.{lookup_fsm}
use fsm_framework.Manager.{
  Manager, new_manager, register_factory, find_factory, dispatch_to, dispatch_msg,
}
use fsm_framework.Services.{reg_class}
use fsm_framework.System.{with_hub, sends, registers}
use fsm_framework.System.Undisturbed.{Drives, drives}
use fsm_framework.System.Drain.{IsDrained, Undisturbed-Reach}
use fsm_framework.System.Told.{told, ended}
use fsm_framework.System.Told.Watched.{Watched, here, next}
use fsm_framework.System.Told.Run.{told_at_most_once, told_exactly_once}
use fsm_framework.System.Told.Drain.{Drives-Watched, drains_told}
use fsm_framework.Examples.Drains.{
  event, registered, requested, requested-Undisturbed, closed, closed-Drives,
}

requested-Watched : Watched true 0 (requested true)
unfolding set_completion_callback register_factory send_msg
requested-Watched =
    let listening = with_hub (set_completion_callback new_manager.hub true) new_manager in
    next
      (next here (registers listening reg_class 1 (reg_plan, reg_class-Follows, reg_plan-Descends))
        (λ y. refl))
      (sends (registered true) (event msg_init 0)) (λ y. refl)

closed-Watched : Watched true 6 (closed true)
closed-Watched = Drives-Watched (closed-Drives true) (omega arith) requested-Watched

abbrev closed_factory : Cfactory
closed_factory = record {
  fac_id = 1;
  has_mgr = true;
  next_fsm_id = 2;
  fsm_list = [];
  class = reg_class;
}

closed_there : get_elem? (closed true).fac_list 0 ≡ some closed_factory
unfolding set_completion_callback register_factory find_factory dispatch_msg dispatch_to fac_msg_prc
    target_fsm find_fsm add_fsm start_fsm dispatch_to_fsm dispatch_at reclaim kill_fsm_by_id
    erase_fsm find_fsm_transition run_transition execute_fsm_transition set_state fsm_send_msg
    fsm_start_timer send_msg hub_start_timer start_timer notify_fsm_completed hub_timer_wake
    hub_timer_post timer_wake timer_post RegFsm.process_msg RegFsm.post_next_event
    RegFsm.send_next_msg RegFsm.start_next_timer
closed_there = refl

told_exactly_once_example : told 1 1 (closed true).hub.notified ≡ ended 1 closed_factory
told_exactly_once_example =
    told_exactly_once 0 closed_factory 1 closed-Watched (omega arith) closed_there

told_at_most_once_example :
    (told 1 1 (closed true).hub.notified ≡ 0)
    ⊎ ((told 1 1 (closed true).hub.notified ≡ 1)
        × (1 ≤ 1)
        × (1 < 2)
        × (lookup_fsm 1 closed_factory.fsm_list ≡ none))
told_at_most_once_example =
    told_at_most_once 0 closed_factory 1
      (Undisturbed-Reach (drives (requested-Undisturbed true) (closed-Drives true))) (omega arith)
      closed_there

drains_told_example :
    (k : ℕ) × (g' : Manager) × Drives 0 (requested true) k g'
    × (k ≤ 0 + work (requested true).hub)
    × IsDrained g'
    × ((i : ℕ) (fac : Cfactory) (id : ℕ)
        → get_elem? g'.fac_list i ≡ some fac
        → 1 ≤ id
        → id < fac.next_fsm_id
        → told fac.fac_id id g'.hub.notified ≡ 1)
unfolding set_completion_callback register_factory send_msg
drains_told_example = drains_told (requested-Undisturbed true) requested-Watched (omega arith)
