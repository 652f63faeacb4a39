-- ===== src/Examples/Drains.antt =====
-- A registration on a manager of Cfactory_mgr.cpp that nobody stops, from the first message to its end.
use fsm_framework.Base.{Bool, false, ℕ, ◌+◌, ◌≤◌, ◌≡◌, refl, [], some, arith}
use fsm_framework.Data.{
  MsgType, msg_init, msg_connect, msg_req, msg_resp, msg_timeout, msg_close, CMsg,
}
use fsm_framework.Timer.{start_timer, timer_wake, timer_post}
use fsm_framework.Pump.{
  send_msg, notify_fsm_completed, hub_timer_wake, hub_timer_post, hub_start_timer,
  set_completion_callback,
}
use fsm_framework.Fsm.{set_state, fsm_send_msg, fsm_start_timer}
use fsm_framework.Executor.{find_fsm_transition, run_transition, execute_fsm_transition}
use fsm_framework.RegFsm
use fsm_framework.Flow.{reg_plan, auth_plan}
use fsm_framework.Flow.Laws.{reg_plan-Descends, auth_plan-Descends, work}
use fsm_framework.Flow.Refinement.{reg_class-Follows, auth_class-Follows}
use fsm_framework.Factory.{
  Cfactory, set_fac_mgr, fac_msg_prc, find_fsm, target_fsm, add_fsm, start_fsm, dispatch_to_fsm,
  dispatch_at, reclaim, kill_fsm_by_id, erase_fsm,
}
use fsm_framework.Factory.Frame.{lookup_fsm}
use fsm_framework.Manager.{
  Manager, new_manager, register_factory, find_factory, dispatch_to, post, dispatch_msg, with_pump,
}
use fsm_framework.Services.{reg_class, auth_class, reg_factory}
use fsm_framework.System.{with_hub}
use fsm_framework.System.Pending.{tokens, pending}
use fsm_framework.System.Undisturbed.{
  Steady, reg_plan-IsSteady, auth_plan-IsSteady, sends, registers, sets_callback, Drives, done,
  time_passes, timer_wakes, timer_posts, handles, Undisturbed, here, serves, drives,
}
use fsm_framework.System.Tracking.{Held}
use fsm_framework.Manager.Progress.{IsPlanned}
use fsm_framework.System.Measure.{Drives-work}
use fsm_framework.System.Drain.{
  one_message_each, quiet_manager-IsDrained, drains, AllEnded, IsDrained,
}

pub reg_class-Steady : Steady reg_class
reg_class-Steady = (reg_plan, reg_class-Follows, reg_plan-Descends, reg_plan-IsSteady)

auth_class-Steady : Steady auth_class
auth_class-Steady = (auth_plan, auth_class-Follows, auth_plan-Descends, auth_plan-IsSteady)

-- The message of the registration with this event.
abbrev pub event : MsgType → ℕ → CMsg
event e id = record { type = e; service_id = 1; fsm_id = id; session_id = 7; msg = [] }

-- The manager with one factory, and the completion callback set or not.
abbrev pub registered : Bool → Manager
registered b =
    (register_factory (with_hub (set_completion_callback new_manager.hub b) new_manager)
      (some (reg_factory 1))).0

abbrev pub requested : Bool → Manager
requested b = (post (registered b) (event msg_init 0)).0

pub requested-Undisturbed : (b : Bool) → Undisturbed 0 (requested b)
requested-Undisturbed b =
    let flagged = with_hub (set_completion_callback new_manager.hub b) new_manager in
    serves
      (serves (serves here (sets_callback new_manager b))
        (registers flagged reg_class 1 reg_class-Steady))
      (sends (registered b) (event msg_init 0) refl)

-- The manager after it handled its one message.
abbrev handled : Manager → CMsg → Manager
handled g m = (dispatch_msg (with_pump [] g) m).0

abbrev begun : Bool → Manager
begun b = handled (requested b) (event msg_init 0)

begun-Undisturbed : Undisturbed 1 (begun false)
unfolding set_completion_callback register_factory send_msg
begun-Undisturbed = drives (requested-Undisturbed false) (handles (event msg_init 0) [] done refl)

abbrev connected : Bool → Manager
connected b = handled (begun b) (event msg_connect 1)

abbrev waiting : Bool → Manager
waiting b = handled (handled (connected b) (event msg_req 1)) (event msg_resp 1)

abbrev fired : Bool → Manager
fired b =
    let later =
      with_hub (record ((waiting b).hub) { clock = (waiting b).hub.clock + 100 }) (waiting b) in
    let woken = with_hub (hub_timer_wake later.hub 0) later in
    with_hub (hub_timer_post woken.hub 0) woken

abbrev pub closed : Bool → Manager
closed b = handled (handled (fired b) (event msg_timeout 1)) (event msg_close 1)

pub closed-Drives : (b : Bool) → Drives 0 (requested b) 6 (closed b)
unfolding set_completion_callback register_factory find_factory dispatch_msg dispatch_to fac_msg_prc
    target_fsm find_fsm add_fsm start_fsm dispatch_to_fsm dispatch_at reclaim kill_fsm_by_id
    erase_fsm find_fsm_transition run_transition execute_fsm_transition set_state fsm_send_msg
    fsm_start_timer send_msg hub_start_timer start_timer notify_fsm_completed hub_timer_wake
    hub_timer_post timer_wake timer_post RegFsm.process_msg RegFsm.post_next_event
    RegFsm.send_next_msg RegFsm.start_next_timer
closed-Drives b =
    let started =
      handles (event msg_req 1) []
        (handles (event msg_connect 1) [] (handles (event msg_init 0) [] done refl) refl) refl in
    let posted =
      timer_posts 0
        (timer_wakes 0 (time_passes 100 (handles (event msg_resp 1) [] started refl))) in
    handles (event msg_close 1) [] (handles (event msg_timeout 1) [] posted refl) refl

-- At the end nothing is queued and the timer has ended.
closed_lem : ((closed false).hub.pump ≡ []) × AllEnded (closed false).hub.timers.timer_list
unfolding set_completion_callback register_factory find_factory dispatch_msg dispatch_to fac_msg_prc
    target_fsm find_fsm add_fsm start_fsm dispatch_to_fsm dispatch_at reclaim kill_fsm_by_id
    erase_fsm find_fsm_transition run_transition execute_fsm_transition set_state fsm_send_msg
    fsm_start_timer send_msg hub_start_timer start_timer notify_fsm_completed hub_timer_wake
    hub_timer_post timer_wake timer_post RegFsm.process_msg RegFsm.post_next_event
    RegFsm.send_next_msg RegFsm.start_next_timer
closed_lem = (refl, (refl, tt))

-- The factory for registrations when it has handled its first message.
abbrev begun_factory : Cfactory
begun_factory =
    (fac_msg_prc (set_fac_mgr (reg_factory 1)) (event msg_init 0)
      (with_pump [] (requested false)).hub).0

one_message_each_example :
    Held
      (lookup_fsm 1 begun_factory.fsm_list)
      (tokens begun_factory.fac_id 1 (pending (begun false).hub))
unfolding set_completion_callback register_factory find_factory dispatch_msg dispatch_to send_msg
one_message_each_example =
    one_message_each 0 begun_factory 1 begun-Undisturbed (omega arith) refl (omega arith)

quiet_manager-IsDrained_example : IsDrained (closed false)
quiet_manager-IsDrained_example =
    quiet_manager-IsDrained (drives (requested-Undisturbed false) (closed-Drives false))
      (omega arith) closed_lem.0 closed_lem.1

drains_example :
    (k : ℕ) × (g' : Manager) × Drives 0 (requested false) k g'
    × (k ≤ 0 + work (requested false).hub)
    × (g'.hub.pump ≡ [])
    × AllEnded g'.hub.timers.timer_list
    × IsDrained g'
unfolding set_completion_callback register_factory send_msg
drains_example = drains (requested-Undisturbed false) (omega arith)

requested-IsPlanned : IsPlanned (requested false)
unfolding set_completion_callback register_factory
requested-IsPlanned = ((reg_plan, reg_class-Follows, reg_plan-Descends), tt)

Drives-work_example :
    (6 + work (closed false).hub ≤ 0 + work (requested false).hub) × IsPlanned (closed false)
Drives-work_example = Drives-work (closed-Drives false) requested-IsPlanned
