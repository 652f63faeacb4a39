-- ===== src/Pump.antt =====
-- The part of reg_fsm/src/Cfactory_mgr.cpp that an FSM reaches through `_factory->GetFacMgr()`: the
-- message queue, the stop flag, the timers and the completion callback. The manager's own state
-- (module Manager) adds the factories. A queue locked by `_pump_lock` is one step here.
-- The callback is code of the client: `notified` lists the events that it was called with.
use fsm_framework.Base.{ℕ, Bool, false, List, [], ◌∷◌, ◌++◌, Option, none, some, if◌then◌else◌}
use fsm_framework.Data.{EerrNo, success, invalid_state, MsgType, CMsg}
use fsm_framework.Timer.{
  TimerManager, new_timer_manager, start_timer, stop_timer, stop_all_timers, timer_wake, timer_post,
}

pub record FsmCompletionEvent : Type 0 where
  pub service_id : ℕ
  pub fsm_id : ℕ
  pub session_id : ℕ
  pub result : EerrNo
  pub final_event : MsgType

pub record Hub : Type 0 where
  pub pump : List CMsg
  pub stopped : Bool
  pub timers : TimerManager
  pub has_callback : Bool
  pub notified : List FsmCompletionEvent
  -- The steady clock, in milliseconds.
  pub clock : ℕ

abbrev pub new_hub : Hub
new_hub = record {
  pump = [];
  stopped = false;
  timers = new_timer_manager;
  has_callback = false;
  notified = [];
  clock = 0;
}

unfoldable pub send_msg : Hub → CMsg → Hub × EerrNo
send_msg h m =
    if h.stopped then (h, invalid_state) else (record h { pump = h.pump ++ m ∷ [] }, success)

unfoldable pub hub_start_timer : Hub → ℕ → CMsg → Hub × ℕ
unfolding start_timer
hub_start_timer h ms m =
    let (tm, id) = start_timer h.timers h.clock ms m in (record h { timers = tm }, id)

unfoldable pub hub_stop_timer : Hub → ℕ → Hub × EerrNo
hub_stop_timer h id = let (tm, r) = stop_timer h.timers id in (record h { timers = tm }, r)

unfoldable pub hub_stop_all_timers : Hub → Hub
hub_stop_all_timers h = record h { timers = stop_all_timers h.timers }

unfoldable pub set_completion_callback : Hub → Bool → Hub
set_completion_callback h present = record h { has_callback = present }

unfoldable pub notify_fsm_completed : Hub → FsmCompletionEvent → Hub
notify_fsm_completed h e =
    if h.has_callback then record h { notified = h.notified ++ e ∷ [] } else h

-- The thread of timer `i` wakes.
unfoldable pub hub_timer_wake : Hub → ℕ → Hub
hub_timer_wake h i = record h { timers = timer_wake h.timers h.clock i }

abbrev pub post_to_pump : Option CMsg → Hub → Hub
post_to_pump none h = h
post_to_pump (some m) h = (send_msg h m).0

-- The thread of timer `i` calls the callback, which the manager's constructor set to `SendMsg`.
unfoldable pub hub_timer_post : Hub → ℕ → Hub
unfolding send_msg
hub_timer_post h i =
    let (tm, posted) = timer_post h.timers i in post_to_pump posted (record h { timers = tm })
