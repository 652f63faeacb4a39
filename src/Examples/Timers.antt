-- ===== src/Examples/Timers.antt =====
-- Timers of TimerManager.cpp: one that sleeps and one that is past its load of `active`.
use fsm_framework.Base.{ℕ, ◌≡◌, refl, ◌⊎◌, true, List, [], ◌∷◌, ◌++◌, none, arith}
use fsm_framework.Data.{success, timer_error, msg_timeout, MsgType, CMsg}
use fsm_framework.Timer.{Timer, TimerManager, Phase, sleeping, expired, stop_timer, timer_post}
use fsm_framework.Timer.Cancel.{NoTimer, cancelled, stop_timer_outcome}
use fsm_framework.Timer.Silent.{wakes, posts, apply_all, stop_timer_silences, timer_post_once}

abbrev timeout : MsgType → CMsg
timeout e = record { type = e; service_id = 1; fsm_id = 1; session_id = 7; msg = [] }

abbrev timer : ℕ → Phase → Timer
timer id at = record {
  ctrl = record { id = id; active = true };
  timeout_ms = 100;
  timeout_msg = timeout msg_timeout;
  due = 100;
  phase = at;
}

abbrev two_timers : TimerManager
two_timers = record { timer_list = timer 1 expired ∷ timer 2 sleeping ∷ []; next_timer_id = 3 }

stop_timer_outcome_example :
    (NoTimer 2 two_timers.timer_list × (stop_timer two_timers 2 ≡ (two_timers, timer_error)))
    ⊎ ((before : List Timer) × (t : Timer) × (after : List Timer) × (two_timers.timer_list
          ≡ before ++ t ∷ after)
        × NoTimer 2 before
        × (t.ctrl.id ≡ 2)
        × (stop_timer two_timers 2
            ≡ (record two_timers { timer_list = before ++ cancelled t ∷ after }, success)))
stop_timer_outcome_example = stop_timer_outcome two_timers 2

stop_timer_silences_example :
    ((stop_timer two_timers 2).1 ≡ success)
    × ((timer_post (apply_all (stop_timer two_timers 2).0 (posts 0 ∷ wakes 500 1 ∷ [])) 1).1 ≡ none)
stop_timer_silences_example =
    stop_timer_silences two_timers (timer 1 expired ∷ []) (timer 2 sleeping) []
      (posts 0 ∷ wakes 500 1 ∷ []) refl ((λ e. omega arith), tt) refl

timer_post_once_example :
    (timer_post (apply_all (timer_post two_timers 0).0 (wakes 500 0 ∷ wakes 500 1 ∷ [])) 0).1 ≡ none
timer_post_once_example =
    timer_post_once two_timers 0 (timeout msg_timeout) (wakes 500 0 ∷ wakes 500 1 ∷ [])
      (unfold timer_post in refl)
