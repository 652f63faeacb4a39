-- ===== src/Timer.antt =====
-- reg_fsm/src/TimerManager.cpp and reg_fsm/inc/TimerManager.h. `StartTimer` makes a control block
-- and a thread that holds it and the timer's message; both are one `Timer` here. The thread's body
-- is two steps, so that other threads can act between them: it wakes and loads `active`, then it
-- calls the callback. `sleep_for` blocks for at least its argument, so a thread may wake at any
-- time from `due` on. Debug logging is left out.
pub mod Cancel
pub mod Silent
pub mod Due
use fsm_framework.Base.{
  ℕ, zero, suc, ◌+◌, Bool, true, false, List, [], ◌∷◌, ◌++◌, map, Option, none, some, leb, ◌==◌,
  if◌then◌else◌, get_elem?, set, ◌&&◌,
}
use fsm_framework.Data.{EerrNo, success, timer_error, CMsg, u32}

pub record CTimerCtrl : Type 0 where
  pub id : ℕ
  pub active : Bool

-- Where the thread of a timer stands: in `sleep_for`, past a load of `active` that gave true, or at
-- its end.
pub data Phase : Type 0 where
  sleeping expired finished : Phase

abbrev pub is_sleeping : Phase → Bool
is_sleeping sleeping = true
is_sleeping _ = false

abbrev pub is_expired : Phase → Bool
is_expired expired = true
is_expired _ = false

pub record Timer : Type 0 where
  pub ctrl : CTimerCtrl
  pub timeout_ms : ℕ
  pub timeout_msg : CMsg
  pub due : ℕ
  pub phase : Phase

pub record TimerManager : Type 0 where
  pub timer_list : List Timer
  pub next_timer_id : ℕ

abbrev pub new_timer_manager : TimerManager
new_timer_manager = record { timer_list = []; next_timer_id = 1 }

-- The state and the id that the caller gets; `now` is the time of the call.
unfoldable pub start_timer : TimerManager → ℕ → ℕ → CMsg → TimerManager × ℕ
start_timer tm now ms m =
    let t : Timer = record {
      ctrl = record { id = tm.next_timer_id; active = true };
      timeout_ms = ms;
      timeout_msg = m;
      due = now + ms;
      phase = sleeping;
    } in
    (
      record { timer_list = tm.timer_list ++ t ∷ []; next_timer_id = u32 (tm.next_timer_id + 1) },
      tm.next_timer_id,
    )

abbrev pub deactivate : Timer → Timer
deactivate t = record t { ctrl = record { id = t.ctrl.id; active = false } }

-- The loop of `StopTimer`: the first control block with the id, if any, is made inactive.
unfoldable pub stop_first : ℕ → List Timer → Option (List Timer)
stop_first id [] = none
stop_first id (t ∷ ts) =
    let rest = stop_first id ts in
    if t.ctrl.id == id
    then some (deactivate t ∷ ts)
    else elim rest [ none ↦ none | some us ↦ some (t ∷ us) ]

unfoldable pub stop_timer : TimerManager → ℕ → TimerManager × EerrNo
unfolding stop_first
stop_timer tm id = elim (stop_first id tm.timer_list) [
  | none ↦ (tm, timer_error)
  | some ts ↦ (record tm { timer_list = ts }, success)
]

unfoldable pub stop_all_timers : TimerManager → TimerManager
stop_all_timers tm = record tm { timer_list = map deactivate tm.timer_list }

-- A sleeping thread wakes, if its time has come, and loads `active`.
abbrev pub wake : ℕ → Timer → Timer
wake now t =
    if is_sleeping t.phase && leb t.due now
    then record t { phase = if t.ctrl.active then expired else finished }
    else t

unfoldable pub timer_wake : TimerManager → ℕ → ℕ → TimerManager
timer_wake tm now i = elim (get_elem? tm.timer_list i) [
  | none ↦ tm
  | some t ↦ record tm { timer_list = set tm.timer_list i (wake now t) }
]

-- A thread past its load ends; what it hands to the callback.
unfoldable pub timer_post : TimerManager → ℕ → TimerManager × Option CMsg
timer_post tm i = elim (get_elem? tm.timer_list i) [
  | none ↦ (tm, none)
  | some t ↦
      if is_expired t.phase
      then (
        record tm { timer_list = set tm.timer_list i (record t { phase = finished }) },
        some t.timeout_msg,
      )
      else (tm, none)
]

-- What a thread still hands to the callback when nothing is active any more and it is joined.
abbrev pub last_post : Timer → List CMsg
last_post t = if is_expired t.phase then t.timeout_msg ∷ [] else []

unfoldable pub last_posts : List Timer → List CMsg
last_posts [] = []
last_posts (t ∷ ts) = last_post t ++ last_posts ts

-- Every thread is joined, and the lists are emptied. The threads end in any order; the messages
-- are listed in the order of the timers.
unfoldable pub stop_and_join : TimerManager → TimerManager × List CMsg
unfolding stop_all_timers last_posts
stop_and_join tm =
    (record (stop_all_timers tm) { timer_list = [] }, last_posts (stop_all_timers tm).timer_list)
