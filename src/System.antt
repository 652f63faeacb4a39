-- ===== src/System.antt =====
-- The program as interleaved threads: clients call the manager of Cfactory_mgr.cpp, the worker of
-- `Run` or a caller of `PumpOnce` handles messages one at a time, the timers' threads of
-- TimerManager.cpp wake and post, and time passes. Each critical section is one step.
pub mod Invariant
pub mod Pending
pub mod Undisturbed
pub mod Tracking
pub mod Handling
pub mod Balance
pub mod Routed
pub mod Custody
pub mod Measure
pub mod Drain
pub mod Told
use fsm_framework.Base.{ℕ, zero, suc, ◌+◌, ◌≡◌, Bool, true, false, List, [], ◌∷◌, some}
use fsm_framework.Data.{CMsg}
use fsm_framework.Pump.{
  Hub, hub_start_timer, hub_stop_timer, hub_stop_all_timers, hub_timer_wake, hub_timer_post,
  set_completion_callback,
}
use fsm_framework.Factory.{FsmClass, new_factory}
use fsm_framework.Factory.Work.{Planned}
use fsm_framework.Manager.{
  Manager, new_manager, register_factory, post, dispatch_msg, with_pump, start, request_stop,
}

abbrev pub with_hub : Hub → Manager → Manager
with_hub h g = record g { hub = h }

-- A step that handles no message.
pub data Step : Manager → Manager → Type 0 where
  sends : (g : Manager) (m : CMsg) → Step g (post g m).0
  registers :
      (g : Manager) (c : FsmClass) (id : ℕ)
      → Planned c
      → Step g (register_factory g (some (new_factory c id))).0
  starts : (g : Manager) → Step g (start g).0
  stops : (g : Manager) → Step g (request_stop g)
  -- The loop of `Run` leaves; then `Join` returns.
  worker_ends :
      (g : Manager) → g.hub.pump ≡ [] → g.hub.stopped ≡ true → Step g (record g { running = false })
  joins : (g : Manager) → g.running ≡ false → Step g (record g { joinable = false })
  starts_timer :
      (g : Manager) (ms : ℕ) (m : CMsg) → Step g (with_hub (hub_start_timer g.hub ms m).0 g)
  stops_timer : (g : Manager) (id : ℕ) → Step g (with_hub (hub_stop_timer g.hub id).0 g)
  stops_timers : (g : Manager) → Step g (with_hub (hub_stop_all_timers g.hub) g)
  timer_wakes : (g : Manager) (i : ℕ) → Step g (with_hub (hub_timer_wake g.hub i) g)
  timer_posts : (g : Manager) (i : ℕ) → Step g (with_hub (hub_timer_post g.hub i) g)
  sets_callback : (g : Manager) (b : Bool) → Step g (with_hub (set_completion_callback g.hub b) g)
  time_passes :
      (g : Manager) (ms : ℕ) → Step g (with_hub (record (g.hub) { clock = g.hub.clock + ms }) g)

-- What a new manager reaches with `n` messages handled.
pub data Reach : ℕ → Manager → Type 0 where
  here : Reach zero new_manager
  next : {n : ℕ} {g g' : Manager} → Reach n g → Step g g' → Reach n g'
  handles :
      {n : ℕ} {g : Manager} (m : CMsg) (rest : List CMsg)
      → Reach n g
      → g.hub.pump ≡ m ∷ rest
      → Reach (suc n) (dispatch_msg (with_pump rest g) m).0
