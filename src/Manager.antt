-- ===== src/Manager.antt =====
-- reg_fsm/src/Cfactory_mgr.cpp and reg_fsm/inc/Cfactory_mgr.h: the factories and the message pump.
-- A pointer to a factory is its index in `_fac_list`. The message queue, the timers and the
-- callback are the `Hub`. `_worker_thread` is `joinable`: whether it holds a thread. A part locked
-- by a mutex is one step; the handling of a message, which only the worker does, is one step too,
-- from the search for the factory to `KillFsm` after the callback.
pub mod Progress
pub mod Registry
pub mod Routing
pub mod Lifecycle
pub mod Session
pub mod Stable
pub mod Window
use fsm_framework.Base.{
  ℕ, zero, suc, ◌==◌, leb, Bool, true, false, not, ◌&&◌, List, [], ◌∷◌, ◌++◌, Option, none, some,
  if◌then◌else◌, length, get_elem?, set,
}
use fsm_framework.Data.{fac_num_in_mgr_max, EerrNo, success, error, invalid_msg, CMsg}
use fsm_framework.Timer.{TimerManager, stop_and_join}
use fsm_framework.Pump.{Hub, new_hub, send_msg, post_to_pump}
use fsm_framework.Factory.{Cfactory, set_fac_mgr, fac_msg_prc}

pub record Manager : Type 0 where
  pub fac_list : List Cfactory
  pub hub : Hub
  pub running : Bool
  pub joinable : Bool

abbrev pub new_manager : Manager
new_manager = record { fac_list = []; hub = new_hub; running = false; joinable = false }

unfoldable pub find_factory : ℕ → List Cfactory → Option ℕ
find_factory id [] = none
find_factory id (c ∷ cs) =
    let rest = find_factory id cs in
    if c.fac_id == id then some 0 else elim rest [ none ↦ none | some i ↦ some (suc i) ]

-- `none` is a null factory.
unfoldable pub register_factory : Manager → Option Cfactory → Manager × EerrNo
unfolding find_factory
register_factory g none = (g, error)
register_factory g (some fac) =
    if leb fac_num_in_mgr_max (length g.fac_list)
    then (g, error)
    else elim (find_factory fac.fac_id g.fac_list) [
      | some _ ↦ (g, error)
      | none ↦ (record g { fac_list = g.fac_list ++ set_fac_mgr fac ∷ [] }, success)
    ]

-- `SendMsg` on the manager.
abbrev pub post : Manager → CMsg → Manager × EerrNo
post g m = (record g { hub = (send_msg g.hub m).0 }, (send_msg g.hub m).1)

-- The factory at index `i`, which is `fac`, handles the message.
unfoldable pub dispatch_to : Manager → ℕ → Cfactory → CMsg → Manager × EerrNo
dispatch_to g i fac m =
    let done = fac_msg_prc fac m g.hub in
    (record g { fac_list = set g.fac_list i done.0; hub = done.1 }, done.2)

unfoldable pub dispatch_msg : Manager → CMsg → Manager × EerrNo
unfolding find_factory dispatch_to
dispatch_msg g m = elim (find_factory m.service_id g.fac_list) [
  | none ↦ (g, invalid_msg)
  | some i ↦ elim (get_elem? g.fac_list i) [
    | none ↦ (g, invalid_msg)
    | some fac ↦ dispatch_to g i fac m
  ]
]

-- The manager with the front message taken off its queue.
abbrev pub with_pump : List CMsg → Manager → Manager
with_pump ms g = record g { hub = record (g.hub) { pump = ms } }

unfoldable pub pump_once : Manager → Manager × EerrNo
unfolding dispatch_msg
pump_once g = elim g.hub.pump [ [] ↦ (g, success) | m ∷ rest ↦ dispatch_msg (with_pump rest g) m ]

-- The loop on fuel; `none` means that the fuel ran out.
unfoldable pub run_until_empty : ℕ → Manager → Option Manager
run_until_empty zero g = none
run_until_empty (suc n) g = elim g.hub.pump [
  | [] ↦ some g
  | _ ∷ _ ↦ run_until_empty n (pump_once g).0
]

-- The states of the loop of `Run`: it waits while the queue is empty and the manager is not
-- stopped; it leaves once the queue is empty and the manager is stopped.
unfoldable pub run : ℕ → Manager → Option Manager
unfolding dispatch_msg
run zero g = none
run (suc n) g = elim g.hub.pump [
  | [] ↦ if g.hub.stopped then some (record g { running = false }) else none
  | m ∷ rest ↦ run n (dispatch_msg (with_pump rest g) m).0
]

unfoldable pub start : Manager → Manager × EerrNo
start g = if g.running then (g, error) else if g.joinable then (g, error) else (
  record g { hub = record (g.hub) { stopped = false }; running = true; joinable = true },
  success,
)

-- The first part of `Stop`: from here on `SendMsg` fails.
abbrev pub request_stop : Manager → Manager
request_stop g = record g { hub = record (g.hub) { stopped = true } }

-- `Join` waits for the worker's loop to end, if there is a worker. The fuel is for that loop.
unfoldable pub join : ℕ → Manager → Option Manager
unfolding run
join n g =
    if g.joinable
    then elim (run n g) [ none ↦ none | some g' ↦ some (record g' { joinable = false }) ]
    else some g

-- `Stop` on a manager whose other threads stay still.
unfoldable pub stop : ℕ → Manager → Option Manager
unfolding join
stop n g = join n (request_stop g)

-- The timers' last messages, each given to the callback.
unfoldable pub post_all : List CMsg → Hub → Hub
post_all [] h = h
post_all (m ∷ ms) h = post_all ms (post_to_pump (some m) h)

-- The destructor, after its `Stop`: the timers end, then the factories are dropped.
unfoldable pub destroy : Manager → Manager
unfolding post_all stop_and_join
destroy g =
    let (tm, posted) = stop_and_join g.hub.timers in
    record g { fac_list = []; hub = post_all posted (record (g.hub) { timers = tm }) }
