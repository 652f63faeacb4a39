-- ===== src/Http/Acceptor.antt =====
-- `Start` and `Stop` of the server in reg_fsm/src/HttpServer.cpp. Boost.Asio's acceptor is open or
-- not; whether each call on it succeeds is the parameter `Sockets`. The two threads that run the
-- `io_context` are counted; the handlers that they run, and the call of `DoAccept` in `Start`, are in
-- module Connection.
use fsm_framework.Base.{
  ℕ, ◌+◌, ◌%◌, ◌^◌, ◌<◌, ◌≡◌, refl, ◌⊎◌, inl, inr, Bool, true, false, not, ◌&&◌, [], if◌then◌else◌,
  arith,
}
use fsm_framework.Data.{EerrNo, success, error}
use fsm_framework.Pump.{set_completion_callback}
use fsm_framework.Manager.{Manager}
use fsm_framework.Http.Waiters.{WaitRegistry, notify_all_waiters_as_stopped}

-- Whether `make_address`, `open`, `set_option`, `bind` and `listen` succeed, and the port that is
-- bound.
pub record Sockets : Type 0 where
  pub makes_address : Bool
  pub opens : Bool
  pub sets_option : Bool
  pub binds : Bool
  pub listens : Bool
  pub bound_port : ℕ

pub record Impl : Type 0 where
  pub manager : Manager
  pub registry : WaitRegistry
  pub acceptor_open : Bool
  pub running : Bool
  pub actual_port : ℕ
  pub threads : ℕ

abbrev pub set_callback : Bool → Impl → Impl
set_callback present s = record s {
  manager = record (s.manager) { hub = set_completion_callback s.manager.hub present };
}

unfoldable pub http_stop : Impl → Impl
unfolding set_completion_callback notify_all_waiters_as_stopped
http_stop s = if not s.running then s else record (set_callback false s) {
  running = false;
  acceptor_open = false;
  registry = notify_all_waiters_as_stopped s.registry;
  threads = 0;
  actual_port = 0;
}

-- From `set_option` on, with an open acceptor.
unfoldable pub http_listen : Sockets → Impl → Impl × EerrNo
unfolding http_stop
http_listen k s =
    if not k.sets_option
    then (http_stop s, error)
    else if not k.binds
    then (http_stop s, error)
    else if not k.listens
    then (http_stop s, error)
    else (
      record (set_callback true s) { actual_port = k.bound_port; threads = s.threads + 2 },
      success,
    )

unfoldable pub http_start : Sockets → Impl → Impl × EerrNo
unfolding http_listen
http_start k s =
    if s.running
    then (s, error)
    else if not k.makes_address
    then (record s { running = false }, error)
    else if not k.opens
    then (record s { running = false }, error)
    else http_listen k (record s { running = true; acceptor_open = true })

-- Nothing is open and no thread runs.
abbrev pub IsIdle : Impl → Type 0
IsIdle s = (s.running ≡ false) × (s.acceptor_open ≡ false) × (s.threads ≡ 0) × (s.actual_port ≡ 0)

-- The acceptor listens on the port, two threads serve it, and the manager tells of completions.
abbrev pub IsServing : ℕ → Impl → Type 0
IsServing port s =
    (s.running ≡ true)
    × (s.acceptor_open ≡ true)
    × (s.threads ≡ 2)
    × (s.actual_port ≡ port)
    × (s.manager.hub.has_callback ≡ true)

abbrev pub is_usable : Sockets → Bool
is_usable k = k.makes_address && k.opens && k.sets_option && k.binds && k.listens

-- `Start` on an idle server succeeds exactly when every call on the sockets does; then the server
-- serves the bound port. Otherwise the result is `ERROR` and the server is idle again.
pub http_start_lem :
    (k : Sockets) (s : Impl)
    → IsIdle s
    → ((is_usable k ≡ true)
        × ((http_start k s).1 ≡ success)
        × IsServing k.bound_port (http_start k s).0)
      ⊎ ((is_usable k ≡ false) × ((http_start k s).1 ≡ error) × IsIdle (http_start k s).0)
unfolding http_start
http_start_lem k s (asleep, closed, none_run, no_port) = ground arith

-- `Stop` on a server that serves makes it idle, takes the callback away and leaves no waiter.
pub http_stop_lem :
    (port : ℕ) (s : Impl)
    → IsServing port s
    → IsIdle (http_stop s)
      × ((http_stop s).manager.hub.has_callback ≡ false)
      × ((http_stop s).registry.waiters ≡ [])
unfolding http_stop
http_stop_lem port s v = ground arith

abbrev pub is_running : Impl → Bool
is_running s = s.running

-- The port, cast to `unsigned short`.
abbrev pub get_port : Impl → ℕ
get_port s = s.actual_port % 2 ^ 16

serving_port :
    (port : ℕ) (s : Impl)
    → IsServing port s
    → port < 2 ^ 16
    → (is_running s ≡ true) × (get_port s ≡ port)
serving_port port s (runs, _, _, same, _) b = (runs, rw same (omega arith))

idle_port : (s : Impl) → IsIdle s → (is_running s ≡ false) × (get_port s ≡ 0)
idle_port s (asleep, _, _, none_bound) = (asleep, rw none_bound refl)

-- A server that runs refuses another `Start`; one that does not run ignores `Stop`.
start_again : (k : Sockets) (s : Impl) → s.running ≡ true → http_start k s ≡ (s, error)
unfolding http_start
start_again k s runs = ground arith

stop_again : (s : Impl) → s.running ≡ false → http_stop s ≡ s
unfolding http_stop
stop_again s asleep = ground arith

-- What a caller sees of a server that was idle, where the port that is bound is an `unsigned short`. If every call on
-- the sockets succeeds, then after `Start` it runs on the bound port, and another `Start` fails and changes nothing; after
-- `Stop` it does not run and its port is 0, and another `Stop` changes nothing. If not, then after `Start` it does
-- not run and its port is 0.
pub start-Visible :
    (k : Sockets) (s : Impl)
    → IsIdle s
    → k.bound_port < 2 ^ 16
    → let on = (http_start k s).0 in
      ((is_usable k ≡ true)
        × ((is_running on ≡ true) × (get_port on ≡ k.bound_port))
        × (http_start k on ≡ (on, error))
        × ((is_running (http_stop on) ≡ false) × (get_port (http_stop on) ≡ 0))
        × (http_stop (http_stop on) ≡ http_stop on))
      ⊎ ((is_usable k ≡ false) × (is_running on ≡ false) × (get_port on ≡ 0))
start-Visible k s idle b = elim (http_start_lem k s idle) [
  | inl (usable, _, serving) ↦
      let on = (http_start k s).0 in
      let stopped = (http_stop_lem k.bound_port on serving).0 in
      inl (
        usable,
        serving_port k.bound_port on serving b,
        start_again k on serving.0,
        idle_port (http_stop on) stopped,
        stop_again (http_stop on) stopped.0,
      )
  | inr (unusable, _, down) ↦
      let seen = idle_port (http_start k s).0 down in inr (unusable, seen.0, seen.1)
]
