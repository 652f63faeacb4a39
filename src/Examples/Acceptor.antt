-- ===== src/Examples/Acceptor.antt =====
-- The server of reg_fsm/src/HttpServer.cpp, idle and serving.
use fsm_framework.Base.{◌≡◌, arith, refl, ◌⊎◌, true, false, []}
use fsm_framework.Data.{error}
use fsm_framework.Pump.{new_hub}
use fsm_framework.Manager.{new_manager}
use fsm_framework.Http.Acceptor.{
  Sockets, Impl, http_start, http_stop, is_usable, is_running, get_port, start-Visible,
}

-- The port is free.
abbrev free : Sockets
free = record {
  makes_address = true;
  opens = true;
  sets_option = true;
  binds = true;
  listens = true;
  bound_port = 8080;
}

abbrev idle_server : Impl
idle_server = record {
  manager = new_manager;
  registry = record { entries = []; waiters = [] };
  acceptor_open = false;
  running = false;
  actual_port = 0;
  threads = 0;
}

abbrev serving : Impl
serving = record idle_server {
  manager = record new_manager { hub = record new_hub { has_callback = true } };
  acceptor_open = true;
  running = true;
  actual_port = 8080;
  threads = 2;
}

start-Visible_example :
    let on = (http_start free idle_server).0 in
    ((is_usable free ≡ true)
      × ((is_running on ≡ true) × (get_port on ≡ 8080))
      × (http_start free on ≡ (on, error))
      × ((is_running (http_stop on) ≡ false) × (get_port (http_stop on) ≡ 0))
      × (http_stop (http_stop on) ≡ http_stop on))
    ⊎ ((is_usable free ≡ false) × (is_running on ≡ false) × (get_port on ≡ 0))
start-Visible_example = start-Visible free idle_server (refl, refl, refl, refl) (omega arith)
