-- ===== src/Main.antt =====
-- The `main` of reg_fsm/main.cpp, up to its loop and from the end of the loop on; Whole has all of it, with the loop that
-- waits for a signal, and World what the other threads do meanwhile. `Stop` of the manager takes fuel, so `none` means
-- that the fuel ran out. Logging is left out.
pub mod Outcome
pub mod World
pub mod Whole
pub mod Exits
pub mod Genuine
pub mod Live
pub mod Answers
pub mod Window
use fsm_framework.Base.{
  ℕ, zero, suc, ◌+◌, ◌<◌, ◌≡◌, refl, ap, ◌∙◌, ◌⊎◌, inl, inr, Bool, true, false, List, [], ◌∷◌,
  Option, none, some, if◌then◌else◌, arith, Bool-cases, Option-cases,
}
use fsm_framework.Data.{fac_reg_fac_id, fac_auth_fac_id, EerrNo, success, error, same_err}
use fsm_framework.Pump.{Hub}
use fsm_framework.Logger.{LogLevel}
use fsm_framework.Flow.Laws.{work}
use fsm_framework.Manager.{
  Manager, new_manager, register_factory, start, stop, destroy, request_stop,
}
use fsm_framework.Services.{reg_factory, auth_factory}
use fsm_framework.Http.Acceptor.{Sockets, Impl, http_start, http_stop}
use fsm_framework.Options.{HttpServerConfig, ServiceOptions, default_options, parse_args}

-- How far `main` gets before its loop: it returns an exit code, with the manager as its destructor leaves it if
-- there is one; or it serves, with the level of the logger set.
pub data Launch : Type 0 where
  exits : ℕ → Option Manager → Launch
  serves : LogLevel → Impl → Launch

-- `~Cfactory_mgr` stops the manager first.
unfoldable pub drop_manager : ℕ → Manager → Option Manager
unfolding stop destroy
drop_manager n g = elim (stop n g) [ none ↦ none | some g' ↦ some (destroy g') ]

unfoldable pub exit_with : ℕ → ℕ → Manager → Option Launch
unfolding drop_manager
exit_with code n g = elim (drop_manager n g) [ none ↦ none | some g' ↦ some (exits code (some g')) ]

-- The server that is constructed over the manager.
abbrev pub new_impl : Manager → Impl
new_impl g = record {
  manager = g;
  registry = record { entries = []; waiters = [] };
  acceptor_open = false;
  running = false;
  actual_port = 0;
  threads = 0;
}

-- From the server on.
unfoldable pub launch_server : Sockets → ℕ → ServiceOptions → Manager → Option Launch
unfolding http_start exit_with
launch_server k n o g =
    let (s, r) = http_start k (new_impl g) in
    if same_err success r
    then some (serves o.log_level s)
    else elim (stop n s.manager) [ none ↦ none | some g' ↦ exit_with 2 n g' ]

-- A part of the set-up goes on if it succeeded.
abbrev pub or_exit : ℕ → Manager × EerrNo → (Manager → Option Launch) → Option Launch
or_exit n (g, r) next = if same_err success r then next g else exit_with 2 n g

unfoldable pub launch : Sockets → ℕ → ServiceOptions → Option Launch
unfolding register_factory start launch_server
launch k n o = or_exit n (register_factory new_manager (some (reg_factory fac_reg_fac_id))) (λ g.
    or_exit n (register_factory g (some (auth_factory fac_auth_fac_id)))
      (λ g'. or_exit n (start g') (λ g''. launch_server k n o g'')))

module _ (strtoul : List ℕ → ℕ × Bool) (sockets : HttpServerConfig → Sockets) where
  -- `main` up to the loop; `sockets` is what the calls on the sockets do for the configuration.
  unfoldable pub main_launch : ℕ → List (List ℕ) → Option Launch
  unfolding launch parse_args
  main_launch n args = elim (parse_args strtoul args default_options) [
    | none ↦ some (exits 1 none)
    | some o ↦ launch (sockets o.http) n o
  ]

-- The destructors of the server and of the manager.
unfoldable pub main_drop : ℕ → Impl → Option Impl
unfolding http_stop drop_manager
main_drop n s =
    let again = http_stop s in
    elim (drop_manager n again.manager) [
      | none ↦ none
      | some g ↦ some (record again { manager = g })
    ]

-- `main` after the loop; then it returns 0.
unfoldable pub main_end : ℕ → Impl → Option Impl
unfolding http_stop stop main_drop
main_end n s =
    let closed = http_stop s in
    elim (stop n closed.manager) [
      | none ↦ none
      | some g ↦ main_drop n (record closed { manager = g })
    ]
