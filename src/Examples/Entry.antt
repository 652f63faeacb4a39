-- ===== src/Examples/Entry.antt =====
-- The `main` of reg_fsm/main.cpp with no arguments, and at its end.
use fsm_framework.Base.{
  ℕ, ◌≤◌, ◌∷◌, codes, ◌≡◌, refl, ◌⊎◌, Bool, true, false, List, [], none, some, arith,
}
use fsm_framework.Pump.{new_hub}
use fsm_framework.Flow.{reg_plan, auth_plan}
use fsm_framework.Flow.Laws.{reg_plan-Descends, auth_plan-Descends}
use fsm_framework.Flow.Refinement.{reg_class-Follows, auth_class-Follows}
use fsm_framework.Manager.Progress.{IsPlanned}
use fsm_framework.Services.{service_manager}
use fsm_framework.Http.Acceptor.{Sockets, Impl, IsIdle}
use fsm_framework.Options.{HttpServerConfig, ServiceOptions, default_options, parse_args}
use fsm_framework.Main.{exits, main_launch, main_end, new_impl}
use fsm_framework.Main.Outcome.{Launched, IsGone, main_launch-Launched, main_end-IsGone}
use fsm_framework.Main.World.{pumps, passes, requests}
use fsm_framework.Main.Whole.{Round, main}
use fsm_framework.Main.Exits.{Exits, main-Exits}
use fsm_framework.Examples.Http.{brace_json, blank, wait_request}

-- A `strtoul` that reads nothing.
abbrev reads_nothing : List ℕ → ℕ × Bool
reads_nothing text = (0, false)

-- The configured port is free.
abbrev free : HttpServerConfig → Sockets
free c = record {
  makes_address = true;
  opens = true;
  sets_option = true;
  binds = true;
  listens = true;
  bound_port = c.port;
}

main_launch-Launched_example :
    ((parse_args reads_nothing [] default_options ≡ none)
      × (main_launch reads_nothing free 1 [] ≡ some (exits 1 none)))
    ⊎ ((o : ServiceOptions) × (parse_args reads_nothing [] default_options ≡ some o)
        × Launched o (free o.http) (main_launch reads_nothing free 1 []))
main_launch-Launched_example = main_launch-Launched reads_nothing free 1 [] (omega arith)

-- The server serves over the manager of the service.
abbrev entry_server : Impl
entry_server =
    record (new_impl (record service_manager { hub = record new_hub { has_callback = true } })) {
      acceptor_open = true;
      running = true;
      actual_port = 8080;
      threads = 2;
    }

entry_server-IsPlanned : IsPlanned entry_server.manager
unfolding service_manager
entry_server-IsPlanned = (
  (reg_plan, reg_class-Follows, reg_plan-Descends),
  ((auth_plan, auth_class-Follows, auth_plan-Descends), tt),
)

main_end-IsGone_example :
    (s : Impl) × (main_end 1 entry_server ≡ some s)
    × IsIdle s
    × (s.registry.waiters ≡ [])
    × IsGone s.manager
main_end-IsGone_example =
    main_end-IsGone 1 8080 entry_server (refl, refl, refl, refl, refl) entry_server-IsPlanned
      (omega arith)

-- A request comes in and its FSM begins; then the program is interrupted.
abbrev busy_round : Round
busy_round = record {
  deeds = requests wait_request ∷ pumps ∷ pumps ∷ passes 200 ∷ [];
  signals = 2 ∷ [];
}

main-Exits_example :
    (k₀ : ℕ) × ((k : ℕ)
      → k₀ ≤ k
      → Exits brace_json blank reads_nothing free
          (codes "reg_fsm")
          []
          (main brace_json blank reads_nothing free 1 k (codes "reg_fsm") [] [] (busy_round ∷ [])))
main-Exits_example =
    main-Exits brace_json blank reads_nothing free 1 (codes "reg_fsm") [] [] (busy_round ∷ [])
      (omega arith) refl
