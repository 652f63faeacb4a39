-- ===== src/Main/Outcome.antt =====
-- How `main` of reg_fsm/main.cpp ends, on every path.
use fsm_framework.Base.{
  ℕ, ◌<◌, ◌≡◌, refl, sym, subst, ◌∙◌, ◌⊎◌, inl, inr, Bool, true, false, List, [], ◌∷◌, Option, none,
  some, arith, Option-cases,
}
use fsm_framework.Data.{fac_reg_fac_id, fac_auth_fac_id}
use fsm_framework.Flow.{reg_plan, auth_plan}
use fsm_framework.Flow.Laws.{work, reg_plan-Descends, auth_plan-Descends}
use fsm_framework.Flow.Refinement.{reg_class-Follows, auth_class-Follows}
use fsm_framework.Factory.{set_fac_mgr}
use fsm_framework.Manager.{Manager, stop, join, destroy, request_stop}
use fsm_framework.Manager.Progress.{IsPlanned, stop_total}
use fsm_framework.Manager.Lifecycle.{destroy-Destroyed}
use fsm_framework.Services.{reg_factory, auth_factory}
use fsm_framework.Http.Waiters.{notify_all_waiters_as_stopped}
use fsm_framework.Http.Acceptor.{
  Sockets, Impl, IsIdle, IsServing, is_usable, http_start, http_stop, http_listen, http_start_lem,
  http_stop_lem,
}
use fsm_framework.Options.{HttpServerConfig, ServiceOptions, default_options, parse_args}
use fsm_framework.Main.{
  Launch, exits, serves, drop_manager, exit_with, new_impl, launch_server, launch, main_launch,
  main_drop, main_end,
}

-- No worker is left to join, and there is no factory and no timer.
abbrev pub IsGone : Manager → Type 0
IsGone g = (g.joinable ≡ false) × (g.fac_list ≡ []) × (g.hub.timers.timer_list ≡ [])

stop_unjoinable : (n : ℕ) (g : Manager) → g.joinable ≡ false → stop n g ≡ some (request_stop g)
unfolding stop join
stop_unjoinable n g e = ground arith

destroy-joinable : (g : Manager) → (destroy g).joinable ≡ g.joinable
unfolding destroy
destroy-joinable g = refl

-- A manager that was stopped is gone once it is destroyed.
drop_manager-IsGone :
    (n : ℕ) (g : Manager)
    → g.joinable ≡ false
    → (g' : Manager) × (drop_manager n g ≡ some g') × IsGone g'
unfolding drop_manager
drop_manager-IsGone n g e =
    let d = destroy-Destroyed (request_stop g) refl in
    (
      destroy (request_stop g),
      rw (stop_unjoinable n g e, drop_manager),
      (destroy-joinable (request_stop g) ∙ e, d.0, d.1),
    )

-- What `main` does on its way out with exit code 2.
exit_with-IsGone :
    (code n : ℕ) (g : Manager)
    → g.joinable ≡ false
    → (g' : Manager) × (exit_with code n g ≡ some (exits code (some g'))) × IsGone g'
unfolding exit_with
exit_with-IsGone code n g e =
    let (g', at, gone) = drop_manager-IsGone n g e in (g', rw (at, exit_with), gone)

-- Both factories are registered, and the worker runs.
abbrev pub IsManaged : Manager → Type 0
IsManaged g =
    (g.fac_list
      ≡ set_fac_mgr (reg_factory fac_reg_fac_id) ∷ set_fac_mgr (auth_factory fac_auth_fac_id) ∷ [])
    × (g.running ≡ true)
    × (g.hub.stopped ≡ false)
    × (g.hub.pump ≡ [])

-- `Start` of the server does not touch the factories, the queue and the timers.
http_start-manager :
    (k : Sockets) (s : Impl)
    → let g = (http_start k s).0.manager in
      (g.fac_list ≡ s.manager.fac_list)
      × (g.running ≡ s.manager.running)
      × (g.hub.stopped ≡ s.manager.hub.stopped)
      × (g.hub.pump ≡ s.manager.hub.pump)
      × (g.hub.timers ≡ s.manager.hub.timers)
unfolding http_start http_listen http_stop
http_start-manager k s = ground arith

http_start-waiters :
    (k : Sockets) (s : Impl) → s.registry.waiters ≡ [] → (http_start k s).0.registry.waiters ≡ []
unfolding http_start http_listen http_stop notify_all_waiters_as_stopped
http_start-waiters k s e = ground (arith, e)

-- What `main` got to, with the options `o` and the calls on the sockets `k`.
abbrev pub Launched : ServiceOptions → Sockets → Option Launch → Type 0
Launched o k l =
    ((is_usable k ≡ true)
      × (s : Impl) × (l ≡ some (serves o.log_level s))
      × IsServing k.bound_port s
      × IsManaged s.manager
      × (s.registry.waiters ≡ []))
    ⊎ ((is_usable k ≡ false) × (g : Manager) × (l ≡ some (exits 2 (some g))) × IsGone g)

-- From the server on.
launch_server-Launched :
    (n : ℕ) (k : Sockets) (o : ServiceOptions) (g : Manager)
    → IsManaged g
    → IsPlanned g
    → work g.hub < n
    → Launched o k (launch_server k n o g)
unfolding launch_server
launch_server-Launched n k o g m w h =
    let same = http_start-manager k (new_impl g) in
    let out = http_start k (new_impl g) in
    elim (http_start_lem k (new_impl g) (refl, refl, refl, refl)) [
      | inl (usable, e, serving) ↦ inl (
        usable,
        out.0,
        rw e refl,
        serving,
        (same.0 ∙ m.0, same.1 ∙ m.1, same.2 ∙ m.2, same.3 ∙ m.3),
        http_start-waiters k (new_impl g) refl,
      )
      | inr (unusable, e, down) ↦
          let less : work out.0.manager.hub < n = rw (same.3, same.4) h in
          let (g', stopped, unjoinable, _, _) = stop_total n out.0.manager (rw same.0 w) less in
          let (g'', left, gone) = exit_with-IsGone 2 n g' unjoinable in
          inr (unusable, g'', rw (e, stopped) left, gone)
    ]

launch-Launched : (n : ℕ) (k : Sockets) (o : ServiceOptions) → 0 < n → Launched o k (launch k n o)
unfolding launch
launch-Launched n k o h =
    launch_server-Launched n k o _ (refl, refl, refl, refl)
      (
        (reg_plan, reg_class-Follows, reg_plan-Descends),
        ((auth_plan, auth_class-Follows, auth_plan-Descends), tt),
      )
      h

module _ (strtoul : List ℕ → ℕ × Bool) (sockets : HttpServerConfig → Sockets) where
  -- With any fuel but none, `main` gets to its loop, or returns. It returns 1, with no manager made, exactly if the
  -- arguments are refused. Otherwise, if every call on the sockets succeeds, the server serves the bound port over
  -- a manager that runs, with both factories, an empty queue, no waiter and the logger's level as the options say; if not, it
  -- returns 2 and leaves no worker to join, no factory and no timer.
  pub main_launch-Launched :
      (n : ℕ) (args : List (List ℕ))
      → 0 < n
      → ((parse_args strtoul args default_options ≡ none)
          × (main_launch strtoul sockets n args ≡ some (exits 1 none)))
        ⊎ ((o : ServiceOptions) × (parse_args strtoul args default_options ≡ some o)
            × Launched o (sockets o.http) (main_launch strtoul sockets n args))
  unfolding main_launch
  main_launch-Launched n args h = elim (Option-cases (parse_args strtoul args default_options)) [
    | inl e ↦ inl (e, rw (e, main_launch) refl)
    | inr (o, e) ↦ inr (o, e, rw (e, main_launch) (launch-Launched n (sockets o.http) o h))
  ]

-- `Stop` of the server does not touch the factories, the worker, the queue and the timers.
http_stop-manager :
    (s : Impl)
    → let g = (http_stop s).manager in
      (g.fac_list ≡ s.manager.fac_list)
      × (work g.hub ≡ work s.manager.hub)
      × (g.joinable ≡ s.manager.joinable)
unfolding http_stop
http_stop-manager s = ground arith

http_stop_idle : (s : Impl) → s.running ≡ false → http_stop s ≡ s
unfolding http_stop
http_stop_idle s e = ground arith

-- The destructor of a server that was stopped does nothing.
main_drop_lem :
    (n : ℕ) (s : Impl) (g : Manager)
    → s.running ≡ false
    → drop_manager n s.manager ≡ some g
    → main_drop n s ≡ some (record s { manager = g })
unfolding main_drop
main_drop_lem n s g down dropped =
    let still = http_stop_idle s down in
    subst
      (λ (x : Impl).
        elim (drop_manager n x.manager) as (λ _. Option Impl) [
          | none ↦ none
          | some g' ↦ some (record x { manager = g' })
        ]
        ≡ some (record s { manager = g }))
      (sym still) (rw dropped refl)

-- From a server that serves, over a manager whose factories' classes follow plans, `main` ends once its loop does, if
-- the fuel exceeds the work that is queued and in the timers: afterwards the server is idle and no waiter is left, and
-- the manager has no worker to join, no factory and no timer.
pub main_end-IsGone :
    (n port : ℕ) (s : Impl)
    → IsServing port s
    → IsPlanned s.manager
    → work s.manager.hub < n
    → (s' : Impl) × (main_end n s ≡ some s')
      × IsIdle s'
      × (s'.registry.waiters ≡ [])
      × IsGone s'.manager
unfolding main_end
main_end-IsGone n port s v w h =
    let closed = http_stop s in
    let (down, _, quiet) = http_stop_lem port s v in
    let same = http_stop-manager s in
    let (g, stopped, unjoinable, _, _) = stop_total n closed.manager (rw same.0 w) (rw same.1 h) in
    let (g', dropped, gone) = drop_manager-IsGone n g unjoinable in
    (
      record closed { manager = g' },
      rw (stopped, main_end) (main_drop_lem n (record closed { manager = g }) g' down.0 dropped),
      down,
      quiet,
      gone,
    )
