-- ===== src/Main/Exits.antt =====
-- How the program of reg_fsm/main.cpp ends.
use fsm_framework.Base.{
  ℕ, suc, ◌≤◌, ◌<◌, ◌≡◌, refl, ◌⊎◌, inl, inr, Bool, true, false, List, [], ◌∷◌, ◌++◌, Option, none,
  some, arith, codes, same_text, ◌||◌, Bool-cases, Option-cases,
}
use fsm_framework.Pump.{FsmCompletionEvent}
use fsm_framework.Flow.{reg_plan, auth_plan}
use fsm_framework.Flow.Laws.{work, reg_plan-Descends, auth_plan-Descends}
use fsm_framework.Flow.Refinement.{reg_class-Follows, auth_class-Follows}
use fsm_framework.Manager.{Manager}
use fsm_framework.Manager.Progress.{IsPlanned}
use fsm_framework.Http.Session.{Json}
use fsm_framework.Http.Acceptor.{Sockets, Impl, IsServing, is_usable}
use fsm_framework.Options.{HttpServerConfig, ServiceOptions, default_options, parse_args, parse_arg}
use fsm_framework.Main.Outcome.{IsManaged, main_launch-Launched, main_end-IsGone}
use fsm_framework.Main.World.{Deed, act, IsSound, act-IsSound}
use fsm_framework.Main.Whole.{
  print_usage, deliver, Round, Process, process_server, Exit, parse_output, act_all, main_loop,
  main_serve, main, any_signal, is_signalled,
}

-- The server serves the port, and it and its manager are sound.
abbrev pub IsUp : ℕ → Process → Type 0
IsUp port p = IsServing port p.impl × IsSound (process_server p)

IsManaged-IsPlanned : (g : Manager) → IsManaged g → IsPlanned g
IsManaged-IsPlanned g m = rw m.0 (
  (reg_plan, reg_class-Follows, reg_plan-Descends),
  ((auth_plan, auth_class-Follows, auth_plan-Descends), tt),
)

-- The flag is set by any signal, and stays set.
deliver_set : (signals : List ℕ) → deliver signals true ≡ true
deliver_set [] = refl
deliver_set (signal ∷ signals) = deliver_set signals

-- The flag is set, or will be.
will_stop :
    (signals : List ℕ) (later : Bool)
    → (any_signal signals || later) ≡ true
    → (deliver signals false || later) ≡ true
will_stop [] later h = h
will_stop (signal ∷ signals) later h = rw (deliver_set signals) refl

module _ (j : Json) (garbage : FsmCompletionEvent) where
  act_all-IsUp :
      (port : ℕ) (ds : List Deed) (p : Process) → IsUp port p → IsUp port (act_all j garbage ds p)
  act_all-IsUp port [] p u = u
  act_all-IsUp port (d ∷ ds) p (v, k) =
      let s = act j garbage d (process_server p) in
      let k' = act-IsSound j garbage d (process_server p) k in
      act_all-IsUp port ds
        (record {
          impl = record (p.impl) { manager = s.manager; registry = s.registry };
          next_session_id = s.next_session_id;
        })
        (
          (v.0, v.1, v.2, v.3, k'.listens),
          record { kept = k'.kept; planned = k'.planned; listens = k'.listens },
        )

  -- The loop ends once a signal was delivered, and the server still serves then.
  main_loop-IsUp :
      (port : ℕ) (rs : List Round) (stop_requested : Bool) (p : Process)
      → IsUp port p
      → (stop_requested || is_signalled rs) ≡ true
      → (p' : Process) × (main_loop j garbage rs stop_requested p ≡ some p') × IsUp port p'
  unfolding main_loop
  main_loop-IsUp port [] true p u h = (p, refl, u)
  main_loop-IsUp port [] false p u h = cc
  main_loop-IsUp port (r ∷ rs) true p u h = (p, refl, u)
  main_loop-IsUp port (r ∷ rs) false p u h =
      main_loop-IsUp port rs (deliver r.signals false) (act_all j garbage r.deeds p)
        (act_all-IsUp port r.deeds p u) (will_stop r.signals (is_signalled rs) h)

  -- From the loop on, with a signal some time, and enough fuel for the last `Stop`.
  main_serve-exits :
      (port : ℕ) (early : List ℕ) (rounds : List Round) (printed : List ℕ) (s : Impl)
      → IsUp port (record { impl = s; next_session_id = 1 })
      → (any_signal early || is_signalled rounds) ≡ true
      → (k₀ : ℕ) × ((k : ℕ)
          → k₀ ≤ k
          → main_serve j garbage k early rounds printed s
            ≡ some (record { code = 0; printed = printed }))
  unfolding main_serve
  main_serve-exits port early rounds printed s u h =
      let p : Process = record { impl = s; next_session_id = 1 } in
      let (p', ended, up) =
        main_loop-IsUp port rounds (deliver early false) p u
          (will_stop early (is_signalled rounds) h) in
      (
        suc (work p'.impl.manager.hub),
        λ k le.
            let (s', gone, _, _, _) =
              main_end-IsGone k port p'.impl up.0 up.1.planned (omega (arith, le)) in
            rw (ended, main_serve) (rw (gone, main_serve) refl),
      )

  help_refused :
      (strtoul : List ℕ → ℕ × Bool) (arg : List ℕ) (o : ServiceOptions)
      → (same_text (codes "--help") arg || same_text (codes "-h") arg) ≡ true
      → parse_arg strtoul o arg ≡ none
  unfolding parse_arg
  help_refused strtoul arg o e = rw e refl

  -- Arguments that are accepted print nothing.
  accepted_silent :
      (strtoul : List ℕ → ℕ × Bool) (program : List ℕ) (args : List (List ℕ))
      (o o' : ServiceOptions)
      → parse_args strtoul args o ≡ some o'
      → parse_output strtoul program args o ≡ []
  unfolding parse_output parse_args
  accepted_silent strtoul program [] o o' e = refl
  accepted_silent strtoul program (arg ∷ args) o o' e =
      elim (Option-cases (parse_arg strtoul o arg)) [
        | inl refused ↦ absurd (ground (arith, rw (refused, parse_args) at e))
        | inr (o₁, taken) ↦
            elim (Bool-cases (same_text (codes "--help") arg || same_text (codes "-h") arg)) [
              | inl help ↦ absurd (ground (arith, help_refused strtoul arg o help))
              | inr other ↦
                  rw (taken, parse_output)
                    (rw other
                      (accepted_silent strtoul program args o₁ o' (rw (taken, parse_args) at e)))
            ]
      ]

  module _ (strtoul : List ℕ → ℕ × Bool) (sockets : HttpServerConfig → Sockets) where
    -- How the program ends: `1` and the usage for arguments that are refused; else `0`, if every call on the sockets
    -- succeeds, or `2`.
    abbrev pub Exits : List ℕ → List (List ℕ) → Option Exit → Type 0
    Exits program args out =
        ((parse_args strtoul args default_options ≡ none)
          × (out
              ≡ some (record {
                code = 1;
                printed = parse_output strtoul program args default_options ++ print_usage program;
              })))
        ⊎ ((o : ServiceOptions) × (parse_args strtoul args default_options ≡ some o)
            × (((is_usable (sockets o.http) ≡ true)
                  × (out ≡ some (record { code = 0; printed = [] })))
                ⊎ ((is_usable (sockets o.http) ≡ false)
                    × (out ≡ some (record { code = 2; printed = [] })))))

    -- Whatever the arguments, the socket calls and the other threads do, and whatever signals come, at least one of them
    -- before or during the rounds of the loop: with any fuel for the first `Stop` but none, and enough for the last one, the
    -- program ends. It prints the usage and returns 1 exactly if the arguments are refused; otherwise it prints
    -- nothing, and returns 0 if every call on the sockets succeeds, else 2. What is printed is taken without the records of the
    -- logger.
    pub main-Exits :
        (n : ℕ) (program : List ℕ) (args : List (List ℕ)) (early : List ℕ) (rounds : List Round)
        → 0 < n
        → (any_signal early || is_signalled rounds) ≡ true
        → (k₀ : ℕ) × ((k : ℕ)
            → k₀ ≤ k
            → Exits program args (main j garbage strtoul sockets n k program args early rounds))
    unfolding main
    main-Exits n program args early rounds h signalled =
        elim (main_launch-Launched strtoul sockets n args h) [
          | inl (refused, at) ↦ (0, λ k le. inl (refused, rw (at, main) refl))
          | inr (o, taken, inr (unusable, g, at, gone)) ↦
              let silent = accepted_silent strtoul program args default_options o taken in
              (0, λ k le. inr (o, taken, inr (unusable, rw (at, main) (rw silent refl))))
          | inr (o, taken, inl (usable, s, at, serving, managed, quiet)) ↦
              let silent = accepted_silent strtoul program args default_options o taken in
              let port = (sockets o.http).bound_port in
              let up : IsUp port (record { impl = s; next_session_id = 1 }) = (
                serving,
                record {
                  kept = (rw quiet tt, omega arith);
                  planned = IsManaged-IsPlanned s.manager managed;
                  listens = serving.4;
                },
              ) in
              let (k₀, serves_on) = main_serve-exits port early rounds [] s up signalled in
              (k₀, λ k le. inr (o, taken, inl (usable, rw (at, main) (rw silent (serves_on k le)))))
        ]
