-- ===== src/Main/Whole.antt =====
-- The whole `main` of reg_fsm/main.cpp, with its loop. The loop looks at `g_stopRequested` every 200 ms; a round is what happens
-- between two looks: what the other threads do, and the signals that are delivered. What is printed are the usage texts;
-- the records of the logger, which go to the same stream, are left out.
use fsm_framework.Base.{
  ℕ, Bool, true, false, ◌||◌, List, [], ◌∷◌, ◌++◌, Option, none, some, if◌then◌else◌, codes,
  same_text,
}
use fsm_framework.Pump.{FsmCompletionEvent}
use fsm_framework.Http.Session.{Json}
use fsm_framework.Http.Handler.{Server}
use fsm_framework.Http.Acceptor.{Sockets, Impl}
use fsm_framework.Options.{HttpServerConfig, ServiceOptions, default_options, parse_arg}
use fsm_framework.Main.{exits, serves, main_launch, main_end}
use fsm_framework.Main.World.{Deed, act}

unfoldable pub print_usage : List ℕ → List ℕ
print_usage program =
    codes "Usage: "
    ++ program
    ++ codes " [--host=0.0.0.0]"
    ++ codes " [--port=8080]"
    ++ codes " [--log-level=debug|info|warn|error|off]"
    ++ codes " [--sync-timeout-ms=5000]"
    ++ b'\n' ∷ []

abbrev pub handle_signal : ℕ → Bool → Bool
handle_signal signal stop_requested = true

-- The flag after some signals.
abbrev pub deliver : List ℕ → Bool → Bool
deliver [] stop_requested = stop_requested
deliver (signal ∷ signals) stop_requested = deliver signals (handle_signal signal stop_requested)

pub record Round : Type 0 where
  pub deeds : List Deed
  pub signals : List ℕ

-- What the threads share: the server with its manager, and the counter of the session ids.
pub record Process : Type 0 where
  pub impl : Impl
  pub next_session_id : ℕ

abbrev pub process_server : Process → Server
process_server p = record {
  manager = p.impl.manager;
  next_session_id = p.next_session_id;
  registry = p.impl.registry;
}

-- The exit code, and what was printed.
pub record Exit : Type 0 where
  pub code : ℕ
  pub printed : List ℕ

module _ (strtoul : List ℕ → ℕ × Bool) where
  -- What `ParseArgs` prints.
  unfoldable pub parse_output : List ℕ → List (List ℕ) → ServiceOptions → List ℕ
  unfolding parse_arg print_usage
  parse_output program [] o = []
  parse_output program (arg ∷ args) o =
      if same_text (codes "--help") arg || same_text (codes "-h") arg
      then print_usage program
      else elim (parse_arg strtoul o arg) [ none ↦ [] | some o' ↦ parse_output program args o' ]

module _ (j : Json) (garbage : FsmCompletionEvent) where
  abbrev pub act_all : List Deed → Process → Process
  act_all [] p = p
  act_all (d ∷ ds) p =
      let s = act j garbage d (process_server p) in
      act_all ds (record {
        impl = record (p.impl) { manager = s.manager; registry = s.registry };
        next_session_id = s.next_session_id;
      })

  -- The loop of `main`; `none` means that it goes on after the last round.
  unfoldable pub main_loop : List Round → Bool → Process → Option Process
  main_loop [] stop_requested p = if stop_requested then some p else none
  main_loop (r ∷ rs) stop_requested p =
      let rest = main_loop rs (deliver r.signals stop_requested) (act_all r.deeds p) in
      if stop_requested then some p else rest

  -- From the loop on.
  unfoldable pub main_serve : ℕ → List ℕ → List Round → List ℕ → Impl → Option Exit
  unfolding main_loop main_end
  main_serve k early rounds printed s =
      elim (main_loop rounds (deliver early false) (record { impl = s; next_session_id = 1 })) [
        | none ↦ none
        | some p ↦ elim (main_end k p.impl) [
          | none ↦ none
          | some s' ↦ some (record { code = 0; printed = printed })
        ]
      ]

  module _ (strtoul : List ℕ → ℕ × Bool) (sockets : HttpServerConfig → Sockets) where
    -- The fuel is for the two calls of `Stop` of the manager; `early` are the signals before the loop.
    unfoldable pub main : ℕ → ℕ → List ℕ → List (List ℕ) → List ℕ → List Round → Option Exit
    unfolding main_launch main_serve parse_output print_usage
    main n k program args early rounds =
        let printed = parse_output strtoul program args default_options in
        elim (main_launch strtoul sockets n args) [
          | none ↦ none
          | some (exits code none) ↦
              some (record { code = code; printed = printed ++ print_usage program })
          | some (exits code (some g)) ↦ some (record { code = code; printed = printed })
          | some (serves level s) ↦ main_serve k early rounds printed s
        ]

abbrev pub any_signal : List ℕ → Bool
any_signal [] = false
any_signal (signal ∷ signals) = true

-- Whether a signal comes in some round.
abbrev pub is_signalled : List Round → Bool
is_signalled [] = false
is_signalled (r ∷ rs) = any_signal r.signals || is_signalled rs
