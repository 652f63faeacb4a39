-- ===== src/Http/Service.antt =====
-- The server of reg_fsm/src/HttpServer.cpp over its running manager: the completion callback that `Start` hands to the manager of
-- reg_fsm/src/Cfactory_mgr.cpp calls `OnCompletion` for each event while the worker handles a message.
pub mod Asked
pub mod EndToEnd
use fsm_framework.Base.{
  ℕ, zero, suc, ◌+◌, ◌≡◌, refl, ap, ◌∙◌, sym, inl, inr, List, [], ◌∷◌, ◌++◌, Option, none, some,
  length, All-get_elem?, Bool-cases, List-cases, Option-cases,
}
use mathlib.Core.List.{append_assoc, append-nil}
use fsm_framework.Timer.{timer_post}
use fsm_framework.Pump.{
  Hub, FsmCompletionEvent, notify_fsm_completed, hub_timer_wake, hub_timer_post,
}
use fsm_framework.Factory.{fac_msg_prc}
use fsm_framework.Factory.Work.{Planned}
use fsm_framework.Factory.Effects.{IsStable, fac_msg_prc-stable}
use fsm_framework.Manager.{Manager, with_pump, dispatch_to, dispatch_msg, pump_once}
use fsm_framework.Manager.Stable.{pump_once-stable}
use fsm_framework.Manager.Routing.{dispatch_msg_cases}
use fsm_framework.Manager.Progress.{IsPlanned, take_work, pump_once_lem}
use fsm_framework.System.{with_hub}
use fsm_framework.System.Told.Run.{timer_post-notified}
use fsm_framework.Services.Flows.{pump_times, fire}
use fsm_framework.Http.Waiters.{WaitRegistry, on_completion}
use fsm_framework.Http.Handler.{Server}

-- The list without its first `n` elements.
abbrev pub drop {ℓ} : {A : Type ℓ} → ℕ → List A → List A
drop zero xs = xs
drop (suc n) [] = []
drop (suc n) (x ∷ xs) = drop n xs

-- `OnCompletion` for each event, in order.
abbrev pub hear : WaitRegistry → List FsmCompletionEvent → WaitRegistry
hear r [] = r
hear r (e ∷ es) = hear (on_completion r e) es

-- What a thread does to the manager while the server listens: the events that the manager tells of are heard.
abbrev pub listen : (Manager → Manager) → Server → Server
listen k s = record s {
  manager = k s.manager;
  registry = hear s.registry (drop (length s.manager.hub.notified) (k s.manager).hub.notified);
}

-- `PumpOnce`, so many times.
abbrev pub pump_server : ℕ → Server → Server
pump_server zero s = s
pump_server (suc n) s = pump_server n (listen (λ g. (pump_once g).0) s)

-- So many milliseconds pass, and the thread of timer `k` wakes and posts.
abbrev pub fire_manager : ℕ → ℕ → Manager → Manager
fire_manager ms k g = with_hub (fire ms k g.hub) g

-- The manager `g'` has told of all that `g` had told of, and then of more.
abbrev pub Grows : Manager → Manager → Type 0
Grows g g' = (es : List FsmCompletionEvent) × (g'.hub.notified ≡ g.hub.notified ++ es)

-- Events that were there are still there.
abbrev Begins : List FsmCompletionEvent → Hub → Type 0
Begins xs h = (es : List FsmCompletionEvent) × (h.notified ≡ xs ++ es)

told-Begins :
    (xs : List FsmCompletionEvent) (e : FsmCompletionEvent) (h : Hub)
    → Begins xs h
    → Begins xs (notify_fsm_completed h e)
unfolding notify_fsm_completed
told-Begins xs e h (es, q) = elim (Bool-cases h.has_callback) [
  | inr deaf ↦ rw deaf (es, q)
  | inl hears ↦ rw hears (es ++ e ∷ [], rw q (append_assoc xs es (e ∷ [])))
]

Begins-IsStable : (xs : List FsmCompletionEvent) → IsStable (Begins xs)
Begins-IsStable xs = record { enqueued = λ m h b. b; timed = λ ms m h b. b; told = told-Begins xs }

-- Handling a message only adds events.
pub pump_once-Grows :
    (g : Manager) → IsPlanned g → Grows g (pump_once g).0 × IsPlanned (pump_once g).0
pump_once-Grows g w =
    let now : Begins g.hub.notified g.hub = ([], sym (append-nil g.hub.notified)) in
    pump_once-stable (Begins g.hub.notified) g (Begins-IsStable g.hub.notified) (λ ms. now) now w

pub fire_manager-Grows : (ms k : ℕ) (g : Manager) → Grows g (fire_manager ms k g)
unfolding hub_timer_wake
fire_manager-Grows ms k g = (
  [],
  timer_post-notified (hub_timer_wake (record (g.hub) { clock = g.hub.clock + ms }) k) k
      ∙ sym (append-nil g.hub.notified),
)

drop-append : (xs ys : List FsmCompletionEvent) → drop (length xs) (xs ++ ys) ≡ ys
drop-append [] ys = refl
drop-append (x ∷ xs) ys = drop-append xs ys

hear-append :
    (r : WaitRegistry) (xs ys : List FsmCompletionEvent) → hear r (xs ++ ys) ≡ hear (hear r xs) ys
hear-append r [] ys = refl
hear-append r (x ∷ xs) ys = hear-append (on_completion r x) xs ys

-- The events that are heard are those that were added.
pub listen_lem :
    (k : Manager → Manager) (s : Server) (es : List FsmCompletionEvent)
    → (k s.manager).hub.notified ≡ s.manager.hub.notified ++ es
    → listen k s ≡ record s { manager = k s.manager; registry = hear s.registry es }
listen_lem k s es e = rw (e, drop-append s.manager.hub.notified es) refl

-- Two things that a thread does, one after the other.
pub listen-listen :
    (k l : Manager → Manager) (s : Server)
    → Grows s.manager (k s.manager)
    → Grows (k s.manager) (l (k s.manager))
    → listen l (listen k s) ≡ listen (λ g. l (k g)) s
listen-listen k l s (xs, p) (ys, q) =
    let both =
      q
      ∙ ap (λ (zs : List FsmCompletionEvent). zs ++ ys) p
      ∙ append_assoc s.manager.hub.notified xs ys in
    let first = listen_lem k s xs p in
    let s' = record s { manager = k s.manager; registry = hear s.registry xs } in
    ap (listen l) first
    ∙ listen_lem l s' ys q
    ∙ sym (listen_lem (λ g. l (k g)) s (xs ++ ys) both ∙ rw (hear-append s.registry xs ys) refl)

pub Grows-trans : (g g' g'' : Manager) → Grows g g' → Grows g' g'' → Grows g g''
Grows-trans g g' g'' (xs, p) (ys, q) = (
  xs ++ ys,
  q ∙ ap (λ (zs : List FsmCompletionEvent). zs ++ ys) p ∙ append_assoc g.hub.notified xs ys,
)

pub pump_times-Grows :
    (n : ℕ) (g : Manager) → IsPlanned g → Grows g (pump_times n g) × IsPlanned (pump_times n g)
pump_times-Grows zero g w = (([], sym (append-nil g.hub.notified)), w)
pump_times-Grows (suc n) g w =
    let step = pump_once-Grows g w in
    let rest = pump_times-Grows n (pump_once g).0 step.1 in
    (Grows-trans g (pump_once g).0 (pump_times (suc n) g) step.0 rest.0, rest.1)

-- A server that listens hears what the messages tell of.
pub pump_server_lem :
    (n : ℕ) (s : Server) → IsPlanned s.manager → pump_server n s ≡ listen (pump_times n) s
pump_server_lem zero s w = sym (listen_lem (λ g. g) s [] (sym (append-nil s.manager.hub.notified)))
pump_server_lem (suc n) s w =
    let step = pump_once-Grows s.manager w in
    let once : Manager → Manager = λ g. (pump_once g).0 in
    pump_server_lem n (listen once s) step.1
    ∙ listen-listen once (pump_times n) s step.0 (pump_times-Grows n (once s.manager) step.1).0
