-- ===== src/Main/World.antt =====
-- What the other threads of the program do while `main` of reg_fsm/main.cpp waits in its loop: the worker, the timers' threads and
-- the threads of the server, each step of them a deed.
use fsm_framework.Base.{
  ℕ, ◌+◌, ◌≡◌, ◌∙◌, inl, inr, true, List, [], ◌∷◌, none, some, length, get_elem?, Option-cases,
  arith,
}
use fsm_framework.Data.{CMsg}
use fsm_framework.Timer.{timer_post}
use fsm_framework.Pump.{
  Hub, FsmCompletionEvent, notify_fsm_completed, hub_timer_wake, hub_timer_post,
}
use fsm_framework.Factory.Effects.{IsStable}
use fsm_framework.Manager.{pump_once}
use fsm_framework.Manager.Progress.{IsPlanned}
use fsm_framework.Manager.Stable.{pump_once-stable}
use fsm_framework.System.{with_hub}
use fsm_framework.System.Told.{send_msg-notified}
use fsm_framework.Http.Session.{Json}
use fsm_framework.Http.Waiters.{WaitRegistry, on_completion}
use fsm_framework.Http.Waiters.Keeping.{IsTidy, on_completion-IsTidy, unregister_waiter-IsTidy}
use fsm_framework.Http.Handler.{Request, Server, Reply, answers, waits, handle_request, finish_sync}
use fsm_framework.Http.Handler.Errors.{Outcome, handle_request-Outcome}
use fsm_framework.Http.Handler.Keeping.{IsKept, handle_request-Keeps}
use fsm_framework.Http.Service.{hear, listen, drop}

-- The worker handles a message; the thread of a timer wakes or posts; time passes; a request comes in; a wait on an entry ends.
pub data Deed : Type 0 where
  pumps : Deed
  wakes posts passes : ℕ → Deed
  requests : Request → Deed
  ends_wait : ℕ → ℕ → CMsg → List ℕ → Deed

abbrev pub on_hub : (Hub → Hub) → Server → Server
on_hub k s = record s { manager = with_hub (k s.manager.hub) s.manager }

module _ (j : Json) (garbage : FsmCompletionEvent) where
  unfoldable pub act : Deed → Server → Server
  unfolding pump_once hub_timer_wake hub_timer_post handle_request finish_sync
  act pumps s = listen (λ g. (pump_once g).0) s
  act (wakes i) s = on_hub (λ h. hub_timer_wake h i) s
  act (posts i) s = on_hub (λ h. hub_timer_post h i) s
  act (passes ms) s = on_hub (λ h. record h { clock = h.clock + ms }) s
  act (requests r) s = elim (handle_request j garbage s r) [ none ↦ s | some (s', reply) ↦ s' ]
  act (ends_wait i v m name) s = elim (finish_sync s i v m name) [ none ↦ s | some (s', r) ↦ s' ]

-- The server listens to a manager whose classes follow plans.
pub record IsSound (s : Server) : Type 0 where
  pub kept : IsKept s
  pub planned : IsPlanned s.manager
  pub listens : s.manager.hub.has_callback ≡ true

abbrev Hears : Hub → Type 0
Hears h = h.has_callback ≡ true

notify-Hears : (e : FsmCompletionEvent) (h : Hub) → Hears h → Hears (notify_fsm_completed h e)
unfolding notify_fsm_completed
notify-Hears e h x = ground (arith, x)

Hears-IsStable : IsStable Hears
Hears-IsStable = record { enqueued = λ m h x. x; timed = λ ms m h x. x; told = notify-Hears }

hear-IsTidy : (r : WaitRegistry) (es : List FsmCompletionEvent) → IsTidy r → IsTidy (hear r es)
hear-IsTidy r [] t = t
hear-IsTidy r (e ∷ es) t = hear-IsTidy (on_completion r e) es (on_completion-IsTidy r e t).0

posted-Hears : (h : Hub) (i : ℕ) → Hears h → Hears (hub_timer_post h i)
unfolding hub_timer_post
posted-Hears h i x = elim (Option-cases (timer_post h.timers i).1) [
  | inl e ↦ rw e x
  | inr (m, e) ↦
      rw e ((send_msg-notified (record h { timers = (timer_post h.timers i).0 }) m).1 ∙ x)
]

-- A deed that changes the hub of the manager alone.
on_hub-IsSound :
    (k : Hub → Hub) (s : Server) → Hears (k s.manager.hub) → IsSound s → IsSound (on_hub k s)
on_hub-IsSound k s x v = record { kept = v.kept; planned = v.planned; listens = x }

-- A handler queues at most a message.
Outcome-IsSound :
    (s s' : Server) (reply : Reply)
    → IsKept s'
    → Outcome s (some (s', reply))
    → IsSound s
    → IsSound s'
Outcome-IsSound s s' (answers r) k (inl (_, m, _, q)) v = record {
  kept = k;
  planned = rw q v.planned;
  listens = rw q v.listens;
}
Outcome-IsSound s s' (answers r) k (inr (_, q, _)) v = record {
  kept = k;
  planned = rw q v.planned;
  listens = rw q v.listens;
}
Outcome-IsSound s s' (waits i u m name) k (_, q) v = record {
  kept = k;
  planned = rw q v.planned;
  listens = rw q v.listens;
}

module _ (j : Json) (garbage : FsmCompletionEvent) where
  requests-IsSound : (r : Request) (s : Server) → IsSound s → IsSound (act j garbage (requests r) s)
  unfolding act
  requests-IsSound r s v =
      let o = handle_request-Outcome j garbage s r v.kept.0 v.kept.1 in
      let k = handle_request-Keeps j garbage s r v.kept in
      elim (Option-cases (handle_request j garbage s r)) [
        | inl lost ↦ absurd (rw lost at k)
        | inr ((s', reply), done) ↦
            rw (done, act) (Outcome-IsSound s s' reply (rw done at k).0 (rw done at o) v)
      ]

  ends_wait-IsSound :
      (i u : ℕ) (m : CMsg) (name : List ℕ) (s : Server)
      → IsSound s
      → IsSound (act j garbage (ends_wait i u m name) s)
  unfolding act finish_sync
  ends_wait-IsSound i u m name s v = elim (Option-cases (get_elem? s.registry.entries i)) [
    | inl e ↦ rw (e, act) v
    | inr (w, e) ↦
        let t = unregister_waiter-IsTidy s.registry m.service_id m.session_id i v.kept.0 in
        rw (e, act) (record { kept = (t.0, v.kept.1); planned = v.planned; listens = v.listens })
  ]

  -- Whatever another thread does, the server stays sound.
  pub act-IsSound : (d : Deed) (s : Server) → IsSound s → IsSound (act j garbage d s)
  unfolding act hub_timer_wake
  act-IsSound pumps s v =
      let p =
        pump_once-stable Hears s.manager Hears-IsStable (λ ms. v.listens) v.listens v.planned in
      record {
        kept = (
          hear-IsTidy s.registry
              (drop (length s.manager.hub.notified) (pump_once s.manager).0.hub.notified) v.kept.0,
          v.kept.1,
        );
        planned = p.1;
        listens = p.0;
      }
  act-IsSound (wakes i) s v = on_hub-IsSound (λ h. hub_timer_wake h i) s v.listens v
  act-IsSound (posts i) s v =
      on_hub-IsSound (λ h. hub_timer_post h i) s (posted-Hears s.manager.hub i v.listens) v
  act-IsSound (passes ms) s v =
      on_hub-IsSound (λ h. record h { clock = h.clock + ms }) s v.listens v
  act-IsSound (requests r) s v = requests-IsSound r s v
  act-IsSound (ends_wait i u m name) s v = ends_wait-IsSound i u m name s v
