-- ===== src/Http/Service/EndToEnd.antt =====
-- From an HTTP request with `wait=true` to its answer, through the server of reg_fsm/src/HttpServer.cpp, the
-- manager, the factory, the FSM, its timer and the completion callback.
use fsm_framework.Base.{ℕ, ◌≡◌, refl, ap, ◌∙◌, true, false, [], Option, some, length}
use fsm_framework.Data.{success, msg_close}
use fsm_framework.Pump.{Hub, FsmCompletionEvent}
use fsm_framework.Fsm.{Cfsm}
use fsm_framework.Flow.{Plan, reg_plan, auth_plan}
use fsm_framework.Manager.{Manager, post}
use fsm_framework.Manager.Session.{Serves}
use fsm_framework.Manager.Progress.{IsPlanned}
use fsm_framework.Services.Flows.{pump_times}
use fsm_framework.Services.EndToEnd.{IsReady, Completed, reg_flow_completes, auth_flow_completes}
use fsm_framework.Http.Waiters.Registry.{Tidy}
use fsm_framework.Http.Session.{Json}
use fsm_framework.Http.Handler.{
  ok, json_response, Request, Server, waits, finish_sync, payload, handle_request,
}
use fsm_framework.Http.Handler.Sync.{success_body}
use fsm_framework.Http.Service.{
  listen, listen-listen, pump_server, pump_server_lem, pump_times-Grows, fire_manager,
  fire_manager-Grows, Grows-trans,
}
use fsm_framework.Http.Service.Asked.{Asks, asked, waiting_server, answered}

-- So many messages, the end of the timer `k` after 100 ms, and so many more messages, while the server listens.
abbrev pub serve : ℕ → ℕ → ℕ → Server → Server
serve n k l s = pump_server l (listen (fire_manager 100 k) (pump_server n s))

abbrev serve_manager : ℕ → ℕ → ℕ → Manager → Manager
serve_manager n k l g = pump_times l (fire_manager 100 k (pump_times n g))

serve_lem :
    (n k l : ℕ) (s : Server) → IsPlanned s.manager → serve n k l s ≡ listen (serve_manager n k l) s
serve_lem n k l s w =
    let g = s.manager in
    let g₁ = pump_times n g in
    let g₂ = fire_manager 100 k g₁ in
    let first = pump_times-Grows n g w in
    let fires = fire_manager-Grows 100 k g₁ in
    ap (λ x. pump_server l (listen (fire_manager 100 k) x)) (pump_server_lem n s w)
    ∙ ap (pump_server l) (listen-listen (pump_times n) (fire_manager 100 k) s first.0 fires)
    ∙ pump_server_lem l (listen (λ y. fire_manager 100 k (pump_times n y)) s) first.1
    ∙ listen-listen (λ y. fire_manager 100 k (pump_times n y)) (pump_times l) s
        (Grows-trans g g₁ g₂ first.0 fires) (pump_times-Grows l g₂ first.1).0

module _ (j : Json) (garbage : FsmCompletionEvent) (s : Server) (q : Request)
    (a : Asks j garbage s q) (h : Hub) (i : ℕ) (M : ℕ → Option Cfsm) where
  -- The request waits, and once the manager has handled `n` messages, the timer has ended and `l` more messages are
  -- handled, it answers 200 with the id of the FSM; then the waiters are those from before, and the factory holds the
  -- FSMs from before, with nothing queued.
  abbrev pub Served : Plan → ℕ → ℕ → ℕ → Type 0
  Served p n l id =
      let entry = length s.registry.entries in
      let m = asked j garbage s q a in
      let s₁ = waiting_server j garbage s q a in
      let e : FsmCompletionEvent = record {
        service_id = a.service;
        fsm_id = id;
        session_id = a.session;
        result = success;
        final_event = msg_close;
      } in
      (handle_request j garbage s q ≡ some (s₁, waits entry q.version m a.name))
      × ((s₂ : Server) × (finish_sync (serve n (length h.timers.timer_list) l s₁) entry q.version m
              a.name
            ≡ some (s₂, json_response ok q.version (success_body e a.name)))
          × (s₂.registry.waiters ≡ s.registry.waiters)
          × (s₂.manager.hub.pump ≡ [])
          × Serves s₂.manager i a.service p M)

  served :
      (p : Plan) (n l : ℕ) (r : IsReady s.manager h i a.service p M)
      → IsPlanned s.manager
      → h.has_callback ≡ true
      → Tidy (length s.registry.entries) s.registry.waiters
      → let id = r.serves.fac.next_fsm_id in
        Completed s.manager h i a.service M a.session (payload j garbage q.body a.value) p id (
          serve_manager n (length h.timers.timer_list) l (post s.manager (asked j garbage s q a)).0)
        → Served p n l id
  served p n l r w hears t done =
      let k = length h.timers.timer_list in
      let id = r.serves.fac.next_fsm_id in
      let is_quiet = r.is_quiet in
      let running : s.manager.hub.stopped ≡ false = ap (λ (x : Hub). x.stopped) is_quiet in
      let before : s.manager.hub.notified ≡ h.notified = ap (λ (x : Hub). x.notified) is_quiet in
      let told = done.1 ∙ rw (hears, before) refl in
      let (begins, (s₂, finishes, waiters, left)) =
        answered j garbage s q a (serve_manager n k l) id t running told in
      (
        begins,
        (
          s₂,
          rw (serve_lem n k l (waiting_server j garbage s q a) w) finishes,
          waiters,
          rw left done.0,
          rw left done.2,
        ),
      )

  -- Take a manager that is ready for a service whose class follows the registration plan, with the completion
  -- callback set and all classes following plans, and a server over it with a tidy registry. A POST request on the
  -- service's path with `wait=true`, and a body that is an object with an acceptable session id or none, waits; once
  -- four messages are handled, the 100 ms timer has ended and two more messages are handled, it is answered with 200 and
  -- the session and id of its FSM. Then the map of the waiters and the factory's FSMs are as before the
  -- request, and no message is queued.
  pub reg_request-Served :
      (r : IsReady s.manager h i a.service reg_plan M)
      → IsPlanned s.manager
      → h.has_callback ≡ true
      → Tidy (length s.registry.entries) s.registry.waiters
      → Served reg_plan 4 2 r.serves.fac.next_fsm_id
  reg_request-Served r w hears t =
      served reg_plan 4 2 r w hears t (
        reg_flow_completes s.manager h i a.service M a.session (payload j garbage q.body a.value) r)

  -- Under the same conditions, with a class that follows the authentication plan, the request is answered in the same
  -- way, with one message after the timer.
  pub auth_request-Served :
      (r : IsReady s.manager h i a.service auth_plan M)
      → IsPlanned s.manager
      → h.has_callback ≡ true
      → Tidy (length s.registry.entries) s.registry.waiters
      → Served auth_plan 4 1 r.serves.fac.next_fsm_id
  auth_request-Served r w hears t =
      served auth_plan 4 1 r w hears t (
        auth_flow_completes s.manager h i a.service M a.session (payload j garbage q.body a.value)
          r)
