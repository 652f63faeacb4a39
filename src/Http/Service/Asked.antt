-- ===== src/Http/Service/Asked.antt =====
-- A request of `HandleRequest` of reg_fsm/src/HttpServer.cpp with `wait=true`, and its answer by `HandleSyncRequest` once its FSM has ended.
use fsm_framework.Base.{ℕ, ◌≡◌, refl, ap, sym, ◌∙◌, true, false, List, [], ◌∷◌, ◌++◌, some, length}
use fsm_framework.Data.{success, msg_close, CMsg}
use fsm_framework.Pump.{FsmCompletionEvent}
use fsm_framework.Manager.{Manager, post}
use fsm_framework.System.Told.{send_msg-notified}
use fsm_framework.Services.Flows.{request}
use fsm_framework.Http.Target.{extract_path, extract_query, query_has_wait_true, resolve_route}
use fsm_framework.Http.Waiters.{on_completion, register_waiter, unregister_waiter}
use fsm_framework.Http.Waiters.Registry.{
  Tidy, on_completion-waiters, unregister_waiter-register_waiter,
}
use fsm_framework.Http.Session.{Json, accepted, read_session_id, generate_session_id}
use fsm_framework.Http.Handler.{
  ok, json_response, Request, Server, waits, begin_sync, finish_sync, is_some_true, parse_body,
  payload, handle_session, handle_body, handle_request,
}
use fsm_framework.Http.Handler.Sync.{
  begin_sync_running, completed_entry, finish_completed, success_body,
}
use fsm_framework.Http.Service.{listen, listen_lem}

-- A request by POST on a known path with `wait=true` and a body that is an object with an acceptable session id, or
-- with none.
pub record Asks (j : Json) (garbage : FsmCompletionEvent) (s : Server) (r : Request) : Type 0 where
  pub service : ℕ
  pub name : List ℕ
  pub value : j.Value
  pub object : j.Object
  pub next : ℕ
  pub generated : ℕ
  pub session : ℕ
  pub routed : resolve_route (extract_path r.target) ≡ some (service, name)
  pub posts : r.is_post ≡ true
  pub parsed : parse_body j garbage r.body ≡ some (value, object)
  pub made : generate_session_id s.next_session_id ≡ some (next, generated)
  pub read : read_session_id j object generated ≡ accepted session
  pub wait : is_some_true (query_has_wait_true (extract_query r.target)) ≡ true

module _ (j : Json) (garbage : FsmCompletionEvent) (s : Server) (q : Request)
    (a : Asks j garbage s q) where
  abbrev pub asked : CMsg
  asked = request a.service a.session (payload j garbage q.body a.value)

  -- The server that waits: the message is queued and a new entry is registered.
  abbrev pub waiting_server : Server
  waiting_server = record s {
    manager = (post s.manager asked).0;
    next_session_id = a.next;
    registry = (register_waiter s.registry garbage a.service a.session).0;
  }

  -- Such a request begins to wait.
  asked_request :
      handle_request j garbage s q
      ≡ some (begin_sync garbage (record s { next_session_id = a.next }) q.version asked a.name)
  unfolding handle_request handle_body handle_session
  asked_request =
      rw (a.routed, handle_request)
        (rw (a.posts, a.parsed) (rw (a.made, handle_body) (rw a.read (rw a.wait refl))))

  -- The answer, once the manager has told of one more event: this request's, with success.
  pub answered :
      (k : Manager → Manager) (id : ℕ)
      → let e : FsmCompletionEvent = record {
        service_id = a.service;
        fsm_id = id;
        session_id = a.session;
        result = success;
        final_event = msg_close;
      } in
        Tidy (length s.registry.entries) s.registry.waiters
        → s.manager.hub.stopped ≡ false
        → (k (post s.manager asked).0).hub.notified ≡ s.manager.hub.notified ++ e ∷ []
        → let i = length s.registry.entries in
          (handle_request j garbage s q ≡ some (waiting_server, waits i q.version asked a.name))
          × ((s₂ : Server) × (finish_sync (listen k waiting_server) i q.version asked a.name
                ≡ some (s₂, json_response ok q.version (success_body e a.name)))
              × (s₂.registry.waiters ≡ s.registry.waiters)
              × (s₂.manager ≡ k (post s.manager asked).0))
  unfolding unregister_waiter register_waiter
  answered k id t running told =
      let e : FsmCompletionEvent = record {
        service_id = a.service;
        fsm_id = id;
        session_id = a.session;
        result = success;
        final_event = msg_close;
      } in
      let i = length s.registry.entries in
      let s' = record s { next_session_id = a.next } in
      let g₁ = (post s.manager asked).0 in
      let r₁ = (register_waiter s.registry garbage a.service a.session).0 in
      let s₂ : Server = record s' { manager = k g₁; registry = on_completion r₁ e } in
      let begins = begin_sync_running garbage s' q.version asked a.name running in
      let same = (send_msg-notified s.manager.hub asked).0 in
      let heard : listen k waiting_server ≡ s₂ =
        listen_lem k waiting_server (e ∷ [])
          (told ∙ ap (λ (es : List FsmCompletionEvent). es ++ e ∷ []) (sym same)) in
      (
        asked_request ∙ ap some begins,
        (
          record s₂ { registry = unregister_waiter s₂.registry a.service a.session i },
          rw heard (
              finish_completed s₂ i q.version asked a.name e (completed_entry s.registry garbage e)
                refl),
          rw (on_completion-waiters r₁ e)
              (unregister_waiter-register_waiter s.registry garbage a.service a.session t),
          refl,
        ),
      )
