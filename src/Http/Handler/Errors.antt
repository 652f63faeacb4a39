-- ===== src/Http/Handler/Errors.antt =====
-- What a request leaves behind: `HandleRequest` of reg_fsm/src/HttpServer.cpp on all its paths.
use fsm_framework.Base.{
  ℕ, ◌<◌, ◌≡◌, refl, ◌≢◌, ◌⊎◌, inl, inr, true, false, List, [], ◌∷◌, ◌++◌, Option, none, some,
  arith, length, codes, same_text, Bool-cases, Option-cases,
}
use fsm_framework.Data.{u32_mod, fac_reg_fac_id, fac_auth_fac_id, success, msg_init, CMsg, same_err}
use fsm_framework.Pump.{FsmCompletionEvent, send_msg}
use fsm_framework.Manager.{Manager, post}
use fsm_framework.Http.Target.{extract_path, extract_query, query_has_wait_true, resolve_route}
use fsm_framework.Http.Waiters.Registry.{Tidy, unregister_waiter-register_waiter}
use fsm_framework.Http.Session.{
  Json, SessionResult, accepted, rejected, read_session_id, IsSessionId, generate_session_id_lem,
  read_session_id-IsSessionId,
}
use fsm_framework.Http.Handler.{
  accepted_status, Request, Server, Reply, answers, waits, begin_sync, send_async, is_some_true,
  parse_body, payload, handle_session, handle_body, handle_request,
}

-- A message that a request may send: a first message, for a service, of a session.
abbrev pub IsFirst : CMsg → Type 0
IsFirst m =
    (m.type ≡ msg_init)
    × (m.fsm_id ≡ 0)
    × IsSessionId m.session_id
    × ((m.service_id ≡ fac_reg_fac_id) ⊎ (m.service_id ≡ fac_auth_fac_id))

-- The manager after it took the message into its queue.
abbrev pub Queued : Manager → CMsg → Manager → Type 0
Queued g m g' = g' ≡ record g { hub = record (g.hub) { pump = g.hub.pump ++ m ∷ [] } }

-- A handler answers `accepted` and has sent one first message; or it answers something else and
-- has left the manager and the map of the waiters as they were; or it waits and has sent the
-- message it waits for.
abbrev pub Outcome : Server → Option (Server × Reply) → Type 0
Outcome s none = ⊥
Outcome s (some (s', answers r)) =
    ((r.status ≡ accepted_status) × (m : CMsg) × IsFirst m × Queued s.manager m s'.manager)
    ⊎ ((r.status ≢ accepted_status)
        × (s'.manager ≡ s.manager)
        × (s'.registry.waiters ≡ s.registry.waiters))
Outcome s (some (s', waits i v m name)) = IsFirst m × Queued s.manager m s'.manager

pub post_running :
    (g : Manager) (m : CMsg)
    → g.hub.stopped ≡ false
    → (Queued g m (post g m).0) × ((post g m).1 ≡ success)
unfolding send_msg
post_running g m e = ground arith

post_refused :
    (g : Manager) (m : CMsg)
    → g.hub.stopped ≡ true
    → ((post g m).0 ≡ g) × (same_err success (post g m).1 ≡ false)
unfolding send_msg
post_refused g m e = ground arith

begin_sync-Outcome :
    (garbage : FsmCompletionEvent) (s : Server) (v : ℕ) (m : CMsg) (name : List ℕ)
    → Tidy (length s.registry.entries) s.registry.waiters
    → IsFirst m
    → Outcome s (some (begin_sync garbage s v m name))
unfolding begin_sync
begin_sync-Outcome garbage s v m name t first = elim (Bool-cases s.manager.hub.stopped) [
  | inr running ↦
      let sent = post_running s.manager m running in
      let yes : same_err success (post s.manager m).1 ≡ true = rw sent.1 refl in
      rw yes (first, sent.0)
  | inl over ↦
      let sent = post_refused s.manager m over in
      rw sent.1 (
        inr (
          (λ e. ground arith),
          sent.0,
          unregister_waiter-register_waiter s.registry garbage m.service_id m.session_id t,
        ))
]

send_async-Outcome :
    (s : Server) (v : ℕ) (m : CMsg) (name : List ℕ)
    → IsFirst m
    → Outcome s (some (send_async s v m name))
unfolding send_async
send_async-Outcome s v m name first = elim (Bool-cases s.manager.hub.stopped) [
  | inr running ↦
      let sent = post_running s.manager m running in
      let yes : same_err success (post s.manager m).1 ≡ true = rw sent.1 refl in
      rw yes (inl (refl, m, first, sent.0))
  | inl over ↦
      let sent = post_refused s.manager m over in
      rw sent.1 (inr ((λ e. ground arith), sent.0, refl))
]

module _ (j : Json) (garbage : FsmCompletionEvent) where
  handle_session-Outcome :
      (s : Server) (r : Request) (service : ℕ) (name : List ℕ) (v : j.Value) (o : SessionResult)
      → Tidy (length s.registry.entries) s.registry.waiters
      → (service ≡ fac_reg_fac_id) ⊎ (service ≡ fac_auth_fac_id)
      → ((id : ℕ) → o ≡ accepted id → IsSessionId id)
      → Outcome s (some (handle_session j garbage s r service name v o))
  unfolding handle_session
  handle_session-Outcome s r service name v (rejected err) t known ok =
      inr ((λ e. ground arith), refl, refl)
  handle_session-Outcome s r service name v (accepted session) t known ok =
      let m : CMsg = record {
        type = msg_init;
        service_id = service;
        fsm_id = 0;
        session_id = session;
        msg = payload j garbage r.body v;
      } in
      let first : IsFirst m = (refl, refl, ok session refl, known) in
      elim (Bool-cases (is_some_true (query_has_wait_true (extract_query r.target)))) [
        | inl sync ↦ rw sync (begin_sync-Outcome garbage s r.version m name t first)
        | inr async ↦ rw async (send_async-Outcome s r.version m name first)
      ]

  handle_body-Outcome :
      (s : Server) (r : Request) (service : ℕ) (name : List ℕ) (b : Option (j.Value × j.Object))
      → Tidy (length s.registry.entries) s.registry.waiters
      → (service ≡ fac_reg_fac_id) ⊎ (service ≡ fac_auth_fac_id)
      → s.next_session_id < u32_mod
      → Outcome s (handle_body j garbage s r service name b)
  unfolding handle_body
  handle_body-Outcome s r service name none t known h = inr ((λ e. ground arith), refl, refl)
  handle_body-Outcome s r service name (some (v, o)) t known h =
      let (next, id, made, is_id, small) = generate_session_id_lem s.next_session_id h in
      rw (made, handle_body)
        (handle_session-Outcome (record s { next_session_id = next }) r service name v
          (read_session_id j o id) t known (λ n e. read_session_id-IsSessionId j o id n is_id e))

  resolve_route_known :
      (path : List ℕ) (service : ℕ) (name : List ℕ)
      → resolve_route path ≡ some (service, name)
      → (service ≡ fac_reg_fac_id) ⊎ (service ≡ fac_auth_fac_id)
  unfolding resolve_route
  resolve_route_known path service name e =
      elim (Bool-cases (same_text (codes "/api/v1/register") path)) [
        | inl reg ↦ inl (ground arith)
        | inr other ↦ inr (ground arith)
      ]

  -- Every request is dealt with, where the registry is tidy and the counter of the session ids is
  -- an unsigned int: it is accepted and has queued one first message for one of the two services,
  -- with a session id that is not 0; or it is answered otherwise and leaves the manager and the
  -- map of the waiters as they were; or it waits and has queued such a message.
  pub handle_request-Outcome :
      (s : Server) (r : Request)
      → Tidy (length s.registry.entries) s.registry.waiters
      → s.next_session_id < u32_mod
      → Outcome s (handle_request j garbage s r)
  unfolding handle_request
  handle_request-Outcome s r t h = elim (Option-cases (resolve_route (extract_path r.target))) [
    | inl e ↦ rw (e, handle_request) (inr ((λ e'. ground arith), refl, refl))
    | inr ((service, name), e) ↦ elim (Bool-cases r.is_post) [
      | inr other ↦ rw (e, handle_request) (rw other (inr ((λ e'. ground arith), refl, refl)))
      | inl post_it ↦
          rw (e, handle_request)
            (rw post_it (
              handle_body-Outcome s r service name (parse_body j garbage r.body) t
                (resolve_route_known (extract_path r.target) service name e) h))
    ]
  ]
