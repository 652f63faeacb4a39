-- ===== src/Http/Handler/Sync.antt =====
-- A synchronous request of reg_fsm/src/HttpServer.cpp from its start to its answer.
use fsm_framework.Base.{
  ℕ, ◌≡◌, refl, ◌∙◌, true, false, List, [], ◌∷◌, some, length, get_elem?, get_elem?-append_length,
  codes,
}
use fsm_framework.Data.{success, CMsg, same_err}
use fsm_framework.Pump.{FsmCompletionEvent}
use fsm_framework.Manager.{post}
use fsm_framework.Http.Waiters.{
  WaitKey, WaitEntry, WaitRegistry, register_waiter, unregister_waiter, on_completion,
}
use fsm_framework.Http.Waiters.Registry.{
  Tidy, find_waiters-push_waiter, on_completion_entries, on_completion-waiters,
  unregister_waiter-register_waiter,
}
use fsm_framework.Http.Handler.{
  ok, Field, text, number, json_response, Server, waits, begin_sync, finish_sync,
}
use fsm_framework.Http.Handler.Errors.{post_running}

pub begin_sync_running :
    (garbage : FsmCompletionEvent) (s : Server) (v : ℕ) (m : CMsg) (name : List ℕ)
    → s.manager.hub.stopped ≡ false
    → begin_sync garbage s v m name ≡ (
      record s {
        manager = (post s.manager m).0;
        registry = (register_waiter s.registry garbage m.service_id m.session_id).0;
      },
      waits (length s.registry.entries) v m name,
    )
unfolding begin_sync register_waiter
begin_sync_running garbage s v m name running =
    let sent = post_running s.manager m running in
    let yes : same_err success (post s.manager m).1 ≡ true = rw sent.1 refl in rw yes

-- The entry that was just registered, after the event of its service and session.
pub completed_entry :
    (r : WaitRegistry) (garbage e : FsmCompletionEvent)
    → get_elem?
        (on_completion (register_waiter r garbage e.service_id e.session_id).0 e).entries
        (length r.entries)
      ≡ some (record { completed = true; event = e })
unfolding register_waiter
completed_entry r garbage e =
    let k : WaitKey = record { service_id = e.service_id; session_id = e.session_id } in
    let w : WaitEntry = record { completed = false; event = garbage } in
    let r' = (register_waiter r garbage e.service_id e.session_id).0 in
    let there = find_waiters-push_waiter k (length r.entries) r.waiters in
    let first : get_elem? r'.entries (length r.entries) ≡ some w =
      get_elem?-append_length r.entries w in
    on_completion_entries r' e (length r.entries) ∙ rw (there, first) refl

-- What the handler answers when the flow was a success.
abbrev pub success_body : FsmCompletionEvent → List ℕ → List (List ℕ × Field)
success_body e name =
    (codes "sessionId", number (e.session_id))
    ∷ (codes "service", text name)
    ∷ (codes "fsmId", number (e.fsm_id))
    ∷ (codes "result", text (codes "SUCCESS"))
    ∷ (codes "status", text (codes "completed"))
    ∷ []

-- The answer of an entry that such an event has completed.
pub finish_completed :
    (s : Server) (i v : ℕ) (m : CMsg) (name : List ℕ) (e : FsmCompletionEvent)
    → get_elem? s.registry.entries i ≡ some (record { completed = true; event = e })
    → e.result ≡ success
    → finish_sync s i v m name
      ≡ some (
        record s { registry = unregister_waiter s.registry m.service_id m.session_id i },
        json_response ok v (success_body e name),
      )
unfolding finish_sync
finish_completed s i v m name e there succeeded = rw (there, finish_sync) (rw succeeded refl)

-- A synchronous request to a running manager waits; once an FSM of its service and session ends
-- with success, it answers 200 with that FSM's id, and the map of the waiters is as it was before
-- the request, if the registry was tidy.
pub sync_completes :
    (garbage e : FsmCompletionEvent) (s : Server) (v : ℕ) (m : CMsg) (name : List ℕ)
    → Tidy (length s.registry.entries) s.registry.waiters
    → s.manager.hub.stopped ≡ false
    → e.service_id ≡ m.service_id
    → e.session_id ≡ m.session_id
    → e.result ≡ success
    → let begun = begin_sync garbage s v m name in
      let s' = record (begun.0) { registry = on_completion begun.0.registry e } in
      (begun.1 ≡ waits (length s.registry.entries) v m name)
      × ((s'' : Server) × (finish_sync s' (length s.registry.entries) v m name
            ≡ some (s'', json_response ok v (success_body e name)))
          × (s''.registry.waiters ≡ s.registry.waiters))
unfolding finish_sync unregister_waiter register_waiter
sync_completes garbage e s v m name t running same_service same_session succeeded =
    let begun = begin_sync garbage s v m name in
    let r' = (register_waiter s.registry garbage e.service_id e.session_id).0 in
    let starts = begin_sync_running garbage s v m name running in
    let completed = completed_entry s.registry garbage e in
    let m' = record m { service_id = e.service_id; session_id = e.session_id } in
    let s' : Server = record s { manager = (post s.manager m').0; registry = on_completion r' e } in
    rw (starts, ← same_service, ← same_session)
      (
        refl,
        (
          record s' {
            registry =
                unregister_waiter s'.registry e.service_id e.session_id (length s.registry.entries);
          },
          finish_completed s' (length s.registry.entries) v m' name e completed succeeded,
          rw (on_completion-waiters r' e)
              (unregister_waiter-register_waiter s.registry garbage e.service_id e.session_id t),
        ),
      )
