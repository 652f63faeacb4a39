-- ===== src/Http/Handler.antt =====
-- `HandleRequest` and `HandleSyncRequest` of reg_fsm/src/HttpServer.cpp. A synchronous request is
-- two steps, so that other threads can act between them: it registers its waiter and sends its
-- message, then `wait_for` has returned and it answers. A response is its status, its version and
-- the fields of its JSON body, in order; the headers, which are the same for all responses, are
-- left out.
pub mod Errors
pub mod Sync
pub mod Keeping
use fsm_framework.Base.{
  ℕ, Bool, true, false, List, [], ◌∷◌, Option, none, some, if◌then◌else◌, length, get_elem?, codes,
}
use fsm_framework.Data.{EerrNo, success, msg_init, CMsg, same_err}
use fsm_framework.Logger.{err_no_to_string}
use fsm_framework.Pump.{FsmCompletionEvent}
use fsm_framework.Manager.{Manager, post}
use fsm_framework.Http.Target.{extract_path, extract_query, query_has_wait_true, resolve_route}
use fsm_framework.Http.Waiters.{WaitEntry, WaitRegistry, register_waiter, unregister_waiter}
use fsm_framework.Http.Session.{
  Json, SessionResult, accepted, rejected, read_session_id, generate_session_id,
}

pub data Status : Type 0 where
  ok accepted_status bad_request not_found method_not_allowed : Status
  internal_server_error service_unavailable gateway_timeout : Status

pub data Field : Type 0 where
  text : List ℕ → Field
  number : ℕ → Field

pub record Response : Type 0 where
  pub status : Status
  pub version : ℕ
  pub body : List (List ℕ × Field)

pub record Request : Type 0 where
  pub target : List ℕ
  pub is_post : Bool
  pub version : ℕ
  pub body : List ℕ

-- `JsonResponse` and `ErrorResponse`.
abbrev pub json_response : Status → ℕ → List (List ℕ × Field) → Response
json_response s v fields = record { status = s; version = v; body = fields }

abbrev pub error_response : Status → ℕ → List ℕ → List ℕ → Response
error_response s v err message = json_response s v (
    (codes "status", text (codes "error"))
    ∷ (codes "error", text err)
    ∷ (codes "message", text message)
    ∷ [])

pub record Server : Type 0 where
  pub manager : Manager
  pub next_session_id : ℕ
  pub registry : WaitRegistry

-- What a handler does next: it answers, or it waits on its entry, for a request of this version,
-- message and service name.
pub data Reply : Type 0 where
  answers : Response → Reply
  waits : ℕ → ℕ → CMsg → List ℕ → Reply

abbrev pub unavailable : ℕ → EerrNo → Response
unavailable v r =
    error_response service_unavailable v (codes "service_unavailable") (codes (err_no_to_string r))

-- The first part of `HandleSyncRequest`; `garbage` is what the event of a new entry holds.
unfoldable pub begin_sync : FsmCompletionEvent → Server → ℕ → CMsg → List ℕ → Server × Reply
unfolding register_waiter unregister_waiter
begin_sync garbage s version m name =
    let registered = register_waiter s.registry garbage m.service_id m.session_id in
    let sent = post s.manager m in
    if same_err success sent.1
    then (record s { manager = sent.0; registry = registered.0 }, waits registered.1 version m name)
    else (
      record s {
        manager = sent.0;
        registry = unregister_waiter registered.0 m.service_id m.session_id registered.1;
      },
      answers (unavailable version sent.1),
    )

-- The answer by what the entry holds when `wait_for` returns.
abbrev pub sync_response : WaitEntry → ℕ → List ℕ → Response
sync_response w version name =
    if w.completed
    then (if same_err success w.event.result
        then json_response ok version (
            (codes "sessionId", number (w.event.session_id))
            ∷ (codes "service", text name)
            ∷ (codes "fsmId", number (w.event.fsm_id))
            ∷ (codes "result", text (codes (err_no_to_string w.event.result)))
            ∷ (codes "status", text (codes "completed"))
            ∷ [])
        else error_response internal_server_error version (codes "fsm_failed")
            (codes (err_no_to_string w.event.result)))
    else error_response gateway_timeout version (codes "timeout")
        (codes "FSM flow did not complete before timeout")

-- The second part, on the entry `i`. It is reached when the entry is completed or the time is
-- over. `none` is a pointer to no entry, which does not occur.
unfoldable pub finish_sync : Server → ℕ → ℕ → CMsg → List ℕ → Option (Server × Response)
unfolding unregister_waiter
finish_sync s i version m name = elim (get_elem? s.registry.entries i) [
  | none ↦ none
  | some w ↦ some (
    record s { registry = unregister_waiter s.registry m.service_id m.session_id i },
    sync_response w version name,
  )
]

abbrev pub is_some_true : Option Bool → Bool
is_some_true (some true) = true
is_some_true _ = false

-- The message is sent, and at once answered.
unfoldable pub send_async : Server → ℕ → CMsg → List ℕ → Server × Reply
send_async s version m name =
    let sent = post s.manager m in
    if same_err success sent.1
    then (
      record s { manager = sent.0 },
      answers (
          json_response accepted_status version (
            (codes "sessionId", number m.session_id)
            ∷ (codes "service", text name)
            ∷ (codes "status", text (codes "accepted"))
            ∷ [])),
    )
    else (record s { manager = sent.0 }, answers (unavailable version sent.1))

module _ (j : Json) (garbage : FsmCompletionEvent) where
  -- The value of the body: an empty body is an empty object, which is an object; `none` is the
  -- error.
  unfoldable pub parse_body : List ℕ → Option (j.Value × j.Object)
  parse_body [] = elim (j.as_object j.empty_object) [
    | none ↦ none
    | some o ↦ some (j.empty_object, o)
  ]
  parse_body (c ∷ cs) = elim (j.parse (c ∷ cs)) [
    | none ↦ none
    | some v ↦ elim (j.as_object v) [ none ↦ none | some o ↦ some (v, o) ]
  ]

  abbrev pub payload : List ℕ → j.Value → List ℕ
  payload [] v = []
  payload (c ∷ cs) v = j.serialize v

  -- From the session id on.
  unfoldable pub handle_session :
      Server → Request → ℕ → List ℕ → j.Value → SessionResult → Server × Reply
  unfolding begin_sync send_async query_has_wait_true extract_query
  handle_session s r service name v (rejected err) =
      (s, answers (error_response bad_request r.version (codes "invalid_session_id") err))
  handle_session s r service name v (accepted session) =
      let m : CMsg = record {
        type = msg_init;
        service_id = service;
        fsm_id = 0;
        session_id = session;
        msg = payload r.body v;
      } in
      if is_some_true (query_has_wait_true (extract_query r.target))
      then begin_sync garbage s r.version m name
      else send_async s r.version m name

  -- From the body on; `none` is a loop of `GenerateSessionId` that does not end.
  unfoldable pub handle_body :
      Server → Request → ℕ → List ℕ → Option (j.Value × j.Object) → Option (Server × Reply)
  unfolding handle_session read_session_id
  handle_body s r service name none = some (
    s,
    answers (
        error_response bad_request r.version (codes "invalid_json")
          (codes "request body must be a JSON object")),
  )
  handle_body s r service name (some (v, o)) = elim (generate_session_id s.next_session_id) [
    | none ↦ none
    | some (next, id) ↦ some (
        handle_session (record s { next_session_id = next }) r service name v
          (read_session_id j o id))
  ]

  unfoldable pub handle_request : Server → Request → Option (Server × Reply)
  unfolding handle_body parse_body resolve_route extract_path
  handle_request s r = elim (resolve_route (extract_path r.target)) [
    | none ↦ some (
      s,
      answers (error_response not_found r.version (codes "not_found") (codes "unknown endpoint")),
    )
    | some (service, name) ↦
        if r.is_post
        then handle_body s r service name (parse_body r.body)
        else some (
          s,
          answers (
              error_response method_not_allowed r.version (codes "method_not_allowed")
                (codes "only POST is supported")),
        )
  ]
