-- ===== src/Examples/Http.antt =====
-- Requests to reg_fsm/src/HttpServer.cpp: targets, waiters, session ids and a synchronous
-- registration.
use fsm_framework.Base.{
  ℕ, ◌<◌, ◌≡◌, ◌≢◌, ◌⊎◌, true, false, List, [], ◌∷◌, ◌++◌, Option, none, some, arith, ◌==◌,
  if◌then◌else◌, length, get_elem?, codes, All,
}
use fsm_framework.Data.{u32_mod, success, error, msg_init, msg_close, CMsg}
use fsm_framework.Pump.{FsmCompletionEvent}
use fsm_framework.Manager.{new_manager}
use fsm_framework.Http.Target.{
  extract_path, extract_query, extract_target, query_has_wait_true, items, SaysWait,
  query_has_wait_true-SaysWait,
}
use fsm_framework.Http.Waiters.{WaitEntry, WaitRegistry, register_waiter, on_completion}
use fsm_framework.Http.Waiters.Registry.{on_completion_shared}
use fsm_framework.Http.Session.{Json, IsSessionId, generate_session_id, generate_session_id_lem}
use fsm_framework.Http.Handler.{Request, Server, handle_request}
use fsm_framework.Http.Handler.Errors.{Outcome, handle_request-Outcome}

abbrev wait_target : List ℕ
wait_target = codes "/api/v1/register?a=1&wait=true"

extract_target_example :
    All (λ (x : ℕ). x ≢ b'?') (extract_path wait_target)
    × (((wait_target ≡ extract_path wait_target) × (extract_query wait_target ≡ []))
        ⊎ (wait_target ≡ extract_path wait_target ++ b'?' ∷ extract_query wait_target))
extract_target_example = extract_target wait_target

abbrev one_query : List ℕ
one_query = codes "a=1&wait=1"

query_has_wait_true-SaysWait_example :
    ((query_has_wait_true one_query ≡ some true) × SaysWait (items one_query))
    ⊎ ((query_has_wait_true one_query ≡ some false) × ¬ SaysWait (items one_query))
query_has_wait_true-SaysWait_example = query_has_wait_true-SaysWait one_query

abbrev event : FsmCompletionEvent
event = record {
  service_id = 1;
  fsm_id = 4;
  session_id = 7;
  result = success;
  final_event = msg_close;
}

abbrev pub blank : FsmCompletionEvent
blank = record {
  service_id = 0;
  fsm_id = 0;
  session_id = 0;
  result = error;
  final_event = msg_init;
}

-- One request waits for service 1 and session 7.
abbrev one_waits : WaitRegistry
one_waits = record {
  entries = record { completed = false; event = blank } ∷ [];
  waiters = (record { service_id = 1; session_id = 7 }, 0 ∷ []) ∷ [];
}

on_completion_shared_example :
    let r₁ = (register_waiter one_waits blank 1 7).0 in
    let r₂ = (register_waiter r₁ blank 1 7).0 in
    let done : WaitEntry = record { completed = true; event = event } in
    (get_elem? (on_completion r₂ event).entries 1 ≡ some done)
    × (get_elem? (on_completion r₂ event).entries (length r₁.entries) ≡ some done)
on_completion_shared_example = on_completion_shared one_waits blank blank event

generate_session_id_lem_example :
    (after : ℕ) × (id : ℕ) × (generate_session_id 0 ≡ some (after, id))
    × IsSessionId id
    × (after < u32_mod)
generate_session_id_lem_example = generate_session_id_lem 0 (omega arith)

-- A reader that takes what begins with a brace for an object without members.
abbrev braces : List ℕ → Option (List ℕ)
braces [] = none
braces (c ∷ cs) = if c == b'{' then some (c ∷ cs) else none

abbrev pub brace_json : Json
brace_json = record {
  Value = List ℕ;
  Object = List ℕ;
  parse = braces;
  empty_object = codes "{}";
  as_object = λ v. some v;
  find = λ k o. none;
  as_uint64 = λ v. none;
  as_int64 = λ v. none;
  serialize = λ v. v;
}

abbrev server : Server
server = record { manager = new_manager; next_session_id = 1; registry = one_waits }

abbrev pub wait_request : Request
wait_request = record { target = wait_target; is_post = true; version = 11; body = codes "{}" }

handle_request-Outcome_example :
    Outcome server (handle_request brace_json blank server wait_request)
handle_request-Outcome_example =
    handle_request-Outcome brace_json blank server wait_request
      ((((λ e. cc), (omega arith, tt)), tt)) (omega arith)

abbrev first : CMsg
first = record { type = msg_init; service_id = 1; fsm_id = 0; session_id = 7; msg = [] }
