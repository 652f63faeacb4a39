-- ===== src/Examples/Requests.antt =====
-- Requests with `wait=true` to the server of reg_fsm/src/HttpServer.cpp over the manager that reg_fsm/main.cpp sets
-- up, from their start to their answers.
use fsm_framework.Base.{refl, true, [], codes}
use fsm_framework.Flow.{reg_plan, auth_plan}
use fsm_framework.Flow.Laws.{reg_plan-Descends, auth_plan-Descends}
use fsm_framework.Flow.Refinement.{reg_class-Follows, auth_class-Follows}
use fsm_framework.Manager.Progress.{IsPlanned}
use fsm_framework.Services.{service_manager}
use fsm_framework.System.{with_hub}
use fsm_framework.Http.Target.{
  extract_path, extract_query, query_has_wait_true, resolve_route, cut_at, wait_loop,
}
use fsm_framework.Http.Session.{read_session_id, generate_session_id, generate_loop}
use fsm_framework.Http.Handler.{Request, Server, parse_body}
use fsm_framework.Http.Service.Asked.{Asks}
use fsm_framework.Http.Service.EndToEnd.{Served, reg_request-Served, auth_request-Served}
use fsm_framework.Examples.Flows.{listening, no_fsm, reg_ready, auth_ready}
use fsm_framework.Examples.Http.{blank, brace_json, wait_request}

abbrev pub server : Server
server = record {
  manager = with_hub listening service_manager;
  next_session_id = 1;
  registry = record { entries = []; waiters = [] };
}

abbrev auth_request : Request
auth_request = record {
  target = codes "/api/v1/auth?wait=1";
  is_post = true;
  version = 11;
  body = [];
}

abbrev reg_asks : Asks brace_json blank server wait_request
unfolding extract_path extract_query query_has_wait_true resolve_route cut_at wait_loop
    read_session_id generate_session_id generate_loop parse_body
reg_asks = record {
  service = 1;
  name = codes "register";
  value = codes "{}";
  object = codes "{}";
  next = 2;
  generated = 1;
  session = 1;
  routed = refl;
  posts = refl;
  parsed = refl;
  made = refl;
  read = refl;
  wait = refl;
}

abbrev auth_asks : Asks brace_json blank server auth_request
unfolding extract_path extract_query query_has_wait_true resolve_route cut_at wait_loop
    read_session_id generate_session_id generate_loop parse_body
auth_asks = record {
  service = 3;
  name = codes "auth";
  value = codes "{}";
  object = codes "{}";
  next = 2;
  generated = 1;
  session = 1;
  routed = refl;
  posts = refl;
  parsed = refl;
  made = refl;
  read = refl;
  wait = refl;
}

pub server-IsPlanned : IsPlanned server.manager
unfolding service_manager
server-IsPlanned = (
  (reg_plan, reg_class-Follows, reg_plan-Descends),
  ((auth_plan, auth_class-Follows, auth_plan-Descends), tt),
)

reg_request-Served_example :
    Served brace_json blank server wait_request reg_asks listening 0 no_fsm reg_plan 4 2 1
unfolding service_manager reg_asks
reg_request-Served_example =
    reg_request-Served brace_json blank server wait_request reg_asks listening 0 no_fsm reg_ready
      server-IsPlanned refl tt

auth_request-Served_example :
    Served brace_json blank server auth_request auth_asks listening 1 no_fsm auth_plan 4 1 1
unfolding service_manager auth_asks
auth_request-Served_example =
    auth_request-Served brace_json blank server auth_request auth_asks listening 1 no_fsm auth_ready
      server-IsPlanned refl tt
