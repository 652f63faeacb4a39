-- ===== src/Examples/Answers.antt =====
-- A request with `wait=true` to the program of reg_fsm/main.cpp, until its FSM has ended.
use fsm_framework.Base.{◌≡◌, refl, true, List, [], ◌∷◌, some, arith, codes, get_elem?}
use fsm_framework.Data.{CMsg, msg_init, msg_close, success}
use fsm_framework.Timer.{start_timer, timer_wake, timer_post}
use fsm_framework.Pump.{
  send_msg, notify_fsm_completed, hub_timer_wake, hub_timer_post, hub_start_timer,
  set_completion_callback,
}
use fsm_framework.Fsm.{set_state, fsm_send_msg, fsm_start_timer}
use fsm_framework.Executor.{find_fsm_transition, run_transition, execute_fsm_transition}
use fsm_framework.RegFsm
use fsm_framework.Flow.{reg_plan, auth_plan}
use fsm_framework.Flow.Laws.{reg_plan-Descends, auth_plan-Descends}
use fsm_framework.Flow.Refinement.{reg_class-Follows, auth_class-Follows}
use fsm_framework.Factory.{
  fac_msg_prc, find_fsm, target_fsm, add_fsm, start_fsm, dispatch_to_fsm, dispatch_at, reclaim,
  kill_fsm_by_id, erase_fsm,
}
use fsm_framework.Manager.{
  new_manager, register_factory, start, find_factory, dispatch_to, dispatch_msg, pump_once,
}
use fsm_framework.Services.{service_manager, reg_class, auth_class, reg_factory, auth_factory}
use fsm_framework.System.{Reach, here, next, registers, starts, sets_callback}
use fsm_framework.Http.Target.{
  extract_path, extract_query, query_has_wait_true, resolve_route, cut_at, wait_loop,
}
use fsm_framework.Http.Session.{read_session_id, generate_session_id, generate_loop}
use fsm_framework.Http.Waiters.{
  WaitEntry, unregister_waiter, register_waiter, push_waiter, on_completion, find_waiters,
  notify_entries,
}
use fsm_framework.Http.Handler.{
  Server, handle_request, handle_body, handle_session, parse_body, begin_sync, finish_sync,
  sync_response,
}
use fsm_framework.Main.World.{Deed, requests, pumps, wakes, posts, passes, act, IsSound}
use fsm_framework.Main.Live.{act_in_turn}
use fsm_framework.Main.Window.{IsEnding, reported-IsEnding}
use fsm_framework.Factory.Window.{tell_at, tell_fsm, fac_msg_tell}
use fsm_framework.Manager.Window.{dispatch_tell, pump_tell}
use fsm_framework.Http.Service.{listen}
use fsm_framework.Examples.Http.{brace_json, blank, wait_request}
use fsm_framework.Examples.Requests.{server, server-IsPlanned}

server-Reach : Reach 0 server.manager
unfolding service_manager set_completion_callback
server-Reach =
    let g₁ = (register_factory new_manager (some (reg_factory 1))).0 in
    let g₂ = (register_factory g₁ (some (auth_factory 3))).0 in
    next
      (next
        (next
          (next here
            (registers new_manager reg_class 1 (reg_plan, reg_class-Follows, reg_plan-Descends)))
          (registers g₁ auth_class 3 (auth_plan, auth_class-Follows, auth_plan-Descends)))
        (starts g₂))
      (sets_callback (start g₂).0 true)

server-IsSound : IsSound server
server-IsSound = record { kept = (tt, omega arith); planned = server-IsPlanned; listens = refl }

-- The request comes in, and its FSM runs until its last message is queued.
abbrev deeds : List Deed
deeds =
    requests wait_request
    ∷ pumps
    ∷ pumps
    ∷ pumps
    ∷ pumps
    ∷ passes 100
    ∷ wakes 0
    ∷ posts 0
    ∷ pumps
    ∷ []

-- Another request comes in while the worker is about to drop the FSM.
abbrev meanwhile : List Deed
meanwhile = requests wait_request ∷ passes 5 ∷ []

abbrev request : CMsg
request = record { type = msg_init; service_id = 1; fsm_id = 0; session_id = 1; msg = codes "{}" }

abbrev over : Server
over =
    act_in_turn brace_json blank meanwhile
      (listen pump_tell (act_in_turn brace_json blank deeds server))

abbrev entry : WaitEntry
entry = record {
  completed = true;
  event = record {
    service_id = 1;
    fsm_id = 1;
    session_id = 1;
    result = success;
    final_event = msg_close;
  };
}

over_there : get_elem? over.registry.entries 0 ≡ some entry
unfolding act pump_tell dispatch_tell fac_msg_tell tell_fsm tell_at service_manager
    set_completion_callback register_factory find_factory dispatch_msg dispatch_to fac_msg_prc
    target_fsm find_fsm add_fsm start_fsm dispatch_to_fsm dispatch_at reclaim kill_fsm_by_id
    erase_fsm find_fsm_transition run_transition execute_fsm_transition set_state fsm_send_msg
    fsm_start_timer send_msg hub_start_timer start_timer notify_fsm_completed hub_timer_wake
    hub_timer_post timer_wake timer_post RegFsm.process_msg RegFsm.post_next_event
    RegFsm.send_next_msg RegFsm.start_next_timer pump_once extract_path extract_query
    query_has_wait_true resolve_route cut_at wait_loop read_session_id generate_session_id
    generate_loop parse_body handle_request handle_body handle_session begin_sync register_waiter
    push_waiter on_completion find_waiters notify_entries finish_sync start
over_there = refl

answer_given :
    finish_sync over 0 11 request (codes "register")
    ≡ some (
      record over { registry = unregister_waiter over.registry 1 1 0 },
      sync_response entry 11 (codes "register"),
    )
unfolding finish_sync
answer_given = rw (over_there, finish_sync) refl

reported-IsEnding_example :
    (w : WaitEntry) × (get_elem? over.registry.entries 0 ≡ some w)
    × (sync_response entry 11 (codes "register") ≡ sync_response w 11 (codes "register"))
    × IsEnding over.manager w.event
reported-IsEnding_example =
    reported-IsEnding brace_json blank 0 server server-Reach server-IsSound refl tt deeds meanwhile
      (tt, (tt, tt)) (omega arith) 0 11 request (codes "register")
      (record over { registry = unregister_waiter over.registry 1 1 0 })
      (sync_response entry 11 (codes "register")) answer_given (λ e. ground (arith, e))
