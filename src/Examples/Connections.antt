-- ===== src/Examples/Connections.antt =====
-- One connection of a server of reg_fsm/src/HttpServer.cpp, with a synchronous request.
use fsm_framework.Base.{codes}
use fsm_framework.Http.Target.{cut_at, wait_loop}
use fsm_framework.Http.Connection.{
  waiting, reads, ends_wait, completes, with_registry, Session, do_write, with_session, on_wait_end,
}
use fsm_framework.Base.{◌≡◌, refl, true, false, [], ◌∷◌, some, arith, get_elem?}
use fsm_framework.Manager.{new_manager, post}
use fsm_framework.Data.{CMsg, msg_init, msg_close, success}
use fsm_framework.Pump.{send_msg, FsmCompletionEvent}
use fsm_framework.Http.Target.{extract_path, extract_query, query_has_wait_true, resolve_route}
use fsm_framework.Http.Waiters.{
  register_waiter, unregister_waiter, push_waiter, on_completion, find_waiters, notify_entries,
}
use fsm_framework.Http.Session.{read_session_id, generate_session_id, generate_loop}
use fsm_framework.Http.Handler.{
  Response, handle_request, handle_body, handle_session, parse_body, begin_sync, finish_sync,
  sync_response,
}
use fsm_framework.Http.Connection.{
  Listener, new_session, got, on_read, on_accept, IoSteps, here, next, accepts,
}
use fsm_framework.Http.Connection.Sessions.{IoInv}
use fsm_framework.Http.Connection.Invariant.{IoSteps-IoInv}
use fsm_framework.Http.Connection.Answers.{Answered, request-Answered}
use fsm_framework.Http.Connection.Leaks.{no_waiter_left}
use fsm_framework.Http.Connection.Correlation.{IsIn, IsOwnAnswer, answers_own}
use fsm_framework.Examples.Http.{brace_json, blank, wait_request}

-- A server that listens, with one connection that reads.
abbrev listener : Listener
listener = record {
  impl = record {
    manager = new_manager;
    registry = record { entries = []; waiters = [] };
    acceptor_open = true;
    running = true;
    actual_port = 8080;
    threads = 2;
  };
  next_session_id = 1;
  accepts = 1;
  sessions = new_session ∷ [];
}

listener-IoInv : IoInv listener
listener-IoInv = record { kept = (tt, omega arith); accepting = λ e. omega arith; fit = (refl, tt) }

IoSteps-IoInv_example : IoInv (on_accept false listener)
IoSteps-IoInv_example =
    IoSteps-IoInv brace_json blank (next here (accepts listener false (omega arith))) listener-IoInv

request-Answered_example :
    (l₁ : Listener) × (on_read brace_json blank listener 0 new_session (got wait_request) ≡ some l₁)
    × (l' : Listener) × (resp : Response) × IoSteps brace_json blank l₁ l'
    × Answered l' 0 resp
request-Answered_example =
    request-Answered brace_json blank listener 0 new_session wait_request listener-IoInv refl refl

-- The message of the request, and the server that waits for the end of its FSM.
abbrev wait_message : CMsg
wait_message = record {
  type = msg_init;
  service_id = 1;
  fsm_id = 0;
  session_id = 1;
  msg = codes "{}";
}

abbrev waiting_session : Session
waiting_session = record { phase = waiting 0 11 wait_message (codes "register"); responses = [] }

abbrev waiting_listener : Listener
waiting_listener = record listener {
  impl = record (listener.impl) {
    manager = (post new_manager wait_message).0;
    registry = (register_waiter listener.impl.registry blank 1 1).0;
  };
  next_session_id = 2;
  sessions = waiting_session ∷ [];
}

waits_for_it :
    on_read brace_json blank listener 0 new_session (got wait_request) ≡ some waiting_listener
unfolding on_read handle_request handle_body handle_session parse_body begin_sync resolve_route
    extract_path extract_query query_has_wait_true cut_at wait_loop read_session_id
    generate_session_id generate_loop send_msg register_waiter push_waiter
waits_for_it = refl

-- The time is over.
abbrev timed_out : Listener
timed_out =
    with_session 0
      (do_write (sync_response (record { completed = false; event = blank }) 11 (codes "register"))
        waiting_session)
      (record waiting_listener {
        impl = record (waiting_listener.impl) {
          registry = unregister_waiter waiting_listener.impl.registry 1 1 0;
        };
      })

times_out :
    on_wait_end waiting_listener 0 waiting_session 0 11 wait_message (codes "register")
    ≡ some timed_out
unfolding on_wait_end finish_sync register_waiter
times_out = refl

no_waiter_left_example : timed_out.impl.registry.waiters ≡ []
no_waiter_left_example =
    no_waiter_left brace_json blank
      (next
        (next here
          (reads listener waiting_listener 0 new_session (got wait_request) refl refl waits_for_it))
        (ends_wait waiting_listener timed_out 0 waiting_session 0 11 wait_message (codes "register")
          refl refl times_out))
      listener-IoInv refl ((λ x v m name e. cc), tt)

-- The FSM of the request ends.
abbrev its_end : FsmCompletionEvent
its_end = record {
  service_id = 1;
  fsm_id = 4;
  session_id = 1;
  result = success;
  final_event = msg_close;
}

abbrev told_listener : Listener
told_listener =
    with_registry (on_completion waiting_listener.impl.registry its_end) waiting_listener

abbrev answered : Listener
answered =
    with_session 0
      (do_write (sync_response (record { completed = true; event = its_end }) 11 (codes "register"))
        waiting_session)
      (record told_listener {
        impl = record (told_listener.impl) {
          registry = unregister_waiter told_listener.impl.registry 1 1 0;
        };
      })

answers_it :
    on_wait_end told_listener 0 waiting_session 0 11 wait_message (codes "register") ≡ some answered
unfolding on_wait_end finish_sync register_waiter on_completion find_waiters notify_entries
    push_waiter
answers_it = refl

answers_own_example :
    (r : Response) × (get_elem? answered.sessions 0 ≡ some (do_write r waiting_session))
    × IsOwnAnswer (λ e. IsIn e (its_end ∷ [])) wait_message 11 (codes "register") r
answers_own_example =
    answers_own brace_json blank answered 0 waiting_session 0 11 wait_message (codes "register")
      (next
        (next here
          (reads listener waiting_listener 0 new_session (got wait_request) refl refl waits_for_it))
        (completes waiting_listener its_end))
      listener-IoInv ((λ x v m name e. cc), tt) refl refl refl answers_it
