-- ===== src/Lib.antt =====
-- The FSM framework: a manager with a message pump owns factories, a factory owns FSMs of one class,
-- and an FSM runs a table of transitions, posting messages to itself through the manager at once
-- or by a timer. All paths below start at the repository's root.
--
-- The parts, from the ground up, and the files that model them:
--   Data       reg_fsm/inc/common.h and reg_fsm/inc/CMsg.h: constants, enumerations, the message.
--   Timer      reg_fsm/src/TimerManager.cpp. `StartTimer`, `StopTimer`, `StopAllTimers` and
--              `StopAndJoin` are `start_timer`, `stop_timer`, `stop_all_timers` and `stop_and_join`; the
--              body of a timer's thread is the steps `timer_wake` and `timer_post`.
--   Pump       the queue, the stop flag, the timers and the completion callback of
--              reg_fsm/src/Cfactory_mgr.cpp, in the record `Hub`.
--   Fsm        reg_fsm/src/Cfsm.cpp: the state, the helpers that reach the manager, the two queues of
--              deferred messages.
--   Executor   reg_fsm/inc/FsmTableExecutor.h: the search of a table and the execution of a row.
--   RegFsm, AuthFsm   reg_fsm/src/RegFsm.cpp and reg_fsm/src/AuthFsm.cpp, with the `CreateFsm` of
--              their factories.
--   Factory    reg_fsm/src/Cfactory.cpp: `FacMsgPrc` (`fac_msg_prc`) finds, makes, runs and reclaims
--              FSMs.
--   Manager    the rest of reg_fsm/src/Cfactory_mgr.cpp: the registry, routing, `PumpOnce`,
--              `RunUntilEmpty`, `Run`, `Start`, `Stop`, `Join` and the destructor.
--   Flow       an abstract plan of a business FSM, with one reaction for each state and event.
--   Services   the two services as reg_fsm/main.cpp registers them, and their flows from end to end.
--   Http       reg_fsm/src/HttpServer.cpp: Target (paths and queries), Session (session ids), Waiters
--              (the registry of synchronous requests), Handler (`HandleRequest`, and
--              `HandleSyncRequest` in two steps), Acceptor (`Start` and `Stop`), Connection
--              (`DoAccept` and `Session`, whose handlers are steps in any order), Service (the
--              server over its running manager, connected by the completion callback).
--   Options    the command line of reg_fsm/main.cpp.
--   Main       `main` of reg_fsm/main.cpp: `main_launch` up to its loop, `main_end` after it; Whole has
--              all of it, with the loop and the signals, and World what the other threads do meanwhile,
--              as a list of deeds; the state it leaves is the matter of Genuine, Live, Answers and Window.
--   Logger     reg_fsm/src/Logger.cpp: the names, and in Record what `Log` writes.
--   System     clients, worker and timers' threads as a relation of interleaved steps. Undisturbed are
--              the runs in which nobody stops the manager or cancels a timer; the modules from
--              Pending on count the messages that are on their way to each FSM in them; Told counts
--              the events that clients are told of.
--
-- A client calls the manager (`post`), which queues the message; the worker takes it off the
-- queue, finds the factory by `serviceId` (`dispatch_msg`), and the factory gives it to the FSM
-- with its `fsmId` (`fac_msg_prc`), which may post the next message or start a timer. A timer
-- posts to the same queue. When an FSM ends, the factory tells the manager's callback and drops
-- the FSM.
--
-- Conventions. An `unsigned int` is a native number below 2 ^ 32, with the wrap of its additions
-- written out. A pointer to an FSM or a factory is an index in its owner's list, and null is
-- `none`. A part of the code that a mutex guards is one step. The handling of one message is one
-- step: only the worker (or the caller of `PumpOnce`) does it, and the other threads see the hub that it
-- leaves. So `NotifyFsmCompleted` and the `KillFsm` after it are parts of one step, though a
-- client that is woken by the first may act before the second; Factory/Window, Manager/Window and Main/Window
-- have the moment between them. The components'
-- calls of the logger are left out, but for the operations that do nothing else.
--
-- Fuel. `run_until_empty` and `run` take fuel, one unit for each message and one to see the empty
-- queue. A message has a rank (8 for the first, 1 for the last); a plan's reactions post messages
-- of lower rank, so that the sum of the ranks in the queue and the timers, plus one, is enough
-- fuel (Manager/Progress). The loop of `QueryHasWaitTrue` gets a round for each byte and one
-- more, that of `GenerateSessionId` two; a number is printed with one round more than it counts. The
-- fuel of `main_launch` and `main_end` is for the loop that `Stop` waits for.
--
-- Parameters: Boost.JSON (`Json` of Http/Session), the socket calls (`Sockets` of Http/Acceptor),
-- `strtoul` (Options), and the local time as `std::put_time` prints it (Logger/Record).
--
-- Not modelled: the mixed writes of a call of `OnCompletion` and one of `NotifyAllWaitersAsStopped` that both have collected their
-- entries before either writes (each call is one step), which records the components log but for the operations that only log (Fsm/Records, Factory/Drop), what Boost.Asio does
-- beyond calling the handlers, the code of a completion callback other than that of the server (the
-- events it is called with are listed), memory allocation and exceptions, and callers that reenter a
-- factory from `ProcessMsg`.
pub mod Base
pub mod Data
pub mod Logger
pub mod Timer
pub mod Pump
pub mod Fsm
pub mod Executor
pub mod RegFsm
pub mod AuthFsm
pub mod Factory
pub mod Manager
pub mod Flow
pub mod Services
pub mod System
pub mod Http
pub mod Options
pub mod Main
mod Examples
