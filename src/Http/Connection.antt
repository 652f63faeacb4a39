-- ===== src/Http/Connection.antt =====
-- `DoAccept` and `Session` of reg_fsm/src/HttpServer.cpp: the handlers that the two threads of the `io_context` run, each a
-- step, with whatever the socket calls report. A session waits inside `HandleSyncRequest`, which is two steps. Handlers
-- may also run while the server does not: the code's `Stop` leaves it open which of them still do.
pub mod Sessions
pub mod Invariant
pub mod Answers
pub mod Owners
pub mod Leaks
pub mod Matches
pub mod Correlation
use fsm_framework.Base.{
  ℕ, zero, suc, ◌+◌, ◌-◌, ◌<◌, ◌≡◌, Bool, true, false, not, List, [], ◌∷◌, ◌++◌, Option, none, some,
  if◌then◌else◌, get_elem?, set,
}
use fsm_framework.Data.{CMsg, success, same_err}
use fsm_framework.Pump.{FsmCompletionEvent}
use fsm_framework.Manager.{Manager}
use fsm_framework.Http.Waiters.{WaitRegistry, on_completion}
use fsm_framework.Http.Session.{Json}
use fsm_framework.Http.Handler.{
  Request, Response, Server, Reply, answers, waits, handle_request, finish_sync,
}
use fsm_framework.Http.Acceptor.{Sockets, Impl, http_start, http_stop}

-- Where a session stands: `async_read` is under way, `HandleSyncRequest` waits on an entry for a message, `async_write` is
-- under way, the connection was shut down, or nothing refers to the session any more.
pub data SessionPhase : Type 0 where
  reading shut dropped : SessionPhase
  waiting : ℕ → ℕ → CMsg → List ℕ → SessionPhase
  writing : Response → SessionPhase

-- `responses` lists what was given to `async_write`.
pub record Session : Type 0 where
  pub phase : SessionPhase
  pub responses : List Response

pub record Listener : Type 0 where
  pub impl : Impl
  pub next_session_id : ℕ
  -- How many calls of `async_accept` are under way.
  pub accepts : ℕ
  pub sessions : List Session

-- What `HandleRequest` works on.
abbrev pub server_of : Listener → Server
server_of l = record {
  manager = l.impl.manager;
  next_session_id = l.next_session_id;
  registry = l.impl.registry;
}

abbrev pub with_server : Server → Listener → Listener
with_server s l = record l {
  impl = record (l.impl) { manager = s.manager; registry = s.registry };
  next_session_id = s.next_session_id;
}

abbrev pub with_session : ℕ → Session → Listener → Listener
with_session i s l = record l { sessions = set l.sessions i s }

abbrev pub do_read : Session → Session
do_read s = record s { phase = reading }

abbrev pub new_session : Session
new_session = do_read (record { phase = reading; responses = [] })

abbrev pub close : Session → Session
close s = record s { phase = shut }

abbrev pub do_write : Response → Session → Session
do_write r s = record { phase = writing r; responses = s.responses ++ r ∷ [] }

pub data ReadResult : Type 0 where
  end_of_stream read_failed : ReadResult
  got : Request → ReadResult

-- The reply of `HandleRequest` to the session `i`, which is `s`.
abbrev pub reply_to : ℕ → Session → Reply → Listener → Listener
reply_to i s (answers r) l = with_session i (do_write r s) l
reply_to i s (waits e v m name) l = with_session i (record s { phase = waiting e v m name }) l

module _ (j : Json) (garbage : FsmCompletionEvent) where
  -- `none` is a request whose handling does not end.
  unfoldable pub on_read : Listener → ℕ → Session → ReadResult → Option Listener
  unfolding handle_request
  on_read l i s end_of_stream = some (with_session i (close s) l)
  on_read l i s read_failed = some (with_session i (record s { phase = dropped }) l)
  on_read l i s (got r) = elim (handle_request j garbage (server_of l) r) [
    | none ↦ none
    | some (sv, reply) ↦ some (reply_to i s reply (with_server sv l))
  ]

-- `wait_for` has returned; `none` is an entry that is not there.
unfoldable pub on_wait_end : Listener → ℕ → Session → ℕ → ℕ → CMsg → List ℕ → Option Listener
unfolding finish_sync
on_wait_end l i s e v m name = elim (finish_sync (server_of l) e v m name) [
  | none ↦ none
  | some (sv, r) ↦ some (with_session i (do_write r s) (with_server sv l))
]

-- The connection is shut down whether the write failed or not.
abbrev pub on_write : Bool → Session → Session
on_write failed s = close s

unfoldable pub do_accept : Listener → Listener
do_accept l = if not l.impl.running then l else record l { accepts = l.accepts + 1 }

unfoldable pub on_accept : Bool → Listener → Listener
unfolding do_accept
on_accept failed l =
    let l' : Listener = record l { accepts = l.accepts - 1 } in
    if not l.impl.running
    then l'
    else if failed
    then do_accept l'
    else do_accept (record l' { sessions = l.sessions ++ new_session ∷ [] })

-- `Start` with its `DoAccept`.
unfoldable pub listener_start : Sockets → Listener → Listener
unfolding http_start do_accept
listener_start k l =
    let (s, r) = http_start k l.impl in
    let l' : Listener = record l { impl = s } in if same_err success r then do_accept l' else l'

abbrev pub with_registry : WaitRegistry → Listener → Listener
with_registry w l = record l { impl = record (l.impl) { registry = w } }

module _ (j : Json) (garbage : FsmCompletionEvent) where
  pub data IoStep : Listener → Listener → Type 0 where
    accepts : (l : Listener) (failed : Bool) → 0 < l.accepts → IoStep l (on_accept failed l)
    reads :
        (l l' : Listener) (i : ℕ) (s : Session) (r : ReadResult)
        → get_elem? l.sessions i ≡ some s
        → s.phase ≡ reading
        → on_read j garbage l i s r ≡ some l'
        → IoStep l l'
    ends_wait :
        (l l' : Listener) (i : ℕ) (s : Session) (e v : ℕ) (m : CMsg) (name : List ℕ)
        → get_elem? l.sessions i ≡ some s
        → s.phase ≡ waiting e v m name
        → on_wait_end l i s e v m name ≡ some l'
        → IoStep l l'
    writes :
        (l : Listener) (i : ℕ) (s : Session) (r : Response) (failed : Bool)
        → get_elem? l.sessions i ≡ some s
        → s.phase ≡ writing r
        → IoStep l (with_session i (on_write failed s) l)
    -- The manager tells of the end of an FSM, and does whatever else it does.
    completes :
        (l : Listener) (e : FsmCompletionEvent)
        → IoStep l (with_registry (on_completion l.impl.registry e) l)
    manages :
        (l : Listener) (g : Manager)
        → IoStep l (record l { impl = record (l.impl) { manager = g } })
    begins : (l : Listener) (k : Sockets) → IoStep l (listener_start k l)
    stops : (l : Listener) → IoStep l (record l { impl = http_stop l.impl })

  -- Any number of steps.
  pub data IoSteps (l : Listener) : Listener → Type 0 where
    here : IoSteps l l
    next : {l' l'' : Listener} → IoSteps l l' → IoStep l' l'' → IoSteps l l''
