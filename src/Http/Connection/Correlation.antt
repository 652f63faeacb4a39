-- ===== src/Http/Connection/Correlation.antt =====
-- A request to the server of reg_fsm/src/HttpServer.cpp is answered with the FSM of its own service and session.
use fsm_framework.Base.{
  ℕ, ◌<◌, ◌≡◌, refl, ◌∙◌, sym, ◌≢◌, ◌⊎◌, inl, inr, Bool, false, List, [], ◌∷◌, ◌++◌, some, arith,
  length, get_elem?, get_elem?-set, set, All, All-get_elem?, Bool-cases, Option-cases, some_same,
}
use fsm_framework.Data.{EerrNo, CMsg, success, same_err}
use fsm_framework.Pump.{FsmCompletionEvent}
use fsm_framework.Http.Session.{Json}
use fsm_framework.Http.Waiters.{
  WaitEntry, WaitRegistry, unregister_waiter, notify_all_waiters_as_stopped,
}
use fsm_framework.Http.Handler.{
  ok, Response, json_response, Server, Reply, answers, waits, sync_response, finish_sync,
  handle_request,
}
use fsm_framework.Http.Handler.Sync.{success_body}
use fsm_framework.Http.Handler.Keeping.{Keeps, handle_request-Keeps}
use fsm_framework.Http.Acceptor.{Sockets, http_start, http_stop}
use fsm_framework.Http.Connection.{
  waiting, shut, dropped, Session, Listener, server_of, with_server, with_session, new_session,
  do_write, reply_to, ReadResult, end_of_stream, read_failed, got, on_read, on_wait_end, do_accept,
  on_accept, listener_start, IoStep, accepts, reads, ends_wait, writes, completes, manages, begins,
  stops, IoSteps, here, next,
}
use fsm_framework.Http.Connection.Sessions.{IsFit, IoInv}
use fsm_framework.Http.Connection.Invariant.{IoSteps-IoInv, http_start-registry, http_stop-registry}
use fsm_framework.Http.Connection.Owners.{IsOwned, key_of}
use fsm_framework.Http.Connection.Leaks.{IsIdleSession, IoSteps-IsOwned}
use fsm_framework.Http.Connection.Matches.{
  Waits, IsAbout, IsMatched, IsMatched-fewer, Waits-set, Waits-append, get_elem?-set_cases,
  IsMatched-extends, drop-IsMatched, on_completion-IsMatched, notify_all-IsMatched,
  register-IsMatched,
}

-- A session waits on an entry that is there.
Waits-below :
    (l : Listener) (x : ℕ) (m : CMsg)
    → IoInv l
    → Waits l.sessions x m
    → x < length l.impl.registry.entries
Waits-below l x m v (i, s, u, name, at, p) =
    let f = All-get_elem? (IsFit (length l.impl.registry.entries)) l.sessions i s v.fit at in
    (rw p at f).1

-- What the end of a wait leaves.
ended :
    (l l' : Listener) (i : ℕ) (s : Session) (x v : ℕ) (m : CMsg) (name : List ℕ)
    → on_wait_end l i s x v m name ≡ some l'
    → (w : WaitEntry) × (get_elem? l.impl.registry.entries x ≡ some w)
      × (l'
          ≡ with_session i (do_write (sync_response w v name) s) (
              with_server
                (record (server_of l) {
                  registry = unregister_waiter l.impl.registry m.service_id m.session_id x;
                })
                l))
unfolding on_wait_end finish_sync
ended l l' i s x v m name done = elim (Option-cases (get_elem? l.impl.registry.entries x)) [
  | inl none_there ↦ absurd (ground (arith, none_there, done))
  | inr (w, there) ↦ (w, there, sym (some_same (rw (there, on_wait_end) at done)))
]

err_cases : (r : EerrNo) → (r ≡ success) ⊎ (same_err success r ≡ false)
err_cases success = inl refl
err_cases _ = inr refl

-- Of the ends of FSMs that the server was told of, `P` holds.
module _ (P : FsmCompletionEvent → Type 0) where
  ends_wait-IsMatched :
      (l l' : Listener) (i : ℕ) (s : Session) (x v : ℕ) (m : CMsg) (name : List ℕ)
      → on_wait_end l i s x v m name ≡ some l'
      → IsOwned l.impl.registry.waiters l.sessions
      → IsMatched P l.sessions l.impl.registry
      → IsMatched P l'.sessions l'.impl.registry
  unfolding unregister_waiter
  ends_wait-IsMatched l l' i s x v m name done o a =
      let (w, there, same) = ended l l' i s x v m name done in
      let t = do_write (sync_response w v name) s in
      rw same (
        drop-IsMatched P l.sessions (set l.sessions i t) (key_of m) x l.impl.registry o.0
          (λ y n. Waits-set l.sessions i y n t (λ y v n name q. cc)) a)

  -- The reply of `HandleRequest` to a session that reads.
  reply-IsMatched :
      (garbage : FsmCompletionEvent) (l : Listener) (sv : Server) (i : ℕ) (s : Session)
      (reply : Reply)
      → IoInv l
      → Keeps garbage (server_of l) (some (sv, reply))
      → IsMatched P l.sessions l.impl.registry
      → let l' = reply_to i s reply (with_server sv l) in IsMatched P l'.sessions l'.impl.registry
  reply-IsMatched garbage l sv i s (answers r) v k a =
      IsMatched-fewer P l.sessions (set l.sessions i (do_write r s)) sv.registry
        (λ y n. Waits-set l.sessions i y n (do_write r s) (λ y v n name q. cc))
        (IsMatched-extends P l.sessions l.impl.registry sv.registry k.1.0 k.2 k.1.1
          (λ x m. Waits-below l x m v) a)
  reply-IsMatched garbage l sv i s (waits x u m name) v k a =
      let t : Session = record s { phase = waiting x u m name } in
      rw k.2.2 (
        register-IsMatched P garbage l.sessions (set l.sessions i t) l.impl.registry m v.kept.0
          (λ y n. Waits-below l y n v) (λ y n w. split y n w) a)
    where
      split :
          (y : ℕ) (n : CMsg)
          → Waits (set l.sessions i (record s { phase = waiting x u m name })) y n
          → ((y ≡ length l.impl.registry.entries) × (n ≡ m)) ⊎ Waits l.sessions y n
      split y n (c, s', u', name', at, p) =
          elim (get_elem?-set_cases l.sessions i c (record s { phase = waiting x u m name }) s'
            at) [
              | inr before ↦ inr (c, s', u', name', before, p)
              | inl self ↦
                  let q : waiting x u m name ≡ waiting y u' n name' = rw self at p in
                  let e : y ≡ x = cc in inl (e ∙ k.2.1, cc)
            ]

  reads-IsMatched :
      (j : Json) (garbage : FsmCompletionEvent) (l l' : Listener) (i : ℕ) (s : Session)
      (r : ReadResult)
      → IoInv l
      → on_read j garbage l i s r ≡ some l'
      → IsMatched P l.sessions l.impl.registry
      → IsMatched P l'.sessions l'.impl.registry
  unfolding on_read
  reads-IsMatched j garbage l l' i s end_of_stream v done a = rw (sym (some_same done)) (
      IsMatched-fewer P l.sessions (set l.sessions i (record s { phase = shut })) l.impl.registry
        (λ y n. Waits-set l.sessions i y n (record s { phase = shut }) (λ y v n name q. cc)) a)
  reads-IsMatched j garbage l l' i s read_failed v done a = rw (sym (some_same done)) (
      IsMatched-fewer P l.sessions (set l.sessions i (record s { phase = dropped })) l.impl.registry
        (λ y n. Waits-set l.sessions i y n (record s { phase = dropped }) (λ y v n name q. cc)) a)
  reads-IsMatched j garbage l l' i s (got r) v done a =
      let k = handle_request-Keeps j garbage (server_of l) r v.kept in
      elim (Option-cases (handle_request j garbage (server_of l) r)) [
        | inl lost ↦ absurd (rw lost at k)
        | inr ((sv, reply), handled) ↦
            rw (sym (some_same (rw (handled, on_read) at done)))
              (reply-IsMatched garbage l sv i s reply v (rw handled at k) a)
      ]

  -- `Start` and `Stop` leave the registry, or all its waiters told that the server stopped.
  Left-IsMatched :
      (ss : List Session) (w w' : WaitRegistry)
      → (w' ≡ w) ⊎ (w' ≡ notify_all_waiters_as_stopped w)
      → IsMatched P ss w
      → IsMatched P ss w'
  Left-IsMatched ss w w' (inl e) a = rw e a
  Left-IsMatched ss w w' (inr e) a = rw e (notify_all-IsMatched P ss w a)

  accept-IsMatched :
      (l : Listener) (failed : Bool)
      → IsMatched P l.sessions l.impl.registry
      → let l' = on_accept failed l in IsMatched P l'.sessions l'.impl.registry
  unfolding on_accept do_accept
  accept-IsMatched l failed a =
      let more =
        IsMatched-fewer P l.sessions (l.sessions ++ new_session ∷ []) l.impl.registry
          (λ y n. Waits-append l.sessions y n new_session (λ y v n name q. cc)) a in
      elim (Bool-cases l.impl.running) [
        | inr idle ↦ rw idle a
        | inl runs ↦ elim (Bool-cases failed) [
          | inl bad ↦ rw (runs, bad) a
          | inr good ↦ rw (runs, good) more
        ]
      ]

  start-IsMatched :
      (l : Listener) (k : Sockets)
      → IsMatched P l.sessions l.impl.registry
      → let l' = listener_start k l in IsMatched P l'.sessions l'.impl.registry
  unfolding listener_start do_accept
  start-IsMatched l k a =
      let r =
        Left-IsMatched l.sessions l.impl.registry (http_start k l.impl).0.registry
          (http_start-registry k l.impl) a in
      elim (Bool-cases (same_err success (http_start k l.impl).1)) [
        | inr failed ↦ rw failed r
        | inl started ↦ elim (Bool-cases (http_start k l.impl).0.running) [
          | inl runs ↦ rw started (rw runs r)
          | inr idle ↦ rw started (rw idle r)
        ]
      ]

  -- The answer is about one of those ends, with success and of an FSM of this service and session, or its status is not 200.
  abbrev pub IsOwnAnswer : CMsg → ℕ → List ℕ → Response → Type 0
  IsOwnAnswer m v name r =
      ((e : FsmCompletionEvent) × P e
        × (e.service_id ≡ m.service_id)
        × (e.session_id ≡ m.session_id)
        × (e.result ≡ success)
        × (r ≡ json_response ok v (success_body e name)))
      ⊎ (r.status ≢ ok)

  sync_response-IsOwnAnswer :
      (w : WaitEntry) (m : CMsg) (v : ℕ) (name : List ℕ)
      → IsAbout P m w
      → IsOwnAnswer m v name (sync_response w v name)
  sync_response-IsOwnAnswer w m v name a = elim (Bool-cases w.completed) [
    | inr late ↦ rw late (inr (λ e. cc))
    | inl done ↦ elim (err_cases w.event.result) [
      | inr failed ↦ rw (done, failed) (inr (λ e. cc))
      | inl succeeded ↦ elim (a done) [
        | inr stopped ↦ absurd (cc)
        | inl own ↦ inl (w.event, own.0, own.1, own.2, succeeded, rw (done, succeeded) refl)
      ]
    ]
  ]

-- The event is one of the list.
abbrev pub IsIn : FsmCompletionEvent → List FsmCompletionEvent → Type 0
IsIn e [] = ⊥
IsIn e (x ∷ xs) = (e ≡ x) ⊎ IsIn e xs

IsIn-before :
    (e : FsmCompletionEvent) (xs ys : List FsmCompletionEvent) → IsIn e xs → IsIn e (xs ++ ys)
IsIn-before e [] ys h = elim h [ ]
IsIn-before e (x ∷ xs) ys (inl same) = inl same
IsIn-before e (x ∷ xs) ys (inr later) = inr (IsIn-before e xs ys later)

IsIn-after :
    (e : FsmCompletionEvent) (xs ys : List FsmCompletionEvent) → IsIn e ys → IsIn e (xs ++ ys)
IsIn-after e [] ys h = h
IsIn-after e (x ∷ xs) ys h = inr (IsIn-after e xs ys h)

module _ (j : Json) (garbage : FsmCompletionEvent) where
  -- The ends of FSMs that `OnCompletion` is called with in a step, and in some steps.
  abbrev pub step_ends : {l l' : Listener} → IoStep j garbage l l' → List FsmCompletionEvent
  step_ends (completes l e) = e ∷ []
  step_ends _ = []

  abbrev pub ends_in : {l l' : Listener} → IoSteps j garbage l l' → List FsmCompletionEvent
  ends_in here = []
  ends_in (next r s) = ends_in r ++ step_ends s

  IoStep-IsMatched :
      (P : FsmCompletionEvent → Type 0) {l l' : Listener} (s : IoStep j garbage l l')
      → ((e : FsmCompletionEvent) → IsIn e (step_ends s) → P e)
      → IoInv l
      → IsOwned l.impl.registry.waiters l.sessions
      → IsMatched P l.sessions l.impl.registry
      → IsMatched P l'.sessions l'.impl.registry
  IoStep-IsMatched P (accepts l failed h) told v o a = accept-IsMatched P l failed a
  IoStep-IsMatched P (reads l l' i s r e p done) told v o a =
      reads-IsMatched P j garbage l l' i s r v done a
  IoStep-IsMatched P (ends_wait l l' i s x u m name at p done) told v o a =
      ends_wait-IsMatched P l l' i s x u m name done o a
  IoStep-IsMatched P (writes l i s r failed e p) told v o a =
      IsMatched-fewer P l.sessions (set l.sessions i (record s { phase = shut })) l.impl.registry
        (λ y n. Waits-set l.sessions i y n (record s { phase = shut }) (λ y v n name q. cc)) a
  IoStep-IsMatched P (completes l e) told v o a =
      on_completion-IsMatched P l.sessions l.impl.registry e (told e (inl refl)) a
  IoStep-IsMatched P (manages l g) told v o a = a
  IoStep-IsMatched P (begins l k) told v o a = start-IsMatched P l k a
  IoStep-IsMatched P (stops l) told v o a =
      Left-IsMatched P l.sessions l.impl.registry (http_stop l.impl).registry
        (http_stop-registry l.impl) a

  IoSteps-IsMatched :
      (P : FsmCompletionEvent → Type 0) {l l' : Listener} (steps : IoSteps j garbage l l')
      → ((e : FsmCompletionEvent) → IsIn e (ends_in steps) → P e)
      → IoInv l
      → IsOwned l.impl.registry.waiters l.sessions
      → IsMatched P l.sessions l.impl.registry
      → IsMatched P l'.sessions l'.impl.registry
  IoSteps-IsMatched P here told v o a = a
  IoSteps-IsMatched P (next r s) told v o a =
      IoStep-IsMatched P s (λ e h. told e (IsIn-after e (ends_in r) (step_ends s) h))
        (IoSteps-IoInv j garbage r v) (IoSteps-IsOwned j garbage r v o)
        (IoSteps-IsMatched P r (λ e h. told e (IsIn-before e (ends_in r) (step_ends s) h)) v o a)

  idle-IsMatched :
      (P : FsmCompletionEvent → Type 0) (l : Listener)
      → All IsIdleSession l.sessions
      → l.impl.registry.waiters ≡ []
      → IsMatched P l.sessions l.impl.registry
  idle-IsMatched P l e k = (
    rw k tt,
    λ x m w (i, s, v, name, at, p).
        absurd (All-get_elem? IsIdleSession l.sessions i s e at x v m name p),
  )

  -- Let a server with no session that waits and an empty map of waiters have the invariant of its connections. Whatever the handlers,
  -- the completions of FSMs, `Start` and `Stop` do in any order: when the wait of a session ends, it is given a response, and
  -- if that has status 200, it tells of an end of an FSM that `OnCompletion` was called with in these steps, with success, for
  -- the service and the session of the message that the session waits for.
  pub answers_own :
      {l l' : Listener} (l'' : Listener) (i : ℕ) (s : Session) (x v : ℕ) (m : CMsg) (name : List ℕ)
      (steps : IoSteps j garbage l l')
      → IoInv l
      → All IsIdleSession l.sessions
      → l.impl.registry.waiters ≡ []
      → get_elem? l'.sessions i ≡ some s
      → s.phase ≡ waiting x v m name
      → on_wait_end l' i s x v m name ≡ some l''
      → (r : Response) × (get_elem? l''.sessions i ≡ some (do_write r s))
        × IsOwnAnswer (λ e. IsIn e (ends_in steps)) m v name r
  answers_own {l} {l'} l'' i s x v m name steps inv e k at p done =
      let P = λ (c : FsmCompletionEvent). IsIn c (ends_in steps) in
      let a = IoSteps-IsMatched P steps (λ c h. h) inv (rw k (tt, tt)) (idle-IsMatched P l e k) in
      let (w, there, same) = ended l' l'' i s x v m name done in
      (
        sync_response w v name,
        rw same (get_elem?-set l'.sessions i s (do_write (sync_response w v name) s) at),
        sync_response-IsOwnAnswer P w m v name (a.1 x m w (i, s, v, name, at, p) there),
      )
