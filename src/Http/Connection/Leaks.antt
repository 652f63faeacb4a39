-- ===== src/Http/Connection/Leaks.antt =====
-- No waiter of reg_fsm/src/HttpServer.cpp outlives the session that waits on it.
use fsm_framework.Base.{
  ℕ, ◌≡◌, refl, sym, ◌≢◌, ◌⊎◌, inl, inr, Bool, List, [], ◌∷◌, some, arith, length, get_elem?, All,
  All-get_elem?, Bool-cases, Option-cases, some_same,
}
use fsm_framework.Data.{CMsg, success, same_err}
use fsm_framework.Pump.{FsmCompletionEvent}
use fsm_framework.Http.Session.{Json}
use fsm_framework.Http.Waiters.{WaitMap, WaitRegistry, notify_all_waiters_as_stopped}
use fsm_framework.Http.Waiters.Registry.{Tidy, on_completion-waiters}
use fsm_framework.Http.Handler.{handle_request}
use fsm_framework.Http.Handler.Keeping.{handle_request-Keeps}
use fsm_framework.Http.Acceptor.{Sockets, http_start, http_stop}
use fsm_framework.Http.Connection.{
  reading, shut, dropped, waiting, Session, Listener, server_of, new_session, ReadResult,
  end_of_stream, read_failed, got, on_read, do_accept, on_accept, listener_start, IoStep, accepts,
  reads, ends_wait, writes, completes, manages, begins, stops, IoSteps, here, next,
}
use fsm_framework.Http.Connection.Sessions.{IoInv}
use fsm_framework.Http.Connection.Invariant.{IoSteps-IoInv, http_start-registry, http_stop-registry}
use fsm_framework.Http.Connection.Owners.{
  IsOwned, IsOwned-set, IsOwned-append, ends_wait-IsOwned, reply-IsOwned,
}

reads-IsOwned :
    (j : Json) (garbage : FsmCompletionEvent) (l l' : Listener) (i : ℕ) (s : Session)
    (r : ReadResult)
    → IoInv l
    → get_elem? l.sessions i ≡ some s
    → s.phase ≡ reading
    → on_read j garbage l i s r ≡ some l'
    → IsOwned l.impl.registry.waiters l.sessions
    → IsOwned l'.impl.registry.waiters l'.sessions
unfolding on_read
reads-IsOwned j garbage l l' i s end_of_stream v e p done o = rw (sym (some_same done)) (
    IsOwned-set l.impl.registry.waiters l.sessions i s (record s { phase = shut }) e
      (λ x v m name q. cc) o)
reads-IsOwned j garbage l l' i s read_failed v e p done o = rw (sym (some_same done)) (
    IsOwned-set l.impl.registry.waiters l.sessions i s (record s { phase = dropped }) e
      (λ x v m name q. cc) o)
reads-IsOwned j garbage l l' i s (got r) v e p done o =
    let k = handle_request-Keeps j garbage (server_of l) r v.kept in
    elim (Option-cases (handle_request j garbage (server_of l) r)) [
      | inl lost ↦ absurd (rw lost at k)
      | inr ((sv, reply), handled) ↦
          let to = some_same (rw (handled, on_read) at done) in
          rw (sym to) (reply-IsOwned garbage l sv i s reply e p (rw handled at k) o)
    ]

Left-IsOwned :
    (w w' : WaitRegistry) (ss : List Session)
    → (w' ≡ w) ⊎ (w' ≡ notify_all_waiters_as_stopped w)
    → IsOwned w.waiters ss
    → IsOwned w'.waiters ss
unfolding notify_all_waiters_as_stopped
Left-IsOwned w w' ss (inl e) o = rw e o
Left-IsOwned w w' ss (inr e) o = rw e (tt, tt)

accept-IsOwned :
    (l : Listener) (failed : Bool)
    → IsOwned l.impl.registry.waiters l.sessions
    → let l' = on_accept failed l in IsOwned l'.impl.registry.waiters l'.sessions
unfolding on_accept do_accept
accept-IsOwned l failed o =
    ground (arith, o, IsOwned-append l.impl.registry.waiters l.sessions (new_session ∷ []) o)

start-IsOwned :
    (l : Listener) (k : Sockets)
    → IsOwned l.impl.registry.waiters l.sessions
    → let l' = listener_start k l in IsOwned l'.impl.registry.waiters l'.sessions
unfolding listener_start do_accept
start-IsOwned l k o =
    let r =
      Left-IsOwned l.impl.registry (http_start k l.impl).0.registry l.sessions
        (http_start-registry k l.impl) o in
    elim (Bool-cases (same_err success (http_start k l.impl).1)) [
      | inr failed ↦ rw failed r
      | inl started ↦ elim (Bool-cases (http_start k l.impl).0.running) [
        | inl runs ↦ rw started (rw runs r)
        | inr idle ↦ rw started (rw idle r)
      ]
    ]

-- The session does not wait.
abbrev pub IsIdleSession : Session → Type 0
IsIdleSession s = (x v : ℕ) (m : CMsg) (name : List ℕ) → s.phase ≢ waiting x v m name

no_owner_no_waiter :
    (n : ℕ) (w : WaitMap) (ss : List Session)
    → Tidy n w
    → IsOwned w ss
    → All IsIdleSession ss
    → w ≡ []
no_owner_no_waiter n [] ss t o idle = refl
no_owner_no_waiter n ((k, []) ∷ w) ss t o idle = absurd (t.0.0 refl)
no_owner_no_waiter n ((k, x ∷ is) ∷ w) ss t o idle =
    let (i, s, v, m, name, at, p, same) = o.1.0.0 in
    absurd (All-get_elem? IsIdleSession ss i s idle at x v m name p)

module _ (j : Json) (garbage : FsmCompletionEvent) where
  IoStep-IsOwned :
      {l l' : Listener}
      → IoStep j garbage l l'
      → IoInv l
      → IsOwned l.impl.registry.waiters l.sessions
      → IsOwned l'.impl.registry.waiters l'.sessions
  IoStep-IsOwned (accepts l failed h) v o = accept-IsOwned l failed o
  IoStep-IsOwned (reads l l' i s r e p done) v o = reads-IsOwned j garbage l l' i s r v e p done o
  IoStep-IsOwned (ends_wait l l' i s e u m name at p done) v o =
      ends_wait-IsOwned l l' i s e u m name at p done o
  IoStep-IsOwned (writes l i s r failed e p) v o =
      IsOwned-set l.impl.registry.waiters l.sessions i s (record s { phase = shut }) e
        (λ x v m name q. cc) o
  IoStep-IsOwned (completes l e) v o = rw (on_completion-waiters l.impl.registry e) o
  IoStep-IsOwned (manages l g) v o = o
  IoStep-IsOwned (begins l k) v o = start-IsOwned l k o
  IoStep-IsOwned (stops l) v o =
      Left-IsOwned l.impl.registry (http_stop l.impl).registry l.sessions
        (http_stop-registry l.impl) o

  pub IoSteps-IsOwned :
      {l l' : Listener}
      → IoSteps j garbage l l'
      → IoInv l
      → IsOwned l.impl.registry.waiters l.sessions
      → IsOwned l'.impl.registry.waiters l'.sessions
  IoSteps-IsOwned here v o = o
  IoSteps-IsOwned (next r s) v o =
      IoStep-IsOwned s (IoSteps-IoInv j garbage r v) (IoSteps-IsOwned r v o)

  -- Let a server with an empty map of waiters have the invariant of its connections. Whatever the handlers, the
  -- completions of FSMs, `Start` and `Stop` do in any order: once no session waits, the map of the waiters is empty.
  pub no_waiter_left :
      {l l' : Listener}
      → IoSteps j garbage l l'
      → IoInv l
      → l.impl.registry.waiters ≡ []
      → All IsIdleSession l'.sessions
      → l'.impl.registry.waiters ≡ []
  no_waiter_left {l} {l'} r v e idle =
      no_owner_no_waiter (length l'.impl.registry.entries) l'.impl.registry.waiters l'.sessions
        (IoSteps-IoInv j garbage r v).kept.0 (IoSteps-IsOwned r v (rw e (tt, tt))) idle
