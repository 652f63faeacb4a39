-- ===== src/Http/Connection/Invariant.antt =====
-- What holds of the server of reg_fsm/src/HttpServer.cpp between any two handlers.
use fsm_framework.Base.{
  ◌-◌, ◌≡◌, refl, ◌∙◌, sym, ◌⊎◌, inl, inr, Bool, true, false, [], ◌∷◌, ◌++◌, arith, length, All,
  All-append, Bool-cases, some_same,
}
use fsm_framework.Data.{success, same_err}
use fsm_framework.Pump.{FsmCompletionEvent}
use fsm_framework.Http.Waiters.{notify_all_waiters_as_stopped}
use fsm_framework.Http.Waiters.Keeping.{IsTidy, on_completion-IsTidy, notify_all-IsTidy}
use fsm_framework.Http.Session.{Json}
use fsm_framework.Http.Handler.Keeping.{IsKept}
use fsm_framework.Http.Acceptor.{Sockets, Impl, http_start, http_listen, http_stop}
use fsm_framework.Http.Connection.{
  Listener, server_of, with_server, with_session, new_session, do_write, do_accept, on_accept,
  listener_start, IoStep, accepts, reads, ends_wait, writes, completes, manages, begins, stops,
  IoSteps, here, next,
}
use fsm_framework.Http.Connection.Sessions.{
  IsFit, IoInv, registry-IoInv, on_read-IoInv, on_wait_end-IoInv, on_write-IoInv,
}

-- The server accepts again, if it runs.
do_accept-IoInv :
    (l : Listener)
    → IsKept (server_of l)
    → All (IsFit (length l.impl.registry.entries)) l.sessions
    → IoInv (do_accept l)
unfolding do_accept
do_accept-IoInv l k f = elim (Bool-cases l.impl.running) [
  | inl runs ↦ rw runs (record { kept = k; accepting = λ e. omega arith; fit = f })
  | inr not_running ↦
      rw not_running (record { kept = k; accepting = λ e. absurd (ground (arith, e)); fit = f })
]

on_accept-IoInv : (l : Listener) (failed : Bool) → IoInv l → IoInv (on_accept failed l)
unfolding on_accept
on_accept-IoInv l failed v =
    let l' : Listener = record l { accepts = l.accepts - 1 } in
    let P = IsFit (length l.impl.registry.entries) in
    elim (Bool-cases l.impl.running) [
      | inr not_running ↦
          let same : on_accept failed l ≡ l' = ground arith in
          rw same
            (record { kept = v.kept; accepting = λ e. absurd (ground (arith, e)); fit = v.fit })
      | inl runs ↦ elim (Bool-cases failed) [
        | inl bad ↦
            let same : on_accept failed l ≡ do_accept l' = ground arith in
            rw same (do_accept-IoInv l' v.kept v.fit)
        | inr good ↦
            let l'' : Listener = record l' { sessions = l.sessions ++ new_session ∷ [] } in
            let same : on_accept failed l ≡ do_accept l'' = ground arith in
            rw same (
              do_accept-IoInv l'' v.kept
                (All-append P l.sessions (new_session ∷ []) v.fit (refl, tt)))
      ]
    ]

pub http_start-registry :
    (k : Sockets) (s : Impl)
    → ((http_start k s).0.registry ≡ s.registry)
      ⊎ ((http_start k s).0.registry ≡ notify_all_waiters_as_stopped s.registry)
unfolding http_start http_listen http_stop
http_start-registry k s = ground arith

-- A `Start` that fails leaves a server running only if it ran before.
http_start-running :
    (k : Sockets) (s : Impl)
    → same_err success (http_start k s).1 ≡ false
    → (http_start k s).0.running ≡ true
    → s.running ≡ true
unfolding http_start http_listen http_stop
http_start-running k s e r = ground arith

-- What `Start` and `Stop` leave of the registry.
Left-kept :
    (l : Listener) (s : Impl)
    → (s.registry ≡ l.impl.registry) ⊎ (s.registry ≡ notify_all_waiters_as_stopped l.impl.registry)
    → IoInv l
    → IsTidy s.registry × (length s.registry.entries ≡ length l.impl.registry.entries)
Left-kept l s (inl e) v = rw e (v.kept.0, refl)
Left-kept l s (inr e) v = rw e (notify_all-IsTidy l.impl.registry)

start-IoInv : (l : Listener) (k : Sockets) → IoInv l → IoInv (listener_start k l)
unfolding listener_start
start-IoInv l k v =
    let s = (http_start k l.impl).0 in
    let r = Left-kept l s (http_start-registry k l.impl) v in
    elim (Bool-cases (same_err success (http_start k l.impl).1)) [
      | inl started ↦
          rw started (do_accept-IoInv (record l { impl = s }) (r.0, v.kept.1) (rw r.1 v.fit))
      | inr failed ↦
          rw failed
            (registry-IoInv l s s.registry r.0 r.1 refl (http_start-running k l.impl failed) v)
    ]

pub http_stop-registry :
    (s : Impl)
    → ((http_stop s).registry ≡ s.registry)
      ⊎ ((http_stop s).registry ≡ notify_all_waiters_as_stopped s.registry)
unfolding http_stop
http_stop-registry s = ground arith

http_stop-running : (s : Impl) → (http_stop s).running ≡ true → s.running ≡ true
unfolding http_stop
http_stop-running s e = ground arith

stop-IoInv : (l : Listener) → IoInv l → IoInv (record l { impl = http_stop l.impl })
stop-IoInv l v =
    let s = http_stop l.impl in
    let r = Left-kept l s (http_stop-registry l.impl) v in
    registry-IoInv l s s.registry r.0 r.1 refl (http_stop-running l.impl) v

module _ (j : Json) (garbage : FsmCompletionEvent) where
  IoStep-IoInv : {l l' : Listener} → IoStep j garbage l l' → IoInv l → IoInv l'
  IoStep-IoInv (accepts l failed h) v = on_accept-IoInv l failed v
  IoStep-IoInv (reads l l' i s r e p done) v =
      let (l'', same, w) = on_read-IoInv j garbage l i s r v e p in
      let at : l' ≡ l'' = some_same (sym done ∙ same) in rw at w
  IoStep-IoInv (ends_wait l l' i s e u m name at p done) v =
      let (sv, r, same, w) = on_wait_end-IoInv l i s e u m name v at p in
      let to : l' ≡ with_session i (do_write r s) (with_server sv l) =
        some_same (sym done ∙ same) in
      rw to w
  IoStep-IoInv (writes l i s r failed e p) v = (on_write-IoInv l i s r v e p).1
  IoStep-IoInv (completes l e) v =
      let c = on_completion-IsTidy l.impl.registry e v.kept.0 in
      registry-IoInv l _ _ c.0 c.1 refl (λ h. h) v
  IoStep-IoInv (manages l g) v = record { kept = v.kept; accepting = v.accepting; fit = v.fit }
  IoStep-IoInv (begins l k) v = start-IoInv l k v
  IoStep-IoInv (stops l) v = stop-IoInv l v

  -- Whatever the handlers, the completions of FSMs, `Start` and `Stop` do in any order: the registry stays tidy, the
  -- counter of the session ids stays an unsigned int, a server that runs has a call of `async_accept` under way, and
  -- each session was given at most one response: none while it reads or waits, and it waits on an entry that is there.
  pub IoSteps-IoInv : {l l' : Listener} → IoSteps j garbage l l' → IoInv l → IoInv l'
  IoSteps-IoInv here v = v
  IoSteps-IoInv (next r s) v = IoStep-IoInv s (IoSteps-IoInv r v)
