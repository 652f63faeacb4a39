-- ===== src/Main/Answers.antt =====
-- What the server of reg_fsm/src/HttpServer.cpp answers while `main` of reg_fsm/main.cpp waits in its loop: an answer that a
-- synchronous request gets before its time is over comes from the end of an FSM.
use fsm_framework.Base.{
  ℕ, suc, ◌+◌, ◌≤◌, ◌<◌, ◌≡◌, refl, ap, ◌⊎◌, ◌==◌, ◌∙◌, sym, ◌≢◌, inl, inr, true, false, List, [],
  ◌∷◌, none, some, length, arith, get_elem?, All, All-get_elem?, Bool-cases, Option-cases,
  some_same,
}
use fsm_framework.Data.{u32_mod, CMsg}
use fsm_framework.Pump.{FsmCompletionEvent}
use fsm_framework.Factory.{Cfactory}
use fsm_framework.Factory.Frame.{lookup_fsm}
use fsm_framework.Manager.{Manager}
use fsm_framework.Manager.Registry.{IsFree}
use fsm_framework.System.{Reach}
use fsm_framework.System.Told.Watched.{Reach-Watched}
use fsm_framework.System.Told.Run.{told_at_most_once, Watched-IsTold}
use fsm_framework.Http.Session.{Json}
use fsm_framework.Http.Waiters.{WaitEntry}
use fsm_framework.Http.Handler.{Response, Server, gateway_timeout, sync_response, finish_sync}
use fsm_framework.Main.World.{Deed, IsSound}
use fsm_framework.Main.Genuine.{IsGenuine, WasTold, open-IsGenuine}
use fsm_framework.Main.Live.{act_in_turn, act_in_turn-IsLive}

-- The event is the end of an FSM that its factory made and has no more.
abbrev pub HasEnded : Manager → FsmCompletionEvent → Type 0
HasEnded g e =
    (i : ℕ) × (fac : Cfactory) × (get_elem? g.fac_list i ≡ some fac)
    × (fac.fac_id ≡ e.service_id)
    × (1 ≤ e.fsm_id)
    × (e.fsm_id < fac.next_fsm_id)
    × (lookup_fsm e.fsm_id fac.fsm_list ≡ none)

-- A service has a factory, or is free.
serves_or_IsFree :
    (sid : ℕ) (cs : List Cfactory)
    → IsFree sid cs
      ⊎ ((i : ℕ) × (fac : Cfactory) × (get_elem? cs i ≡ some fac) × (fac.fac_id ≡ sid))
serves_or_IsFree sid [] = inl tt
serves_or_IsFree sid (c ∷ cs) = elim (Bool-cases (c.fac_id == sid)) [
  | inl same ↦ inr (0, c, refl, ground arith)
  | inr other ↦ elim (serves_or_IsFree sid cs) [
    | inl free ↦ inl ((λ e. ground arith), free)
    | inr (i, fac, at, e) ↦ inr (suc i, fac, at, e)
  ]
]

told-HasEnded :
    {n : ℕ} {g : Manager} (e : FsmCompletionEvent)
    → Reach n g
    → n + 1 < u32_mod
    → WasTold g.hub.notified e
    → HasEnded g e
told-HasEnded {n} {g} e r b t = elim (serves_or_IsFree e.service_id g.fac_list) [
  | inl free ↦
      let never = (Watched-IsTold (Reach-Watched r) b).others e.service_id free e.fsm_id in
      absurd (omega (arith, never, t))
  | inr (i, fac, at, same) ↦ elim (told_at_most_once i fac e.fsm_id r b at) [
    | inl never ↦ absurd (let never' = rw same at never in omega (arith, never', t))
    | inr (_, low, high, gone) ↦ (i, fac, at, same, low, high, gone)
  ]
]

-- An entry that is reported as anything but a timeout is completed.
reported_lem :
    (w : WaitEntry) (v : ℕ) (name : List ℕ)
    → (sync_response w v name).status ≢ gateway_timeout
    → w.completed ≡ true
reported_lem w v name late = elim (Bool-cases w.completed) [
  | inl e ↦ e
  | inr e ↦ absurd (late (rw e refl))
]

-- Let a server that is sound run over a manager that is not stopped and that the threads can reach with n messages
-- handled, and let no entry be completed. The worker, the timers, the requests and the ends of waits do at most 2 ^ 32 -
-- 2 - n deeds; the handling of one message, from `NotifyFsmCompleted` to `KillFsm` included, is one deed. Between two
-- deeds each synchronous request that is answered with anything but the timeout gets the report of its entry, and the
-- FSM that the event in the entry names has ended: a registered factory of the service gave out its id, and has the FSM
-- no more.
pub reported-HasEnded :
    (j : Json) (garbage : FsmCompletionEvent) (n : ℕ) (s : Server)
    → Reach n s.manager
    → IsSound s
    → s.manager.hub.stopped ≡ false
    → All (λ (w : WaitEntry). w.completed ≡ false) s.registry.entries
    → (ds : List Deed) → n + length ds + 1 < u32_mod
    → (i v : ℕ) (m : CMsg) (name : List ℕ) (s' : Server) (r : Response)
    → finish_sync (act_in_turn j garbage ds s) i v m name ≡ some (s', r)
    → r.status ≢ gateway_timeout
    → (w : WaitEntry) × (get_elem? (act_in_turn j garbage ds s).registry.entries i ≡ some w)
      × (r ≡ sync_response w v name)
      × HasEnded (act_in_turn j garbage ds s).manager w.event
unfolding finish_sync
reported-HasEnded j garbage n s reach sound runs fresh ds b i v m name s' r e late =
    let t = act_in_turn j garbage ds s in
    let l = act_in_turn-IsLive j garbage n ds s (record {
      sound = sound;
      runs = runs;
      honest = open-IsGenuine s.manager.hub.notified s.registry.entries fresh;
      handled = n;
      few = omega arith;
      reach = reach;
    }) in
    elim (Option-cases (get_elem? t.registry.entries i)) [
      | inl lost ↦ absurd (cc (rw (lost, finish_sync) at e))
      | inr (w, at) ↦
          let same : r ≡ sync_response w v name =
            sym (ap (λ p. p.1) (some_same (rw (at, finish_sync) at e))) in
          let done = reported_lem w v name (λ q. late (ap (λ p. p.status) same ∙ q)) in
          let genuine =
            All-get_elem? (IsGenuine t.manager.hub.notified) t.registry.entries i w l.honest at
              done in
          (w, at, same, told-HasEnded w.event l.reach (omega (arith, l.few)) genuine)
    ]
