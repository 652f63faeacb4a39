-- ===== src/Manager/Progress.antt =====
-- The message loop comes to an end: `RunUntilEmpty` and, after a stop, `Run` of Cfactory_mgr.cpp.
use fsm_framework.Base.{
  ℕ, zero, suc, ◌+◌, ◌<◌, ◌≡◌, refl, ◌∙◌, ◌⊎◌, inl, inr, true, false, List, [], ◌∷◌, some, arith,
  get_elem?, All, All-set, All-get_elem?, Option-cases, List-cases, Bool-cases,
}
use fsm_framework.Data.{CMsg, invalid_state}
use fsm_framework.Pump.{Hub, send_msg}
use fsm_framework.Flow.Laws.{rank, rank_pos, work}
use fsm_framework.Factory.{Cfactory, fac_msg_prc}
use fsm_framework.Factory.Work.{Planned, fac_msg_prc-work}
use fsm_framework.Manager.{
  Manager, find_factory, dispatch_to, dispatch_msg, with_pump, pump_once, run_until_empty, run,
  stop, post, request_stop,
}

abbrev pub IsPlanned : Manager → Type 0
IsPlanned g = All (λ fac. Planned fac.class) g.fac_list

-- A step of the loop from a manager with the hub `h`: it leaves less work than `n`, the classes
-- of the factories and the stop flag.
abbrev pub Lessens : ℕ → Hub → Manager → Type 0
Lessens n h g = (work g.hub < n) × IsPlanned g × (g.hub.stopped ≡ h.stopped)

dispatch_to-work :
    (g : Manager) (i : ℕ) (fac : Cfactory) (m : CMsg)
    → IsPlanned g
    → get_elem? g.fac_list i ≡ some fac
    → Lessens (work g.hub + rank m.type) g.hub (dispatch_to g i fac m).0
unfolding dispatch_to
dispatch_to-work g i fac m w e =
    let P : Cfactory → Type 0 = λ c. Planned c.class in
    let own = All-get_elem? P g.fac_list i fac w e in
    let r = fac_msg_prc-work fac m g.hub own in
    (r.0, All-set P g.fac_list i (fac_msg_prc fac m g.hub).0 w (rw r.1 own), r.2)

dispatch_msg-work :
    (g : Manager) (m : CMsg)
    → IsPlanned g
    → Lessens (work g.hub + rank m.type) g.hub (dispatch_msg g m).0
unfolding dispatch_msg
dispatch_msg-work g m w = elim (Option-cases (find_factory m.service_id g.fac_list)) [
  | inl e ↦ rw (e, dispatch_msg) (omega (arith, rank_pos m.type), w, refl)
  | inr (i, e) ↦
      rw (e, dispatch_msg)
        (elim (Option-cases (get_elem? g.fac_list i)) [
          | inl e' ↦ rw e' (omega (arith, rank_pos m.type), w, refl)
          | inr (fac, e') ↦ rw e' (dispatch_to-work g i fac m w e')
        ])
]

-- The message is taken off the queue first.
pub take_work :
    (g : Manager) (m : CMsg) (rest : List CMsg)
    → IsPlanned g
    → g.hub.pump ≡ m ∷ rest
    → Lessens (work g.hub) g.hub (dispatch_msg (with_pump rest g) m).0
take_work g m rest w e =
    let r = dispatch_msg-work (with_pump rest g) m w in (rw e (omega arith), r.1, r.2)

pub pump_once_lem :
    (g : Manager) (m : CMsg) (rest : List CMsg)
    → g.hub.pump ≡ m ∷ rest
    → pump_once g ≡ dispatch_msg (with_pump rest g) m
unfolding pump_once
pump_once_lem g m rest e = rw (e, pump_once)

-- Where every factory's class follows a plan, `RunUntilEmpty` ends with an empty queue, whatever
-- is queued, once the fuel exceeds the work that is queued and in the timers.
pub run_until_empty_total :
    (n : ℕ) (g : Manager)
    → IsPlanned g
    → work g.hub < n
    → (g' : Manager) × (run_until_empty n g ≡ some g') × (g'.hub.pump ≡ [])
unfolding run_until_empty
run_until_empty_total zero g w h = absurd (omega arith)
run_until_empty_total (suc n) g w h = elim (List-cases g.hub.pump) [
  | inl e ↦ (g, ground arith, e)
  | inr (m, rest, e) ↦
      let r = take_work g m rest w e in
      let s = run_until_empty_total n (dispatch_msg (with_pump rest g) m).0 r.1 (omega arith) in
      (s.0, rw (e, run_until_empty) (rw (pump_once_lem g m rest e) s.1), s.2)
]

-- Where every factory's class follows a plan and the manager is stopped, and the fuel exceeds the
-- work that is queued and in the timers, the loop of `Run` handles what is queued and ends;
-- `_running` is then false and the queue empty.
pub run_total :
    (n : ℕ) (g : Manager)
    → IsPlanned g
    → g.hub.stopped ≡ true
    → work g.hub < n
    → (g' : Manager) × (run n g ≡ some g')
      × (g'.hub.pump ≡ [])
      × (g'.running ≡ false)
      × (g'.hub.stopped ≡ true)
unfolding run
run_total zero g w z h = absurd (omega arith)
run_total (suc n) g w z h = elim (List-cases g.hub.pump) [
  | inl e ↦ (record g { running = false }, ground arith, e, refl, z)
  | inr (m, rest, e) ↦
      let r = take_work g m rest w e in
      let s = run_total n (dispatch_msg (with_pump rest g) m).0 r.1 (r.2 ∙ z) (omega arith) in
      (s.0, rw (e, run) s.1, s.2, s.3, s.4)
]

post_stopped : (g : Manager) (m : CMsg) → g.hub.stopped ≡ true → post g m ≡ (g, invalid_state)
unfolding send_msg
post_stopped g m z = ground arith

-- Where every factory's class follows a plan, `Stop` ends for enough fuel, whatever is queued: no
-- worker is left to join, the queue is empty if there was one, and every later `SendMsg` is
-- refused.
pub stop_total :
    (n : ℕ) (g : Manager)
    → IsPlanned g
    → work g.hub < n
    → (g' : Manager) × (stop n g ≡ some g')
      × (g'.joinable ≡ false)
      × ((g.joinable ≡ false) ⊎ (g'.hub.pump ≡ []))
      × ((m : CMsg) → post g' m ≡ (g', invalid_state))
unfolding stop
stop_total n g w h = elim (Bool-cases g.joinable) [
  | inr idle ↦
      (request_stop g, ground arith, idle, inl idle, λ m. post_stopped (request_stop g) m refl)
  | inl busy ↦
      let r = run_total n (request_stop g) w refl h in
      (
        record (r.0) { joinable = false },
        ground (arith, r.1),
        refl,
        inr r.2,
        λ m. post_stopped (record (r.0) { joinable = false }) m r.4,
      )
]
