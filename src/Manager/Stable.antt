-- ===== src/Manager/Stable.antt =====
-- What one step of the pump (`PumpOnce` of Cfactory_mgr.cpp) keeps of the hub.
use fsm_framework.Base.{inl, inr, List, All-get_elem?, List-cases}
use fsm_framework.Data.{CMsg}
use fsm_framework.Pump.{Hub}
use fsm_framework.Factory.Work.{Planned}
use fsm_framework.Factory.Effects.{IsStable, fac_msg_prc-stable}
use fsm_framework.Manager.{Manager, with_pump, dispatch_to, pump_once}
use fsm_framework.Manager.Routing.{dispatch_msg_cases}
use fsm_framework.Manager.Progress.{IsPlanned, take_work, pump_once_lem}

-- A property that does not look at the queue, and that whatever an FSM does keeps.
pub pump_once-stable :
    (P : Hub → Type 0) (g : Manager)
    → IsStable P
    → ((ms : List CMsg) → P (record (g.hub) { pump = ms }))
    → P g.hub
    → IsPlanned g
    → P (pump_once g).0.hub × IsPlanned (pump_once g).0
unfolding pump_once dispatch_to
pump_once-stable P g s taken x w = elim (List-cases g.hub.pump) [
  | inl e ↦ rw (e, pump_once) (x, w)
  | inr (m, rest, e) ↦ rw (pump_once_lem g m rest e) (
    elim (dispatch_msg_cases (with_pump rest g) m) [
      | inl r ↦ rw r (taken rest)
      | inr (i, fac, at, r) ↦
          let own : Planned fac.class =
            All-get_elem? (λ c. Planned c.class) g.fac_list i fac w at in
          rw r (fac_msg_prc-stable P s fac own.0 m (with_pump rest g).hub own.1 (taken rest))
    ],
    (take_work g m rest w e).1,
  )
]
