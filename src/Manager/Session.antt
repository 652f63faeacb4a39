-- ===== src/Manager/Session.antt =====
-- One step of the pump (`PumpOnce` of Cfactory_mgr.cpp), seen from one factory as a map from ids
-- to FSMs.
use fsm_framework.Base.{
  ℕ, zero, suc, ◌+◌, ◌<◌, ◌≡◌, refl, ◌∙◌, sym, true, ◌&&◌, List, [], ◌∷◌, Option, none, some, arith,
  ◌==◌, if◌then◌else◌, length, get_elem?, set,
}
use fsm_framework.Data.{u32_mod, fsm_num_in_fac, EerrNo, msg_init, CMsg}
use fsm_framework.Pump.{Hub, notify_fsm_completed}
use fsm_framework.Fsm.{Cfsm}
use fsm_framework.Flow.{Plan, react, Follows}
use fsm_framework.Factory.{Cfactory, fac_msg_prc}
use fsm_framework.Factory.Invariant.{IsValid, fac_msg_prc-IsValid}
use fsm_framework.Factory.Effects.{fac_msg_prc-same}
use fsm_framework.Factory.Frame.{lookup_fsm, has_ended, Handled}
use fsm_framework.Factory.Refines.{
  fresh, fac_msg_prc_existing, fac_msg_prc_existing-IsValid, fac_msg_prc_new,
}
use fsm_framework.Manager.{Manager, with_pump, pump_once}
use fsm_framework.Manager.Registry.{DistinctIds, DistinctIds-set}
use fsm_framework.Manager.Routing.{dispatch_msg_routes}
use fsm_framework.Manager.Progress.{pump_once_lem}

-- The factory `i` of the manager, for the service `sid` and with FSMs that follow `p`, holds the
-- FSMs of the map `M`.
pub record Serves (g : Manager) (i sid : ℕ) (p : Plan) (M : ℕ → Option Cfsm) : Type 0 where
  pub fac : Cfactory
  pub distinct : DistinctIds g.fac_list
  pub there : get_elem? g.fac_list i ≡ some fac
  pub routed : fac.fac_id ≡ sid
  pub valid : IsValid fac
  pub owned : fac.has_mgr ≡ true
  pub follows : Follows fac.class p
  pub holds : (j : ℕ) → lookup_fsm j fac.fsm_list ≡ M j

-- What the FSM `f` does with the message: the FSM after it, and the hub after its reaction, which
-- tells of the end of the FSM.
abbrev pub outcome : Plan → Cfsm → CMsg → Hub → Cfsm × Hub × EerrNo
outcome p f m h = react (p f.state m.type) true f (record m { fsm_id = f.fsm_id }) h

abbrev pub after_hub : ℕ → Plan → Cfsm → CMsg → Hub → Hub
after_hub sid p f m h =
    let r = outcome p f m h in
    if has_ended r.0
    then notify_fsm_completed r.1 (record {
      service_id = sid;
      fsm_id = f.fsm_id;
      session_id = m.session_id;
      result = r.2;
      final_event = m.type;
    })
    else r.1

abbrev pub after_map : Plan → Cfsm → CMsg → Hub → (ℕ → Option Cfsm) → ℕ → Option Cfsm
after_map p f m h M j =
    if f.fsm_id == j
    then (if has_ended (outcome p f m h).0 then none else some (outcome p f m h).0)
    else M j

-- The list of factories with one of them replaced by what handling left of it.
set-there :
    (cs : List Cfactory) (i : ℕ) (c c' : Cfactory)
    → get_elem? cs i ≡ some c
    → get_elem? (set cs i c') i ≡ some c'
set-there [] i c c' e = cc
set-there (x ∷ cs) zero c c' e = refl
set-there (x ∷ cs) (suc i) c c' e = set-there cs i c c' e

-- The code's `ProcessMsg` has the outcome of the plan.
process-outcome :
    (fac : Cfactory) (p : Plan) (f : Cfsm) (m : CMsg) (h : Hub)
    → Follows fac.class p
    → fac.has_mgr ≡ true
    → f.has_factory ≡ true
    → fac.class.process_msg fac.has_mgr f (record m { fsm_id = f.fsm_id }) h ≡ outcome p f m h
process-outcome fac p f m h w owned linked =
    let link : (f.has_factory && fac.has_mgr) ≡ true = ground arith in
    rw link at (w.reacts fac.has_mgr f (record m { fsm_id = f.fsm_id }) h)

-- What `FacMsgPrc` did, in the words of the plan.
pub Handled-outcome :
    (fac : Cfactory) (sid : ℕ) (p : Plan) (M : ℕ → Option Cfsm) (f : Cfsm) (m : CMsg) (h : Hub)
    → Follows fac.class p
    → fac.has_mgr ≡ true
    → f.has_factory ≡ true
    → fac.fac_id ≡ sid
    → ((j : ℕ) → lookup_fsm j fac.fsm_list ≡ M j)
    → Handled fac f m h (fac_msg_prc fac m h)
    → ((fac_msg_prc fac m h).1 ≡ after_hub sid p f m h)
      × ((j : ℕ) → lookup_fsm j (fac_msg_prc fac m h).0.fsm_list ≡ after_map p f m h M j)
Handled-outcome fac sid p M f m h w owned linked routed holds r =
    let done = process-outcome fac p f m h w owned linked in
    (r.1 ∙ rw (done, owned, routed) (ground arith), λ j. r.0 j ∙ rw (done, holds j) refl)

-- What `PumpOnce` leaves when an FSM has handled the front message: `After` of the plan.
abbrev pub Advanced :
    Manager → ℕ → ℕ → Plan → (ℕ → Option Cfsm) → Cfsm → CMsg → List CMsg → Manager → Type 0
Advanced g i sid p M f m rest g' =
    let h = record (g.hub) { pump = rest } in
    (g'.hub ≡ after_hub sid p f m h) × Serves g' i sid p (after_map p f m h M)

Handled-Advanced :
    (g : Manager) (i sid : ℕ) (p : Plan) (M : ℕ → Option Cfsm) (s : Serves g i sid p M) (m : CMsg)
    (rest : List CMsg) (f : Cfsm)
    → g.hub.pump ≡ m ∷ rest
    → m.service_id ≡ sid
    → f.has_factory ≡ true
    → Handled s.fac f m
        (record (g.hub) { pump = rest })
        (fac_msg_prc s.fac m (record (g.hub) { pump = rest }))
    → IsValid (fac_msg_prc s.fac m (record (g.hub) { pump = rest })).0
    → Advanced g i sid p M f m rest (pump_once g).0
Handled-Advanced g i sid p M s m rest f e to linked r v =
    let h = record (g.hub) { pump = rest } in
    let fac' = (fac_msg_prc s.fac m h).0 in
    let step =
      pump_once_lem g m rest e
      ∙ dispatch_msg_routes (with_pump rest g) i s.fac m s.distinct s.there (s.routed ∙ sym to) in
    let same = fac_msg_prc-same s.fac m h in
    let seen = Handled-outcome s.fac sid p M f m h s.follows s.owned linked s.routed s.holds r in
    rw step (
      seen.0,
      record {
        fac = fac';
        distinct = DistinctIds-set g.fac_list i s.fac fac' s.distinct s.there same.0;
        there = set-there g.fac_list i s.fac fac' s.there;
        routed = same.0 ∙ s.routed;
        valid = v;
        owned = same.1 ∙ s.owned;
        follows = rw same.2 s.follows;
        holds = seen.1;
      },
    )

-- A message for an FSM of the factory is handled by it.
pub advance :
    (g : Manager) (i sid : ℕ) (p : Plan) (M : ℕ → Option Cfsm) (m : CMsg) (rest : List CMsg)
    (f : Cfsm)
    → Serves g i sid p M
    → g.hub.pump ≡ m ∷ rest
    → m.service_id ≡ sid
    → M m.fsm_id ≡ some f
    → f.has_factory ≡ true
    → Advanced g i sid p M f m rest (pump_once g).0
advance g i sid p M m rest f s e to known linked =
    let h = record (g.hub) { pump = rest } in
    let k = s.holds m.fsm_id ∙ known in
    Handled-Advanced g i sid p M s m rest f e to linked (fac_msg_prc_existing s.fac f m h s.valid k)
      (fac_msg_prc_existing-IsValid s.fac f m h s.valid k)

-- A first message that names no FSM is handled by a new one.
pub begin :
    (g : Manager) (i sid : ℕ) (p : Plan) (M : ℕ → Option Cfsm) (m : CMsg) (rest : List CMsg)
    (f : Cfsm) (s : Serves g i sid p M)
    → g.hub.pump ≡ m ∷ rest
    → m.service_id ≡ sid
    → M m.fsm_id ≡ none
    → m.type ≡ msg_init
    → s.fac.next_fsm_id + 1 < u32_mod
    → length s.fac.fsm_list < fsm_num_in_fac
    → s.fac.class.create_fsm ≡ some f
    → Advanced g i sid p M (fresh s.fac f) m rest (pump_once g).0
begin g i sid p M m rest f s e to unknown first counter room made =
    let h = record (g.hub) { pump = rest } in
    Handled-Advanced g i sid p M s m rest (fresh s.fac f) e to refl
      (fac_msg_prc_new s.fac f m h s.valid counter (s.holds m.fsm_id ∙ unknown) first room made)
      (fac_msg_prc-IsValid s.fac m h s.valid counter)
