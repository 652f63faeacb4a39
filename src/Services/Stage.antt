-- ===== src/Services/Stage.antt =====
-- A stage of a flow: one FSM of a factory, the others, and the hub. The steps from stage to stage.
use fsm_framework.Base.{
  ℕ, ◌+◌, ◌<◌, ◌≡◌, refl, ◌∙◌, ap, subst, true, false, List, [], ◌∷◌, Option, none, some, arith,
  ◌==◌, if◌then◌else◌, length,
}
use fsm_framework.Data.{u32_mod, fsm_num_in_fac, msg_init, CMsg}
use fsm_framework.Pump.{Hub}
use fsm_framework.Fsm.{Cfsm}
use fsm_framework.Flow.{Plan}
use fsm_framework.Factory.Frame.{has_ended}
use fsm_framework.Factory.Refines.{fresh}
use fsm_framework.Manager.{Manager, pump_once}
use fsm_framework.Manager.Session.{Serves, outcome, after_hub, after_map, Advanced, advance, begin}
use fsm_framework.System.{with_hub}

abbrev pub with_fsm : Cfsm → (ℕ → Option Cfsm) → ℕ → Option Cfsm
with_fsm f M j = if f.fsm_id == j then some f else M j

-- The hub of the manager is `h`, and its factory holds `f` beside the FSMs of `M`.
abbrev pub Stage : ℕ → ℕ → Plan → (ℕ → Option Cfsm) → Manager → Hub → Cfsm → Type 0
Stage i sid p M g h f = (g.hub ≡ h) × Serves g i sid p (with_fsm f M)

pub Serves-map :
    (g : Manager) (i sid : ℕ) (p : Plan) (M M' : ℕ → Option Cfsm)
    → ((j : ℕ) → M j ≡ M' j)
    → Serves g i sid p M
    → Serves g i sid p M'
Serves-map g i sid p M M' same s = record {
  fac = s.fac;
  distinct = s.distinct;
  there = s.there;
  routed = s.routed;
  valid = s.valid;
  owned = s.owned;
  follows = s.follows;
  holds = λ j. s.holds j ∙ same j;
}

unfoldable pub Serves-with_hub :
    (g : Manager) (h : Hub) (i sid : ℕ) (p : Plan) (M : ℕ → Option Cfsm)
    → Serves g i sid p M
    → Serves (with_hub h g) i sid p M
Serves-with_hub g h i sid p M s = record {
  fac = s.fac;
  distinct = s.distinct;
  there = s.there;
  routed = s.routed;
  valid = s.valid;
  owned = s.owned;
  follows = s.follows;
  holds = s.holds;
}

module _ (i sid : ℕ) (p : Plan) (M : ℕ → Option Cfsm) where
  -- What a step left, with the hub before it known and the FSM still there.
  settle :
      (g g' : Manager) (h : Hub) (N : ℕ → Option Cfsm) (f : Cfsm) (m : CMsg) (rest : List CMsg)
      → g.hub ≡ h
      → Advanced g i sid p N f m rest g'
      → ((j : ℕ) → (f.fsm_id == j) ≡ false → N j ≡ M j)
      → let r = outcome p f m (record h { pump = rest }) in
        has_ended r.0 ≡ false → r.0.fsm_id ≡ f.fsm_id → Stage i sid p M g' r.1 r.0
  settle g g' h N f m rest is_hub a others live same =
      let a' =
        subst
          (λ (k : Hub).
            (g'.hub ≡ after_hub sid p f m (record k { pump = rest }))
            × Serves g' i sid p (after_map p f m (record k { pump = rest }) N))
          is_hub a in
      (a'.0 ∙ rw live refl, Serves-map g' i sid p _ _ (λ j. ground (arith, others j)) a'.1)

  -- A first message makes a new FSM.
  pub Stage-start :
      (g : Manager) (h : Hub) (m : CMsg) (f : Cfsm) (s : Serves g i sid p M)
      → g.hub ≡ h
      → h.pump ≡ m ∷ []
      → m.service_id ≡ sid
      → M m.fsm_id ≡ none
      → m.type ≡ msg_init
      → s.fac.next_fsm_id + 1 < u32_mod
      → length s.fac.fsm_list < fsm_num_in_fac
      → s.fac.class.create_fsm ≡ some f
      → let r = outcome p (fresh s.fac f) m (record h { pump = [] }) in
        has_ended r.0 ≡ false
        → r.0.fsm_id ≡ s.fac.next_fsm_id
        → Stage i sid p M (pump_once g).0 r.1 r.0
  Stage-start g h m f s is_hub e to unknown first counter room made live same =
      settle g (pump_once g).0 h M (fresh s.fac f) m [] is_hub
        (begin g i sid p M m [] f s (ap (λ (x : Hub). x.pump) is_hub ∙ e) to unknown first counter
          room made)
        (λ j _. refl) live same

  -- A message to the FSM, after which it goes on.
  pub Stage-next :
      (g : Manager) (h : Hub) (m : CMsg) (f : Cfsm)
      → Stage i sid p M g h f
      → h.pump ≡ m ∷ []
      → m.service_id ≡ sid
      → m.fsm_id ≡ f.fsm_id
      → f.has_factory ≡ true
      → let r = outcome p f m (record h { pump = [] }) in
        has_ended r.0 ≡ false → r.0.fsm_id ≡ f.fsm_id → Stage i sid p M (pump_once g).0 r.1 r.0
  Stage-next g h m f (is_hub, s) e to mine linked live same =
      settle g (pump_once g).0 h (with_fsm f M) f m [] is_hub
        (advance g i sid p (with_fsm f M) m [] f s (ap (λ (x : Hub). x.pump) is_hub ∙ e) to
          (ground arith) linked)
        (λ j other. ground arith) live same

  -- A message to the FSM, with which it ends: it is gone, and the manager is told.
  pub Stage-end :
      (g : Manager) (h : Hub) (m : CMsg) (f : Cfsm)
      → Stage i sid p M g h f
      → h.pump ≡ m ∷ []
      → m.service_id ≡ sid
      → m.fsm_id ≡ f.fsm_id
      → f.has_factory ≡ true
      → M f.fsm_id ≡ none
      → has_ended (outcome p f m (record h { pump = [] })).0 ≡ true
      → ((pump_once g).0.hub ≡ after_hub sid p f m (record h { pump = [] }))
        × Serves (pump_once g).0 i sid p M
  Stage-end g h m f (is_hub, s) e to mine linked gone dead =
      let a =
        advance g i sid p (with_fsm f M) m [] f s (ap (λ (x : Hub). x.pump) is_hub ∙ e) to
          (ground arith) linked in
      let a' =
        subst
          (λ (k : Hub).
            ((pump_once g).0.hub ≡ after_hub sid p f m (record k { pump = [] }))
            × Serves (pump_once g).0 i sid p
                (after_map p f m (record k { pump = [] }) (with_fsm f M)))
          is_hub a in
      (a'.0, Serves-map (pump_once g).0 i sid p _ _ (λ j. ground arith) a'.1)

  -- A step that changes the hub alone.
  pub Stage-hub :
      (g : Manager) (h : Hub) (f : Cfsm) (k : Hub → Hub)
      → Stage i sid p M g h f
      → Stage i sid p M (with_hub (k g.hub) g) (k h) f
  Stage-hub g h f k (is_hub, s) =
      (ap k is_hub, Serves-with_hub g (k g.hub) i sid p (with_fsm f M) s)
