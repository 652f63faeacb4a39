-- ===== src/Manager/Window.antt =====
-- `PumpOnce` and `DispatchMsg` of reg_fsm/src/Cfactory_mgr.cpp up to the moment when `DispatchToFsm` of reg_fsm/src/Cfactory.cpp has told
-- of the end of an FSM and not yet called `KillFsm`, which does not change the hub.
use fsm_framework.Base.{
  ℕ, ◌+◌, ◌<◌, ◌≡◌, refl, sym, ◌∙◌, inl, inr, ◌==◌, List, [], ◌∷◌, none, some, arith, get_elem?,
  get_elem?-set, get_elem?-set_other, set, All-get_elem?, Bool-cases, List-cases, Option-cases,
  some_same,
}
use fsm_framework.Data.{u32_mod, CMsg}
use fsm_framework.Factory.{Cfactory, fac_msg_prc}
use fsm_framework.Factory.Window.{fac_msg_tell, Clears, Clears-refl, fac_msg_tell-Clears}
use fsm_framework.Manager.{Manager, find_factory, dispatch_to, dispatch_msg, with_pump, pump_once}
use fsm_framework.System.{Reach}
use fsm_framework.System.Invariant.{IsSound, Inv, hub-Inv, Reach-Inv}

-- The factories then.
unfoldable pub dispatch_tell : Manager → CMsg → List Cfactory
unfolding find_factory
dispatch_tell g m = elim (find_factory m.service_id g.fac_list) [
  | none ↦ g.fac_list
  | some i ↦ elim (get_elem? g.fac_list i) [
    | none ↦ g.fac_list
    | some fac ↦ set g.fac_list i (fac_msg_tell fac m g.hub)
  ]
]

abbrev pub with_facs : List Cfactory → Manager → Manager
with_facs facs g = record g { fac_list = facs }

unfoldable pub pump_tell : Manager → Manager
unfolding dispatch_tell dispatch_msg
pump_tell g = elim g.hub.pump [
  | [] ↦ g
  | m ∷ rest ↦ with_facs (dispatch_tell (with_pump rest g) m) (dispatch_msg (with_pump rest g) m).0
]

-- Each factory of the second list is one of the first, but for FSMs that have ended.
abbrev pub AllClear : List Cfactory → List Cfactory → Type 0
AllClear before after =
    (i : ℕ) (fac : Cfactory)
    → get_elem? after i ≡ some fac
    → (old : Cfactory) × (get_elem? before i ≡ some old) × Clears old fac

AllClear-refl : (facs : List Cfactory) → AllClear facs facs
AllClear-refl facs i fac at = (fac, at, Clears-refl fac)

AllClear-set :
    (facs : List Cfactory) (k : ℕ) (old before after : Cfactory)
    → get_elem? facs k ≡ some old
    → Clears before after
    → AllClear (set facs k before) (set facs k after)
AllClear-set facs k old before after there c i fac at = elim (Bool-cases (i == k)) [
  | inl hit ↦
      let e : i ≡ k = ground arith in
      let now = rw e at at in
      let same : fac ≡ after = some_same (sym now ∙ get_elem?-set facs k old after there) in
      (before, rw e (get_elem?-set facs k old before there), rw same c)
  | inr miss ↦
      let other = get_elem?-set_other facs i k before (λ e. ground arith) in
      let other' = get_elem?-set_other facs i k after (λ e. ground arith) in
      (fac, other ∙ sym other' ∙ at, Clears-refl fac)
]

dispatch_tell-AllClear :
    (n : ℕ) (g : Manager) (m : CMsg)
    → Inv n g
    → n + 2 < u32_mod
    → AllClear (dispatch_tell g m) (dispatch_msg g m).0.fac_list
unfolding dispatch_tell dispatch_msg dispatch_to
dispatch_tell-AllClear n g m v b = elim (Option-cases (find_factory m.service_id g.fac_list)) [
  | inl e ↦ rw (e, dispatch_msg, dispatch_tell) (AllClear-refl g.fac_list)
  | inr (i, e) ↦ elim (Option-cases (get_elem? g.fac_list i)) [
    | inl e' ↦ rw (e, dispatch_msg, dispatch_tell) (rw e' (AllClear-refl g.fac_list))
    | inr (fac, e') ↦
        let s = All-get_elem? (IsSound n) g.fac_list i fac v.sound e' in
        rw (e, dispatch_msg, dispatch_tell)
          (rw e' (
            AllClear-set g.fac_list i fac (fac_msg_tell fac m g.hub) (fac_msg_prc fac m g.hub).0 e'
              (fac_msg_tell-Clears fac m g.hub s.valid (omega (arith, s.counted)))))
  ]
]

pub pump_tell-with_facs :
    (g : Manager) → pump_tell g ≡ with_facs (pump_tell g).fac_list (pump_once g).0
unfolding pump_tell pump_once
pump_tell-with_facs g = elim (List-cases g.hub.pump) [
  | inl e ↦ rw (e, pump_tell, pump_once) refl
  | inr (m, rest, e) ↦ rw (e, pump_tell, pump_once) refl
]

-- What the worker still does then to the factories is to take out an FSM that has ended.
pub pump_tell-AllClear :
    (n : ℕ) (g : Manager)
    → Reach n g
    → n + 2 < u32_mod
    → AllClear (pump_tell g).fac_list (pump_once g).0.fac_list
unfolding pump_tell pump_once
pump_tell-AllClear n g r b = elim (List-cases g.hub.pump) [
  | inl e ↦ rw (e, pump_tell, pump_once) (AllClear-refl g.fac_list)
  | inr (m, rest, e) ↦
      let v = Reach-Inv r (omega (arith, b)) in
      let h = hub-Inv n g (record (g.hub) { pump = rest }) v.on_time v in
      rw (e, pump_tell, pump_once) (dispatch_tell-AllClear n (with_pump rest g) m h b)
]
