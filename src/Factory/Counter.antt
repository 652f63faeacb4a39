-- ===== src/Factory/Counter.antt =====
-- The counter of `AddFsm` of Cfactory.cpp when a message is handled.
use fsm_framework.Base.{
  ℕ, ◌+◌, ◌<◌, ◌≡◌, refl, ◌∙◌, inl, inr, Option, none, some, arith, length, get_elem?, Option-cases,
}
use fsm_framework.Data.{u32_mod, fsm_num_in_fac, CMsg, msg_init}
use fsm_framework.Pump.{Hub}
use fsm_framework.Fsm.{Cfsm}
use fsm_framework.Factory.{Cfactory, enlist, add_fsm, reclaim, dispatch_to_fsm, fac_msg_prc}
use fsm_framework.Factory.Invariant.{IsValid}
use fsm_framework.Factory.Frame.{lookup_fsm}
use fsm_framework.Factory.Refines.{known_target, target_fsm_unknown, fac_msg_prc_first}

-- A dispatch to an FSM leaves the counter.
dispatch_to_fsm-next_fsm_id :
    (fac : Cfactory) (p : Option ℕ) (m : CMsg) (h : Hub)
    → (dispatch_to_fsm fac p m h).0.next_fsm_id ≡ fac.next_fsm_id
unfolding dispatch_to_fsm reclaim
dispatch_to_fsm-next_fsm_id fac none m h = refl
dispatch_to_fsm-next_fsm_id fac (some i) m h = elim (Option-cases (get_elem? fac.fsm_list i)) [
  | inl e ↦ rw (e, dispatch_to_fsm) refl
  | inr (f, e) ↦ rw (e, dispatch_to_fsm) (ground arith)
]

pub existing-next_fsm_id :
    (fac : Cfactory) (f : Cfsm) (m : CMsg) (h : Hub)
    → IsValid fac
    → lookup_fsm m.fsm_id fac.fsm_list ≡ some f
    → (fac_msg_prc fac m h).0.next_fsm_id ≡ fac.next_fsm_id
unfolding fac_msg_prc
existing-next_fsm_id fac f m h v e =
    let (i, target, at) = known_target fac f m v e in
    rw (target, fac_msg_prc) (dispatch_to_fsm-next_fsm_id fac (some i) m h)

pub new-next_fsm_id :
    (fac : Cfactory) (f : Cfsm) (m : CMsg) (h : Hub)
    → fac.next_fsm_id + 1 < u32_mod
    → lookup_fsm m.fsm_id fac.fsm_list ≡ none
    → m.type ≡ msg_init
    → length fac.fsm_list < fsm_num_in_fac
    → fac.class.create_fsm ≡ some f
    → (fac_msg_prc fac m h).0.next_fsm_id ≡ fac.next_fsm_id + 1
new-next_fsm_id fac f m h w e first room made =
    let added : add_fsm fac ≡ enlist fac (some f) = unfold add_fsm in ground arith in
    rw (fac_msg_prc_first fac f m h (target_fsm_unknown fac m e) first added) (
      dispatch_to_fsm-next_fsm_id (enlist fac (some f)).0 (some (length fac.fsm_list)) m h
      ∙ omega arith)
