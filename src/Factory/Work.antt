-- ===== src/Factory/Work.antt =====
-- A message that a factory handles causes less work than it was.
use fsm_framework.Base.{
  ℕ, ◌+◌, ◌<◌, ◌≡◌, refl, ◌∙◌, inl, inr, Option, none, some, arith, get_elem?, set, Bool-cases,
  Option-cases,
}
use fsm_framework.Data.{EerrNo, CMsg, msg_init, same_type}
use fsm_framework.Pump.{Hub}
use fsm_framework.Fsm.{Cfsm}
use fsm_framework.Flow.{Plan, Follows}
use fsm_framework.Flow.Laws.{rank, rank_pos, Descends, work, Follows-work, Follows-stopped}
use fsm_framework.Factory.{
  FsmClass, Cfactory, add_fsm, reclaim, dispatch_to_fsm, target_fsm, start_fsm, fac_msg_prc,
}

-- The class follows a plan, under which each event leads to less work.
abbrev pub Planned : FsmClass → Type 0
Planned c = (p : Plan) × Follows c p × Descends p

-- What a step of handling leaves: less work, the class, and the stop flag.
abbrev pub Handles : ℕ → Cfactory → Hub → Cfactory × Hub × EerrNo → Type 0
Handles n fac h (fac', h', ret) =
    (work h' < n) × (fac'.class ≡ fac.class) × (h'.stopped ≡ h.stopped)

reclaim-work :
    (fac : Cfactory) (f : Cfsm) (m : CMsg) (ret : EerrNo) (h : Hub)
    → (work (reclaim fac f m ret h).1 ≡ work h) × ((reclaim fac f m ret h).1.stopped ≡ h.stopped)
unfolding reclaim
reclaim-work fac f m ret h = ground arith

-- The class of a factory never changes.
reclaim-class :
    (fac : Cfactory) (f : Cfsm) (m : CMsg) (ret : EerrNo) (h : Hub)
    → (reclaim fac f m ret h).0.class ≡ fac.class
unfolding reclaim
reclaim-class fac f m ret h = ground arith

dispatch_to_fsm-work :
    (fac : Cfactory) (p : Option ℕ) (m : CMsg) (h : Hub)
    → Planned fac.class
    → Handles (work h + rank m.type) fac h (dispatch_to_fsm fac p m h)
unfolding dispatch_to_fsm
dispatch_to_fsm-work fac none m h w = (omega (arith, rank_pos m.type), refl, refl)
dispatch_to_fsm-work fac (some i) m h (p, w, d) = elim (Option-cases (get_elem? fac.fsm_list i)) [
  | inl e ↦ rw (e, dispatch_to_fsm) (omega (arith, rank_pos m.type), refl, refl)
  | inr (f, e) ↦
      let m' = record m { fsm_id = f.fsm_id } in
      let done = fac.class.process_msg fac.has_mgr f m' h in
      let fac' = record fac { fsm_list = set fac.fsm_list i done.0 } in
      rw (e, dispatch_to_fsm)
        (
          rw (reclaim-work fac' done.0 m' done.2 done.1).0
              (Follows-work fac.class p w d fac.has_mgr f m' h),
          reclaim-class fac' done.0 m' done.2 done.1,
          (reclaim-work fac' done.0 m' done.2 done.1).1
              ∙ Follows-stopped fac.class p w fac.has_mgr f m' h,
        )
]

add_fsm-class : (fac : Cfactory) → (add_fsm fac).0.class ≡ fac.class
unfolding add_fsm
add_fsm-class fac = ground arith

start_fsm-work :
    (p : Cfactory × Option ℕ) (m : CMsg) (h : Hub)
    → Planned p.0.class
    → Handles (work h + rank m.type) p.0 h (start_fsm p m h)
unfolding start_fsm
start_fsm-work (fac, none) m h w = (omega (arith, rank_pos m.type), refl, refl)
start_fsm-work (fac, some i) m h w = dispatch_to_fsm-work fac (some i) m h w

-- On every branch.
pub fac_msg_prc-work :
    (fac : Cfactory) (m : CMsg) (h : Hub)
    → Planned fac.class
    → Handles (work h + rank m.type) fac h (fac_msg_prc fac m h)
unfolding fac_msg_prc
fac_msg_prc-work fac m h w = elim (Option-cases (target_fsm fac m)) [
  | inr (i, e) ↦ rw (e, fac_msg_prc) (dispatch_to_fsm-work fac (some i) m h w)
  | inl e ↦
      rw (e, fac_msg_prc)
        (elim (Bool-cases (same_type msg_init m.type)) [
          | inr other ↦ rw other (omega (arith, rank_pos m.type), refl, refl)
          | inl first ↦
              let w' : Planned (add_fsm fac).0.class = rw (add_fsm-class fac) w in
              let r = start_fsm-work (add_fsm fac) m h w' in
              rw first (r.0, r.1 ∙ add_fsm-class fac, r.2)
        ])
]
