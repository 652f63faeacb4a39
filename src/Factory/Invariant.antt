-- ===== src/Factory/Invariant.antt =====
-- What holds of a factory between two messages.
use fsm_framework.Base.{
  ℕ, ◌+◌, ◌≤◌, ◌<◌, ◌≡◌, refl, ◌≢◌, ◌∙◌, inl, inr, Bool, true, [], ◌∷◌, Option, none, some, arith,
  leb, length, length-append, length-set, get_elem?, set, Bool-cases, Option-cases,
}
use fsm_framework.Data.{u32_mod, fsm_num_in_fac, kill_fsm, EerrNo, msg_init, same_type, CMsg}
use fsm_framework.Pump.{Hub}
use native.Mathlib.Nat.{mod-eq_of_lt}
use native.Mathlib.Numerals.{add-one}
use fsm_framework.Fsm.{Cfsm, create, set_factory, set_fsm_id}
use fsm_framework.Factory.{
  FsmClass, Cfactory, add_fsm, enlist, reclaim, dispatch_at, dispatch_to_fsm, target_fsm, start_fsm,
  fac_msg_prc,
}
use fsm_framework.Factory.Pointers.{
  Ascending, Ascending-get_elem?, Ascending-append, Ascending-set, find_fsm-set,
  Ascending-erase_fsm, length-erase_fsm,
}

-- What the factory relies on of the FSM class: `CreateFsm` makes no FSM that has ended, and
-- `ProcessMsg` does not change which FSM it is, nor its owner.
pub record IsLawful (c : FsmClass) : Type 0 where
  pub created : (f : Cfsm) → c.create_fsm ≡ some f → f.state ≢ kill_fsm
  pub keeps_id :
      (b : Bool) (f : Cfsm) (m : CMsg) (h : Hub) → (c.process_msg b f m h).0.fsm_id ≡ f.fsm_id
  pub keeps_factory :
      (b : Bool) (f : Cfsm) (m : CMsg) (h : Hub)
      → (c.process_msg b f m h).0.has_factory ≡ f.has_factory

pub record IsValid (fac : Cfactory) : Type 0 where
  pub capped : length fac.fsm_list ≤ fsm_num_in_fac
  pub ids : Ascending 1 fac.next_fsm_id fac.fsm_list
  pub lawful : IsLawful fac.class

-- The state of the factory after the end of a dispatch to the FSM at index `i`.
reclaim-IsValid :
    (fac : Cfactory) (i : ℕ) (f f' : Cfsm) (m : CMsg) (ret : EerrNo) (h : Hub)
    → IsValid fac
    → get_elem? fac.fsm_list i ≡ some f
    → f'.fsm_id ≡ f.fsm_id
    → f'.has_factory ≡ true
    → IsValid (reclaim (record fac { fsm_list = set fac.fsm_list i f' }) f' m ret h).0
unfolding reclaim
reclaim-IsValid fac i f f' m ret h v e d o = record {
  capped = ground (
    arith,
    length-set fac.fsm_list i f',
    length-erase_fsm f'.fsm_id (set fac.fsm_list i f'),
    v.capped,
  );
  ids = ground (
    arith,
    find_fsm-set 1 fac.next_fsm_id i fac.fsm_list f f' v.ids,
    Ascending-set 1 fac.next_fsm_id i fac.fsm_list f f' v.ids,
    Ascending-erase_fsm 1 fac.next_fsm_id i fac.fsm_list f f' v.ids,
  );
  lawful = ground (arith, v.lawful);
}

dispatch_at-IsValid :
    (fac : Cfactory) (i : ℕ) (f : Cfsm) (m : CMsg) (h : Hub)
    → IsValid fac
    → get_elem? fac.fsm_list i ≡ some f
    → IsValid (dispatch_at fac i f m h).0
unfolding dispatch_at
dispatch_at-IsValid fac i f m h v e =
    let m' = record m { fsm_id = f.fsm_id } in
    let done = fac.class.process_msg fac.has_mgr f m' h in
    let at = Ascending-get_elem? 1 fac.next_fsm_id i fac.fsm_list f v.ids e in
    reclaim-IsValid fac i f done.0 m' done.2 done.1 v e (v.lawful.keeps_id fac.has_mgr f m' h)
      (v.lawful.keeps_factory fac.has_mgr f m' h ∙ at.2.1)

pub dispatch_to_fsm-IsValid :
    (fac : Cfactory) (p : Option ℕ) (m : CMsg) (h : Hub)
    → IsValid fac
    → IsValid (dispatch_to_fsm fac p m h).0
unfolding dispatch_to_fsm
dispatch_to_fsm-IsValid fac none m h v = v
dispatch_to_fsm-IsValid fac (some i) m h v = elim (Option-cases (get_elem? fac.fsm_list i)) [
  | inl e ↦ rw (e, dispatch_to_fsm) v
  | inr (f, e) ↦ rw (e, dispatch_to_fsm) (dispatch_at-IsValid fac i f m h v e)
]

enlist-IsValid :
    (fac : Cfactory) (o : Option Cfsm)
    → fac.class.create_fsm ≡ o
    → IsValid fac
    → fac.next_fsm_id + 1 < u32_mod
    → length fac.fsm_list < fsm_num_in_fac
    → IsValid (enlist fac o).0
enlist-IsValid fac none e v w room = v
enlist-IsValid fac (some f) e v w room =
    let f' = create (set_factory (set_fsm_id fac.next_fsm_id f)) in
    record {
      capped = omega (arith, length-append {0} fac.fsm_list (f' ∷ []));
      ids =
          rw (mod-eq_of_lt w, add-one)
            (Ascending-append 1 fac.next_fsm_id fac.fsm_list f' v.ids refl
              (v.lawful.created f e, refl));
      lawful = v.lawful;
    }

-- A new FSM gets the next id, which is not 0 and not in use as long as the counter does not wrap.
pub add_fsm-IsValid :
    (fac : Cfactory) → IsValid fac → fac.next_fsm_id + 1 < u32_mod → IsValid (add_fsm fac).0
unfolding add_fsm
add_fsm-IsValid fac v w = elim (Bool-cases (leb fsm_num_in_fac (length fac.fsm_list))) [
  | inl full ↦ rw full v
  | inr room ↦ rw room (enlist-IsValid fac fac.class.create_fsm refl v w (ground arith))
]

start_fsm-IsValid :
    (p : Cfactory × Option ℕ) (m : CMsg) (h : Hub) → IsValid p.0 → IsValid (start_fsm p m h).0
unfolding start_fsm
start_fsm-IsValid (fac, none) m h v = v
start_fsm-IsValid (fac, some i) m h v = dispatch_to_fsm-IsValid fac (some i) m h v

-- A message keeps a valid factory valid, if the counter of its ids does not wrap at the next one.
pub fac_msg_prc-IsValid :
    (fac : Cfactory) (m : CMsg) (h : Hub)
    → IsValid fac
    → fac.next_fsm_id + 1 < u32_mod
    → IsValid (fac_msg_prc fac m h).0
unfolding fac_msg_prc
fac_msg_prc-IsValid fac m h v w = elim (Option-cases (target_fsm fac m)) [
  | inl e ↦
      rw (e, fac_msg_prc)
        (elim (Bool-cases (same_type msg_init m.type)) [
          | inl first ↦ rw first (start_fsm-IsValid (add_fsm fac) m h (add_fsm-IsValid fac v w))
          | inr other ↦ rw other v
        ])
  | inr (i, e) ↦ rw (e, fac_msg_prc) (dispatch_to_fsm-IsValid fac (some i) m h v)
]
