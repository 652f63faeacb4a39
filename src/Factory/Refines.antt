-- ===== src/Factory/Refines.antt =====
-- What `Cfactory::FacMsgPrc` does, on each of its branches, to the map from ids to FSMs.
use fsm_framework.Base.{
  ℕ, ◌+◌, ◌≤◌, ◌<◌, ◌≡◌, refl, ap, ◌≢◌, ◌⊎◌, true, none, some, arith, length, get_elem?,
  get_elem?-append_length,
}
use fsm_framework.Data.{u32_mod, fsm_num_in_fac, error, invalid_msg, msg_init, CMsg, same_type}
use fsm_framework.Pump.{Hub}
use fsm_framework.Fsm.{Cfsm, create, set_factory, set_fsm_id}
use fsm_framework.Factory.{
  Cfactory, enlist, add_fsm, dispatch_to_fsm, target_fsm, start_fsm, fac_msg_prc,
}
use fsm_framework.Factory.Pointers.{Ascending-get_elem?}
use fsm_framework.Factory.Invariant.{IsValid, add_fsm-IsValid, dispatch_to_fsm-IsValid}
use fsm_framework.Factory.Frame.{
  lookup_fsm, lookup_fsm-append, lookup_fsm-find_fsm, lookup_fsm-none, Handled,
  dispatch_to_fsm-Handled,
}

-- The pointer that a known id leads to.
pub known_target :
    (fac : Cfactory) (f : Cfsm) (m : CMsg)
    → IsValid fac
    → lookup_fsm m.fsm_id fac.fsm_list ≡ some f
    → (i : ℕ) × (target_fsm fac m ≡ some i) × (get_elem? fac.fsm_list i ≡ some f)
unfolding target_fsm
known_target fac f m v e =
    let (i, found, at, same) = lookup_fsm-find_fsm m.fsm_id fac.fsm_list f e in
    let bounds = Ascending-get_elem? 1 fac.next_fsm_id i fac.fsm_list f v.ids at in
    (i, ground (arith, found, same, bounds), at)

-- In a valid factory, a message whose id names an FSM is handled by that FSM: no other FSM
-- changes, that one is replaced by what `ProcessMsg` left of it, or dropped if it ended, and then
-- the manager is told.
pub fac_msg_prc_existing :
    (fac : Cfactory) (f : Cfsm) (m : CMsg) (h : Hub)
    → IsValid fac
    → lookup_fsm m.fsm_id fac.fsm_list ≡ some f
    → Handled fac f m h (fac_msg_prc fac m h)
unfolding fac_msg_prc
fac_msg_prc_existing fac f m h v e =
    let (i, target, at) = known_target fac f m v e in
    rw (target, fac_msg_prc) (dispatch_to_fsm-Handled fac i f m h v at)

-- Then the factory stays valid, also when its counter is about to wrap.
pub fac_msg_prc_existing-IsValid :
    (fac : Cfactory) (f : Cfsm) (m : CMsg) (h : Hub)
    → IsValid fac
    → lookup_fsm m.fsm_id fac.fsm_list ≡ some f
    → IsValid (fac_msg_prc fac m h).0
unfolding fac_msg_prc
fac_msg_prc_existing-IsValid fac f m h v e =
    let (i, target, at) = known_target fac f m v e in
    rw (target, fac_msg_prc) (dispatch_to_fsm-IsValid fac (some i) m h v)

pub target_fsm_unknown :
    (fac : Cfactory) (m : CMsg) → lookup_fsm m.fsm_id fac.fsm_list ≡ none → target_fsm fac m ≡ none
unfolding target_fsm
target_fsm_unknown fac m e = ground (arith, lookup_fsm-none m.fsm_id fac.fsm_list e)

-- The FSM that `AddFsm` would make of what `CreateFsm` returns.
abbrev pub fresh : Cfactory → Cfsm → Cfsm
fresh fac f = create (set_factory (set_fsm_id fac.next_fsm_id f))

start_new-Handled :
    (fac : Cfactory) (f : Cfsm) (m : CMsg) (h : Hub)
    → IsValid fac
    → IsValid (enlist fac (some f)).0
    → Handled fac
        (fresh fac f)
        m
        h
        (dispatch_to_fsm (enlist fac (some f)).0 (some (length fac.fsm_list)) m h)
start_new-Handled fac f m h v v' =
    let r =
      dispatch_to_fsm-Handled (enlist fac (some f)).0 (length fac.fsm_list) (fresh fac f) m h v'
        (get_elem?-append_length fac.fsm_list (fresh fac f)) in
    (
      λ j. ground (
        arith,
        r.0 j,
        lookup_fsm-append 1 fac.next_fsm_id j fac.fsm_list (fresh fac f) v.ids refl,
      ),
      r.1,
      r.2,
    )

pub fac_msg_prc_first :
    (fac : Cfactory) (f : Cfsm) (m : CMsg) (h : Hub)
    → target_fsm fac m ≡ none
    → m.type ≡ msg_init
    → add_fsm fac ≡ enlist fac (some f)
    → fac_msg_prc fac m h ≡ dispatch_to_fsm (enlist fac (some f)).0 (some (length fac.fsm_list)) m h
unfolding fac_msg_prc
fac_msg_prc_first fac f m h unknown first added =
    let init : same_type msg_init m.type ≡ true = rw first in
    rw (unknown, fac_msg_prc) (rw init (ap (λ p. start_fsm p m h) added))

-- In a valid factory, a first message that names no FSM is handled by a new FSM, whose id is the
-- counter's value; no other FSM changes. This needs room, an FSM from `CreateFsm`, and a counter
-- that does not wrap.
pub fac_msg_prc_new :
    (fac : Cfactory) (f : Cfsm) (m : CMsg) (h : Hub)
    → IsValid fac
    → fac.next_fsm_id + 1 < u32_mod
    → lookup_fsm m.fsm_id fac.fsm_list ≡ none
    → m.type ≡ msg_init
    → length fac.fsm_list < fsm_num_in_fac
    → fac.class.create_fsm ≡ some f
    → Handled fac (fresh fac f) m h (fac_msg_prc fac m h)
fac_msg_prc_new fac f m h v w e first room made =
    let added : add_fsm fac ≡ enlist fac (some f) = unfold add_fsm in ground arith in
    let kept : IsValid (enlist fac (some f)).0 = rw added at (add_fsm-IsValid fac v w) in
    rw (fac_msg_prc_first fac f m h (target_fsm_unknown fac m e) first added)
      (start_new-Handled fac f m h v kept)

-- A message that names no FSM of the factory and is not a first message is refused with
-- `INVALID_MSG`; nothing changes.
pub fac_msg_prc_unknown :
    (fac : Cfactory) (m : CMsg) (h : Hub)
    → lookup_fsm m.fsm_id fac.fsm_list ≡ none
    → m.type ≢ msg_init
    → fac_msg_prc fac m h ≡ (fac, h, invalid_msg)
unfolding fac_msg_prc
fac_msg_prc_unknown fac m h e other = ground (arith, target_fsm_unknown fac m e)

-- A first message that names no FSM of the factory is refused with `ERROR` if the factory is full
-- or gets no FSM from `CreateFsm`; nothing changes.
pub fac_msg_prc_full :
    (fac : Cfactory) (m : CMsg) (h : Hub)
    → lookup_fsm m.fsm_id fac.fsm_list ≡ none
    → m.type ≡ msg_init
    → (fsm_num_in_fac ≤ length fac.fsm_list) ⊎ (fac.class.create_fsm ≡ none)
    → fac_msg_prc fac m h ≡ (fac, h, error)
unfolding fac_msg_prc
fac_msg_prc_full fac m h e first no_room = ground (arith, target_fsm_unknown fac m e)
