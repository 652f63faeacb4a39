-- ===== src/Factory.antt =====
-- reg_fsm/src/Cfactory.cpp and reg_fsm/inc/Cfactory.h: the factory that owns FSMs of one class. A
-- pointer to an FSM is its index in `_fsm_list`, null is `none`. The list holds no null pointer,
-- since `AddFsm` returns before the `push_back` of one. The FSM class is the record `FsmClass`:
-- what `CreateFsm` makes (`none` is null) and its `ProcessMsg`. One worker thread handles
-- messages, so no other thread changes the list while a message is handled; debug logging is left
-- out.
pub mod Pointers
pub mod Invariant
pub mod Frame
pub mod Refines
pub mod Wrap
pub mod Work
pub mod Effects
pub mod Counter
pub mod Drop
pub mod Window
use fsm_framework.Base.{
  ℕ, zero, suc, ◌+◌, ◌==◌, leb, Bool, true, false, not, List, [], ◌∷◌, ◌++◌, Option, none, some,
  if◌then◌else◌, length, get_elem?, set,
}
use fsm_framework.Data.{
  u32, fsm_num_in_fac, kill_fsm, EerrNo, success, error, invalid_msg, msg_init, CMsg, same_state,
  same_type,
}
use fsm_framework.Pump.{Hub, FsmCompletionEvent, notify_fsm_completed}
use fsm_framework.Fsm.{Cfsm, set_fsm_id, set_factory, create}

pub record FsmClass : Type 0 where
  pub create_fsm : Option Cfsm
  pub process_msg : Bool → Cfsm → CMsg → Hub → Cfsm × Hub × EerrNo

pub record Cfactory : Type 0 where
  pub fac_id : ℕ
  pub has_mgr : Bool
  pub next_fsm_id : ℕ
  pub fsm_list : List Cfsm
  pub class : FsmClass

abbrev pub new_factory : FsmClass → ℕ → Cfactory
new_factory c id = record {
  fac_id = id;
  has_mgr = false;
  next_fsm_id = 1;
  fsm_list = [];
  class = c;
}

abbrev pub set_fac_mgr : Cfactory → Cfactory
set_fac_mgr fac = record fac { has_mgr = true }

-- The first FSM with the id.
unfoldable pub find_fsm : ℕ → List Cfsm → Option ℕ
find_fsm id [] = none
find_fsm id (f ∷ fs) =
    let rest = find_fsm id fs in
    if f.fsm_id == id then some 0 else elim rest [ none ↦ none | some i ↦ some (suc i) ]

abbrev pub enlist : Cfactory → Option Cfsm → Cfactory × Option ℕ
enlist fac none = (fac, none)
enlist fac (some f) = (
  record fac {
    next_fsm_id = u32 (fac.next_fsm_id + 1);
    fsm_list = fac.fsm_list ++ create (set_factory (set_fsm_id fac.next_fsm_id f)) ∷ [];
  },
  some (length fac.fsm_list),
)

unfoldable pub add_fsm : Cfactory → Cfactory × Option ℕ
add_fsm fac =
    if leb fsm_num_in_fac (length fac.fsm_list)
    then (fac, none)
    else enlist fac fac.class.create_fsm

-- The list without the first FSM with the id.
unfoldable pub erase_fsm : ℕ → List Cfsm → List Cfsm
erase_fsm id [] = []
erase_fsm id (f ∷ fs) = if f.fsm_id == id then fs else f ∷ erase_fsm id fs

unfoldable pub kill_fsm_by_id : Cfactory → ℕ → Cfactory × EerrNo
unfolding find_fsm erase_fsm
kill_fsm_by_id fac id = elim (find_fsm id fac.fsm_list) [
  | none ↦ (fac, error)
  | some _ ↦ (record fac { fsm_list = erase_fsm id fac.fsm_list }, success)
]

-- The end of `DispatchToFsm`: the FSM at the pointer is now `f`, and `ret` is what it returned. In the source the manager is
-- told before `KillFsm` takes the FSM out of the list; here both are one step, and module Window has the moment between.
unfoldable pub reclaim : Cfactory → Cfsm → CMsg → EerrNo → Hub → Cfactory × Hub × EerrNo
unfolding notify_fsm_completed kill_fsm_by_id
reclaim fac f m ret h =
    if same_state kill_fsm f.state
    then (let event : FsmCompletionEvent = record {
      service_id = fac.fac_id;
      fsm_id = f.fsm_id;
      session_id = m.session_id;
      result = ret;
      final_event = m.type;
    } in
        (
          (kill_fsm_by_id fac f.fsm_id).0,
          (if fac.has_mgr then notify_fsm_completed h event else h),
          ret,
        ))
    else (fac, h, ret)

-- `DispatchToFsm` on the FSM at index `i`, which is `f`.
unfoldable pub dispatch_at : Cfactory → ℕ → Cfsm → CMsg → Hub → Cfactory × Hub × EerrNo
unfolding reclaim
dispatch_at fac i f m h =
    let m' = record m { fsm_id = f.fsm_id } in
    let done = fac.class.process_msg fac.has_mgr f m' h in
    reclaim (record fac { fsm_list = set fac.fsm_list i done.0 }) done.0 m' done.2 done.1

unfoldable pub dispatch_to_fsm : Cfactory → Option ℕ → CMsg → Hub → Cfactory × Hub × EerrNo
unfolding dispatch_at
dispatch_to_fsm fac none m h = (fac, h, invalid_msg)
dispatch_to_fsm fac (some i) m h = elim (get_elem? fac.fsm_list i) [
  | none ↦ (fac, h, invalid_msg)
  | some f ↦ dispatch_at fac i f m h
]

-- The lookup of `FacMsgPrc`: id 0 names no FSM.
unfoldable pub target_fsm : Cfactory → CMsg → Option ℕ
unfolding find_fsm
target_fsm fac m = if m.fsm_id == 0 then none else find_fsm m.fsm_id fac.fsm_list

-- A new FSM, and the message dispatched to it.
unfoldable pub start_fsm : Cfactory × Option ℕ → CMsg → Hub → Cfactory × Hub × EerrNo
unfolding dispatch_to_fsm
start_fsm (fac, none) m h = (fac, h, error)
start_fsm (fac, some i) m h = dispatch_to_fsm fac (some i) m h

unfoldable pub fac_msg_prc : Cfactory → CMsg → Hub → Cfactory × Hub × EerrNo
unfolding target_fsm dispatch_to_fsm start_fsm add_fsm
fac_msg_prc fac m h = elim (target_fsm fac m) [
  | some i ↦ dispatch_to_fsm fac (some i) m h
  | none ↦
      if not (same_type msg_init m.type) then (fac, h, invalid_msg) else start_fsm (add_fsm fac) m h
]
