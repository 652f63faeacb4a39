-- ===== src/Services.antt =====
-- The two services: reg_fsm/src/RegFactory.cpp and reg_fsm/src/AuthFactory.cpp with the FSM
-- classes of modules RegFsm and AuthFsm, and the manager that reg_fsm/main.cpp sets up.
pub mod Stage
pub mod Flows
pub mod EndToEnd
use fsm_framework.Base.{ℕ, List, [], ◌∷◌, Option, none, some}
use fsm_framework.Data.{fac_reg_fac_id, fac_auth_fac_id, CMsg}
use fsm_framework.Factory.{FsmClass, Cfactory, new_factory}
use fsm_framework.Manager.{Manager, new_manager, register_factory, start}
use fsm_framework.RegFsm
use fsm_framework.AuthFsm

abbrev pub reg_class : FsmClass
reg_class = record { create_fsm = RegFsm.create_fsm; process_msg = RegFsm.process_msg }

abbrev pub auth_class : FsmClass
auth_class = record { create_fsm = AuthFsm.create_fsm; process_msg = AuthFsm.process_msg }

abbrev pub reg_factory : ℕ → Cfactory
reg_factory = new_factory reg_class

abbrev pub auth_factory : ℕ → Cfactory
auth_factory = new_factory auth_class

-- The manager when both factories are registered and the worker is started.
unfoldable pub service_manager : Manager
unfolding register_factory start
service_manager =
    (start
      (register_factory (register_factory new_manager (some (reg_factory fac_reg_fac_id))).0
        (some (auth_factory fac_auth_fac_id))).0).0
