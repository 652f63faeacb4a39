-- ===== src/Manager/Routing.antt =====
-- Which factory a message reaches: `DispatchMsg` of Cfactory_mgr.cpp over a registry with distinct
-- ids.
use fsm_framework.Base.{ℕ, ◌≡◌, ◌⊎◌, inl, inr, some, arith, get_elem?, set, Option-cases}
use fsm_framework.Data.{invalid_msg, CMsg}
use fsm_framework.Factory.{Cfactory, fac_msg_prc}
use fsm_framework.Manager.{Manager, find_factory, dispatch_to, dispatch_msg}
use fsm_framework.Manager.Registry.{DistinctIds, find_factory_distinct}

-- Where the ids of the factories are distinct, a message reaches the factory registered under its
-- service id, which alone is replaced by what `FacMsgPrc` leaves of it; the hub and the result are
-- those of `FacMsgPrc`.
pub dispatch_msg_routes :
    (g : Manager) (i : ℕ) (fac : Cfactory) (m : CMsg)
    → DistinctIds g.fac_list
    → get_elem? g.fac_list i ≡ some fac
    → fac.fac_id ≡ m.service_id
    → dispatch_msg g m ≡ (
      record g {
        fac_list = set g.fac_list i (fac_msg_prc fac m g.hub).0;
        hub = (fac_msg_prc fac m g.hub).1;
      },
      (fac_msg_prc fac m g.hub).2,
    )
unfolding dispatch_msg
dispatch_msg_routes g i fac m d e s =
    let found : find_factory m.service_id g.fac_list ≡ some i =
      rw (← s) (find_factory_distinct i g.fac_list fac d e) in
    ground arith

-- The two ways of a message: nobody is registered for it, or one factory handles it.
pub dispatch_msg_cases :
    (g : Manager) (m : CMsg)
    → (dispatch_msg g m ≡ (g, invalid_msg))
      ⊎ ((i : ℕ) × (fac : Cfactory) × (get_elem? g.fac_list i ≡ some fac)
          × (dispatch_msg g m ≡ dispatch_to g i fac m))
unfolding dispatch_msg
dispatch_msg_cases g m = elim (Option-cases (find_factory m.service_id g.fac_list)) [
  | inl e ↦ inl (rw (e, dispatch_msg))
  | inr (i, e) ↦ elim (Option-cases (get_elem? g.fac_list i)) [
    | inl e' ↦ inl (rw (e, dispatch_msg) (rw e'))
    | inr (fac, e') ↦ inr (i, fac, e', rw (e, dispatch_msg) (rw e'))
  ]
]
