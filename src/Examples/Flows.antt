-- ===== src/Examples/Flows.antt =====
-- The flows on the manager that reg_fsm/main.cpp sets up, with a completion callback.
use fsm_framework.Base.{ℕ, refl, true, Option, none, arith}
use fsm_framework.Pump.{Hub, new_hub}
use fsm_framework.Fsm.{Cfsm}
use fsm_framework.Flow.{reg_plan, auth_plan}
use fsm_framework.Flow.Laws.{Follows-IsLawful}
use fsm_framework.Flow.Refinement.{reg_class-Follows, auth_class-Follows}
use fsm_framework.Factory.{set_fac_mgr}
use fsm_framework.Services.{service_manager, reg_class, auth_class, reg_factory, auth_factory}
use fsm_framework.Services.EndToEnd.{IsReady}
use fsm_framework.System.{with_hub}

abbrev pub listening : Hub
listening = record new_hub { has_callback = true }

abbrev pub no_fsm : ℕ → Option Cfsm
no_fsm j = none

abbrev pub reg_ready : IsReady (with_hub listening service_manager) listening 0 1 reg_plan no_fsm
unfolding service_manager
reg_ready = record {
  serves = record {
    fac = set_fac_mgr (reg_factory 1);
    distinct = (((λ e. omega arith), tt), (tt, tt));
    there = refl;
    routed = refl;
    valid = record {
      capped = omega arith;
      ids = omega arith;
      lawful = Follows-IsLawful reg_class reg_plan reg_class-Follows;
    };
    owned = refl;
    follows = reg_class-Follows;
    holds = λ j. refl;
  };
  is_quiet = refl;
  room = omega arith;
  counter = omega arith;
  made = refl;
}

abbrev pub auth_ready : IsReady (with_hub listening service_manager) listening 1 3 auth_plan no_fsm
unfolding service_manager
auth_ready = record {
  serves = record {
    fac = set_fac_mgr (auth_factory 3);
    distinct = (((λ e. omega arith), tt), (tt, tt));
    there = refl;
    routed = refl;
    valid = record {
      capped = omega arith;
      ids = omega arith;
      lawful = Follows-IsLawful auth_class auth_plan auth_class-Follows;
    };
    owned = refl;
    follows = auth_class-Follows;
    holds = λ j. refl;
  };
  is_quiet = refl;
  room = omega arith;
  counter = omega arith;
  made = refl;
}
