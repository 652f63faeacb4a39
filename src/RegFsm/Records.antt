-- ===== src/RegFsm/Records.antt =====
-- The operations of reg_fsm/src/RegFsm.cpp that only log.
use fsm_framework.Base.{ℕ, Bool, List, codes}
use fsm_framework.Data.{EerrNo, CMsg}
use fsm_framework.Logger.Record.{Logger}
use fsm_framework.Fsm
use fsm_framework.Fsm.{Cfsm}
use fsm_framework.Fsm.Records.{At}

module _ (put_time : ℕ → List ℕ) where
  abbrev pub pre_prc_msg : At → Cfsm → CMsg → Logger → Logger
  pre_prc_msg a f m lg = Fsm.Records.pre_prc_msg put_time a f m lg

  abbrev pub post_prc_msg : At → Cfsm → CMsg → Logger → Logger
  post_prc_msg a f m lg = Fsm.Records.post_prc_msg put_time a f m lg

  abbrev pub destroy_fsm : At → Cfsm → Logger → Logger × EerrNo
  destroy_fsm a f lg = Fsm.Records.destroy_fsm put_time a f lg

  abbrev pub print_fsm : At → Bool → Cfsm → Logger → Logger
  print_fsm a detail_flag f lg = Fsm.Records.print_fsm put_time (codes "RegFsm") a detail_flag f lg
