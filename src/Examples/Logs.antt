-- ===== src/Examples/Logs.antt =====
-- A warning of Cfactory.cpp in the log.
use fsm_framework.Base.{ℕ, ◌+◌, ◌≡◌, refl, ◌⊎◌, true, false, List, [], ◌∷◌, ◌++◌, codes}
use fsm_framework.Data.{working, idle}
use fsm_framework.Fsm.{new_fsm}
use fsm_framework.Fsm.Records.{At}
use fsm_framework.Factory.{Cfactory}
use fsm_framework.Factory.Drop.{Adds, drop_factory, drop_factory-Adds}
use fsm_framework.Services.{reg_factory}
use fsm_framework.Logger.{warn, debug, is_enabled}
use fsm_framework.Logger.Record.{Logger, new_logger, set_level, log, build_timestamp, print_loop}
use fsm_framework.Logger.Lines.{IsLine, is_line_lem, log-IsLine}

abbrev noon : ℕ → List ℕ
noon seconds = codes "12:00:00"

build_timestamp-noon : build_timestamp noon 43200007 ≡ codes "12:00:00.007"
unfolding print_loop
build_timestamp-noon = refl

log-IsLine_example :
    ((is_enabled new_logger.level warn ≡ false)
      × (log noon new_logger 43200007
            (codes "1")
            warn
            (codes "fac")
            (codes "src/Cfactory.cpp")
            99
            (codes "full")
          ≡ new_logger))
    ⊎ ((is_enabled new_logger.level warn ≡ true)
        × (t : List ℕ) × IsLine t
        × (log noon new_logger 43200007
              (codes "1")
              warn
              (codes "fac")
              (codes "src/Cfactory.cpp")
              99
              (codes "full")
            ≡ record new_logger { output = new_logger.output ++ (t ++ b'\n' ∷ []) }))
log-IsLine_example =
    log-IsLine noon new_logger 43200007 (codes "1") warn (codes "fac") (codes "src/Cfactory.cpp") 99
      (codes "full") (is_line_lem (codes "12:00:00") refl) (is_line_lem (codes "1") refl)
      (is_line_lem (codes "fac") refl) (is_line_lem (codes "src/Cfactory.cpp") refl)
      (is_line_lem (codes "full") refl)

-- Where the destructor logs.
abbrev place : ℕ → At
place k = record { now = 43200000 + k; thread = codes "1"; file = codes "src/Cfsm.cpp"; line = 133 }

abbrev two_left : Cfactory
two_left = record (reg_factory 1) { fsm_list = new_fsm working ∷ new_fsm idle ∷ [] }

abbrev verbose : Logger
verbose = set_level new_logger debug

drop_factory-Adds_example :
    ((drop_factory noon place two_left verbose).0.fsm_list ≡ [])
    × Adds 2 verbose (drop_factory noon place two_left verbose).1
drop_factory-Adds_example =
    drop_factory-Adds noon place
      (λ k. (
        is_line_lem (codes "12:00:00") refl,
        is_line_lem (codes "1") refl,
        is_line_lem (codes "src/Cfsm.cpp") refl,
      ))
      two_left verbose
