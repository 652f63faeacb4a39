-- ===== src/Examples/Options.antt =====
-- A command line of reg_fsm/main.cpp, and a file name of its log.
use fsm_framework.Base.{ℕ, Bool, true, List, [], ◌∷◌, arith, codes}
use fsm_framework.Options.{default_options, parse_args}
use fsm_framework.Options.Bounds.{AllInRange, parse_args-InRange}

-- A `strtoul` that reads every text as 9000.
abbrev always_9000 : List ℕ → ℕ × Bool
always_9000 t = (9000, true)

parse_args-InRange_example :
    AllInRange
      (parse_args always_9000 (codes "--port=9000" ∷ codes "--log-level=off" ∷ []) default_options)
parse_args-InRange_example =
    parse_args-InRange always_9000 (codes "--port=9000" ∷ codes "--log-level=off" ∷ [])
      default_options (omega arith, omega arith, omega arith, omega arith)
