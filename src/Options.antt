-- ===== src/Options.antt =====
-- The command line of reg_fsm/main.cpp. `argv` without the program's name is a list of texts.
-- `strtoul` is a parameter: its result, and whether it stopped at the end of the text. The usage
-- text is output.
pub mod Bounds
use fsm_framework.Base.{
  ℕ, zero, suc, ◌==◌, ltb, leb, Bool, true, false, not, ◌||◌, ◌&&◌, List, [], ◌∷◌, Option, none,
  some, if◌then◌else◌, codes, same_text, length,
}
use fsm_framework.Data.{u32_mod}
use fsm_framework.Logger.{LogLevel, debug, info, warn, err, off}

pub record HttpServerConfig : Type 0 where
  pub host : List ℕ
  pub port : ℕ
  pub sync_timeout_ms : ℕ

pub record ServiceOptions : Type 0 where
  pub http : HttpServerConfig
  pub log_level : LogLevel

abbrev pub default_options : ServiceOptions
default_options = record {
  http = record { host = codes "0.0.0.0"; port = 8080; sync_timeout_ms = 5000 };
  log_level = info;
}

-- `compare` of the start of the text with the prefix.
abbrev pub starts_with : List ℕ → List ℕ → Bool
starts_with value [] = true
starts_with [] (p ∷ ps) = false
starts_with (v ∷ vs) (p ∷ ps) = (v == p) && starts_with vs ps

-- `substr` from a position on.
abbrev pub substr : List ℕ → ℕ → List ℕ
substr t zero = t
substr [] (suc n) = []
substr (c ∷ cs) (suc n) = substr cs n

unfoldable pub parse_log_level : List ℕ → Option LogLevel
parse_log_level text =
    if same_text (codes "debug") text
    then some debug
    else if same_text (codes "info") text
    then some info
    else if same_text (codes "warn") text
    then some warn
    else if same_text (codes "error") text
    then some err
    else if same_text (codes "off") text
    then some off
    else none

module _ (strtoul : List ℕ → ℕ × Bool) where
  unfoldable pub parse_unsigned_int : List ℕ → Option ℕ
  parse_unsigned_int [] = none
  parse_unsigned_int (c ∷ cs) =
      let (parsed, at_end) = strtoul (c ∷ cs) in
      if not at_end || leb u32_mod parsed then none else some parsed

  abbrev pub set_port : ServiceOptions → Option ℕ → Option ServiceOptions
  set_port o none = none
  set_port o (some port) =
      if (port == 0) || ltb 65535 port
      then none
      else some (record o { http = record (o.http) { port = port } })

  abbrev pub set_timeout : ServiceOptions → Option ℕ → Option ServiceOptions
  set_timeout o none = none
  set_timeout o (some timeout) =
      if timeout == 0
      then none
      else some (record o { http = record (o.http) { sync_timeout_ms = timeout } })

  abbrev pub set_log_level : ServiceOptions → Option LogLevel → Option ServiceOptions
  set_log_level o none = none
  set_log_level o (some level) = some (record o { log_level = level })

  -- One round of the loop; `none` is the result false.
  unfoldable pub parse_arg : ServiceOptions → List ℕ → Option ServiceOptions
  unfolding parse_unsigned_int parse_log_level
  parse_arg o arg =
      if same_text (codes "--help") arg || same_text (codes "-h") arg
      then none
      else if starts_with arg (codes "--host=")
      then some (record o { http = record (o.http) { host = substr arg 7 } })
      else if starts_with arg (codes "--port=")
      then set_port o (parse_unsigned_int (substr arg 7))
      else if starts_with arg (codes "--log-level=")
      then set_log_level o (parse_log_level (substr arg 12))
      else if starts_with arg (codes "--sync-timeout-ms=")
      then set_timeout o (parse_unsigned_int (substr arg 18))
      else none

  unfoldable pub parse_args : List (List ℕ) → ServiceOptions → Option ServiceOptions
  unfolding parse_arg
  parse_args [] o = some o
  parse_args (arg ∷ args) o = elim (parse_arg o arg) [ none ↦ none | some o' ↦ parse_args args o' ]
