-- ===== src/Logger/Record.antt =====
-- `Log` of reg_fsm/src/Logger.cpp: what is written for a record. `std::cout` is the text that it got. The time zone and
-- `std::put_time` are a parameter: the text of `%H:%M:%S` for a number of seconds. So is the text of the thread's id.
use fsm_framework.Base.{
  ℕ, zero, suc, ◌+◌, ◌-◌, ◌/◌, ◌%◌, ◌==◌, ltb, not, List, [], ◌∷◌, ◌++◌, if◌then◌else◌, length,
  codes,
}
use fsm_framework.Logger.{
  LogLevel, debug, info, warn, err, level_int, is_enabled, log_level_to_string, base_file_name,
}

pub record Logger : Type 0 where
  pub level : LogLevel
  pub output : List ℕ

-- The logger of `Instance`.
abbrev pub new_logger : Logger
new_logger = record { level = info; output = [] }

abbrev pub set_level : Logger → LogLevel → Logger
set_level lg l = record lg { level = l }

abbrev pub get_level : Logger → LogLevel
get_level lg = lg.level

-- A number as `std::ostream` prints it, on fuel.
unfoldable pub print_loop : ℕ → ℕ → List ℕ
print_loop zero n = []
print_loop (suc k) n =
    let rest = print_loop k (n / 10) in
    if ltb n 10 then (b'0' + n) ∷ [] else rest ++ (b'0' + n % 10) ∷ []

abbrev pub print : ℕ → List ℕ
print n = print_loop (suc n) n

abbrev pub zeros : ℕ → List ℕ
zeros zero = []
zeros (suc n) = b'0' ∷ zeros n

-- `setfill('0')` and `setw`.
abbrev pub fill : ℕ → List ℕ → List ℕ
fill w t = zeros (w - length t) ++ t

-- What a chain of `<<` writes.
abbrev pub chain : List (List ℕ) → List ℕ
chain [] = []
chain (t ∷ ts) = t ++ chain ts

module _ (put_time : ℕ → List ℕ) where
  -- `now` is the system's time in milliseconds.
  abbrev pub build_timestamp : ℕ → List ℕ
  build_timestamp now = chain (put_time (now / 1000) ∷ codes "." ∷ fill 3 (print (now % 1000)) ∷ [])

  -- What follows the message of a record that is not informative.
  abbrev pub where_from : LogLevel → List ℕ → ℕ → List ℕ → List ℕ
  where_from l file line thread =
      if level_int info == level_int l
      then []
      else chain (
          codes " at="
          ∷ base_file_name file
          ∷ codes ":"
          ∷ print line
          ∷ codes " thread="
          ∷ thread
          ∷ [])

  -- A record without the end of its line.
  abbrev pub record_text : ℕ → List ℕ → LogLevel → List ℕ → List ℕ → ℕ → List ℕ → List ℕ
  record_text now thread l name file line message = chain (
      codes "["
      ∷ build_timestamp now
      ∷ codes "]"
      ∷ codes "["
      ∷ codes (log_level_to_string l)
      ∷ codes "]"
      ∷ codes "["
      ∷ name
      ∷ codes "] "
      ∷ message
      ∷ where_from l file line thread
      ∷ [])

  unfoldable pub log : Logger → ℕ → List ℕ → LogLevel → List ℕ → List ℕ → ℕ → List ℕ → Logger
  log lg now thread l name file line message =
      if not (is_enabled lg.level l) then lg else record lg {
        output =
            lg.output ++ chain (record_text now thread l name file line message ∷ codes "\n" ∷ []);
      }

  -- The macros, with the file and the line of their use.
  abbrev pub log_debug : Logger → ℕ → List ℕ → List ℕ → List ℕ → ℕ → List ℕ → Logger
  log_debug lg now thread name file line message = log lg now thread debug name file line message

  abbrev pub log_info : Logger → ℕ → List ℕ → List ℕ → List ℕ → ℕ → List ℕ → Logger
  log_info lg now thread name file line message = log lg now thread info name file line message

  abbrev pub log_warn : Logger → ℕ → List ℕ → List ℕ → List ℕ → ℕ → List ℕ → Logger
  log_warn lg now thread name file line message = log lg now thread warn name file line message

  abbrev pub log_error : Logger → ℕ → List ℕ → List ℕ → List ℕ → ℕ → List ℕ → Logger
  log_error lg now thread name file line message = log lg now thread err name file line message
