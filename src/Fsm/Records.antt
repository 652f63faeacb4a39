-- ===== src/Fsm/Records.antt =====
-- The operations of reg_fsm/src/Cfsm.cpp, reg_fsm/src/RegFsm.cpp and reg_fsm/src/AuthFsm.cpp that only log, with what they
-- write to the logger of reg_fsm/src/Logger.cpp. `At` is where and when a record is made: the time, the thread, the file
-- and the line. A number is printed in decimal, a `bool` as 1 or 0.
use fsm_framework.Base.{
  ℕ, suc, ◌/◌, ◌≡◌, refl, ◌⊎◌, Bool, true, false, List, [], ◌∷◌, ◌++◌, if◌then◌else◌, codes, All,
}
use fsm_framework.Data.{
  Tstate, idle, working, kill_fsm, EerrNo, success, MsgType, msg_init, msg_connect, msg_req,
  msg_resp, msg_timeout, msg_close, CMsg,
}
use fsm_framework.Logger.{LogLevel, debug, info, is_enabled, state_to_string, msg_type_to_string}
use fsm_framework.Logger.Record.{Logger, print, chain, log, log_debug, log_info}
use fsm_framework.Logger.Decimal.{print_loop-IsDigit}
use fsm_framework.Logger.Lines.{IsLine, is_line_lem, digits-IsLine, chain-IsLine, log-IsLine}
use fsm_framework.Fsm.{Cfsm}

abbrev pub get_state : Cfsm → Tstate
get_state f = f.state

abbrev pub get_fsm_id : Cfsm → ℕ
get_fsm_id f = f.fsm_id

pub record At : Type 0 where
  pub now : ℕ
  pub thread : List ℕ
  pub file : List ℕ
  pub line : ℕ

-- The text of a record that names an FSM, its state and an event.
abbrev event_parts : List ℕ → Cfsm → CMsg → List (List ℕ)
event_parts what f m =
    what
    ∷ codes " fsmId="
    ∷ print f.fsm_id
    ∷ codes " state="
    ∷ codes (state_to_string f.state)
    ∷ codes " event="
    ∷ codes (msg_type_to_string m.type)
    ∷ []

abbrev fsm_event : List ℕ → Cfsm → CMsg → List ℕ
fsm_event what f m = chain (event_parts what f m)

module _ (put_time : ℕ → List ℕ) where
  -- The macros at a place.
  abbrev pub debug_at : At → List ℕ → List ℕ → Logger → Logger
  debug_at a name message lg = log_debug put_time lg a.now a.thread name a.file a.line message

  abbrev pub info_at : At → List ℕ → List ℕ → Logger → Logger
  info_at a name message lg = log_info put_time lg a.now a.thread name a.file a.line message

  unfoldable pub pre_prc_msg : At → Cfsm → CMsg → Logger → Logger
  unfolding log
  pre_prc_msg a f m lg = debug_at a (codes "Cfsm") (fsm_event (codes "PrePrcMsg") f m) lg

  -- `ProcessMsg` of the base, with its record.
  unfoldable pub base_process_msg_record : At → Cfsm → CMsg → Logger → Logger × EerrNo
  unfolding log
  base_process_msg_record a f m lg =
      (debug_at a (codes "Cfsm") (fsm_event (codes "ProcessMsg") f m) lg, success)

  unfoldable pub post_prc_msg : At → Cfsm → CMsg → Logger → Logger
  unfolding log
  post_prc_msg a f m lg = debug_at a (codes "Cfsm") (fsm_event (codes "PostPrcMsg") f m) lg

  unfoldable pub destroy_fsm : At → Cfsm → Logger → Logger × EerrNo
  unfolding log
  destroy_fsm a f lg = (
    debug_at a (codes "Cfsm")
        (chain (
          codes "Destroy fsmId="
          ∷ print f.fsm_id
          ∷ codes " state="
          ∷ codes (state_to_string f.state)
          ∷ []))
        lg,
    success,
  )

  -- `Print` of the base does nothing.
  abbrev pub base_print : Bool → Cfsm → Logger → Logger
  base_print detail_flag f lg = lg

  -- `Print` of the class with this name, `RegFsm` or `AuthFsm`.
  unfoldable pub print_fsm : List ℕ → At → Bool → Cfsm → Logger → Logger
  unfolding log
  print_fsm name a detail_flag f lg =
      info_at a name
        (chain (
          codes "Print detailFlag="
          ∷ codes (if detail_flag then "1" else "0")
          ∷ codes " fsmId="
          ∷ print (get_fsm_id f)
          ∷ codes " state="
          ∷ codes (state_to_string (get_state f))
          ∷ []))
        lg

-- The texts that a record takes from where it is made have no end of a line.
abbrev pub IsPlain : (ℕ → List ℕ) → At → Type 0
IsPlain put_time a = IsLine (put_time (a.now / 1000)) × IsLine a.thread × IsLine a.file

-- The logger got one line, if it takes records of the level, and else nothing.
abbrev pub OneLine : LogLevel → Logger → Logger → Type 0
OneLine l lg lg' =
    ((is_enabled lg.level l ≡ false) × (lg' ≡ lg))
    ⊎ ((is_enabled lg.level l ≡ true)
        × (t : List ℕ) × IsLine t
        × (lg' ≡ record lg { output = lg.output ++ (t ++ b'\n' ∷ []) }))

state-IsLine : (s : Tstate) → IsLine (codes (state_to_string s))
state-IsLine idle = is_line_lem (codes (state_to_string idle)) refl
state-IsLine working = is_line_lem (codes (state_to_string working)) refl
state-IsLine kill_fsm = is_line_lem (codes (state_to_string kill_fsm)) refl

event-IsLine : (e : MsgType) → IsLine (codes (msg_type_to_string e))
event-IsLine msg_init = is_line_lem (codes (msg_type_to_string msg_init)) refl
event-IsLine msg_connect = is_line_lem (codes (msg_type_to_string msg_connect)) refl
event-IsLine msg_req = is_line_lem (codes (msg_type_to_string msg_req)) refl
event-IsLine msg_resp = is_line_lem (codes (msg_type_to_string msg_resp)) refl
event-IsLine msg_timeout = is_line_lem (codes (msg_type_to_string msg_timeout)) refl
event-IsLine msg_close = is_line_lem (codes (msg_type_to_string msg_close)) refl

print-IsLine : (n : ℕ) → IsLine (print n)
print-IsLine n = digits-IsLine (print n) (print_loop-IsDigit (suc n) n)

module _ (put_time : ℕ → List ℕ) (a : At) (plain : IsPlain put_time a) where
  -- A record whose name and message have no end of a line.
  logged-OneLine :
      (l : LogLevel) (name : List ℕ) (parts : List (List ℕ)) (lg : Logger)
      → IsLine name
      → All IsLine parts
      → OneLine l lg (log put_time lg a.now a.thread l name a.file a.line (chain parts))
  logged-OneLine l name parts lg n ps =
      log-IsLine put_time lg a.now a.thread l name a.file a.line (chain parts) plain.0 plain.1 n
        plain.2 (chain-IsLine parts ps)

  fsm_event-OneLine :
      (what : List ℕ) (f : Cfsm) (m : CMsg) (lg : Logger)
      → IsLine what
      → OneLine debug lg (debug_at put_time a (codes "Cfsm") (fsm_event what f m) lg)
  fsm_event-OneLine what f m lg w =
      logged-OneLine debug (codes "Cfsm") (event_parts what f m) lg
        (is_line_lem (codes "Cfsm") refl)
        (
          w,
          (
            is_line_lem (codes " fsmId=") refl,
            (
              print-IsLine f.fsm_id,
              (
                is_line_lem (codes " state=") refl,
                (
                  state-IsLine f.state,
                  (is_line_lem (codes " event=") refl, (event-IsLine m.type, tt)),
                ),
              ),
            ),
          ),
        )

  -- Each of the hooks of the base writes one line, if the logger takes records of the level DEBUG, and else nothing.
  pub hooks-OneLine :
      (f : Cfsm) (m : CMsg) (lg : Logger)
      → OneLine debug lg (pre_prc_msg put_time a f m lg)
        × OneLine debug lg (base_process_msg_record put_time a f m lg).0
        × OneLine debug lg (post_prc_msg put_time a f m lg)
  unfolding pre_prc_msg base_process_msg_record post_prc_msg
  hooks-OneLine f m lg = (
    fsm_event-OneLine (codes "PrePrcMsg") f m lg (is_line_lem (codes "PrePrcMsg") refl),
    fsm_event-OneLine (codes "ProcessMsg") f m lg (is_line_lem (codes "ProcessMsg") refl),
    fsm_event-OneLine (codes "PostPrcMsg") f m lg (is_line_lem (codes "PostPrcMsg") refl),
  )

  pub destroy_fsm-OneLine :
      (f : Cfsm) (lg : Logger) → OneLine debug lg (destroy_fsm put_time a f lg).0
  unfolding destroy_fsm
  destroy_fsm-OneLine f lg =
      logged-OneLine debug (codes "Cfsm")
        (codes "Destroy fsmId="
          ∷ print f.fsm_id
          ∷ codes " state="
          ∷ codes (state_to_string f.state)
          ∷ [])
        lg (is_line_lem (codes "Cfsm") refl)
        (
          is_line_lem (codes "Destroy fsmId=") refl,
          (print-IsLine f.fsm_id, (is_line_lem (codes " state=") refl, (state-IsLine f.state, tt))),
        )

  flag-IsLine : (b : Bool) → IsLine (codes (if b then "1" else "0"))
  flag-IsLine true = is_line_lem (codes "1") refl
  flag-IsLine false = is_line_lem (codes "0") refl

  -- `Print` of a class writes one line, if the logger takes records of the level INFO, and else nothing.
  pub print_fsm-OneLine :
      (name : List ℕ) (detail_flag : Bool) (f : Cfsm) (lg : Logger)
      → IsLine name
      → OneLine info lg (print_fsm put_time name a detail_flag f lg)
  unfolding print_fsm
  print_fsm-OneLine name detail_flag f lg n =
      logged-OneLine info name
        (codes "Print detailFlag="
          ∷ codes (if detail_flag then "1" else "0")
          ∷ codes " fsmId="
          ∷ print f.fsm_id
          ∷ codes " state="
          ∷ codes (state_to_string f.state)
          ∷ [])
        lg n
        (
          is_line_lem (codes "Print detailFlag=") refl,
          (
            flag-IsLine detail_flag,
            (
              is_line_lem (codes " fsmId=") refl,
              (
                print-IsLine f.fsm_id,
                (is_line_lem (codes " state=") refl, (state-IsLine f.state, tt)),
              ),
            ),
          ),
        )
