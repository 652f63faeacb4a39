-- ===== src/Examples/Pieces.antt =====
-- The search of the registration table, and the deferred messages of an FSM.
use fsm_framework.Base.{◌≡◌, refl, List, [], ◌∷◌}
use fsm_framework.Data.{working, msg_resp, CMsg, default_msg}
use fsm_framework.Fsm.{new_fsm}
use fsm_framework.Fsm.Deferred.{save_all, hold_all, pop_saved_times, pop_held_times, deferred_fifo}
use fsm_framework.Executor.{find_fsm_transition}
use fsm_framework.Executor.Find.{FindsFirst, find_fsm_transition_first}
use fsm_framework.RegFsm.{transitions}

find_fsm_transition_first_example :
    FindsFirst transitions working msg_resp (find_fsm_transition transitions 6 working msg_resp)
find_fsm_transition_first_example = find_fsm_transition_first transitions working msg_resp

abbrev saved_msgs : List CMsg
saved_msgs = default_msg ∷ record default_msg { session_id = 1 } ∷ []

abbrev held_msgs : List CMsg
held_msgs = record default_msg { session_id = 2 } ∷ []

deferred_fifo_example :
    let f = new_fsm working in
    let g = hold_all held_msgs (save_all saved_msgs f) in
    (pop_saved_times 2 g ≡ (hold_all held_msgs f, saved_msgs))
    × (pop_held_times 1 g ≡ (save_all saved_msgs f, held_msgs))
deferred_fifo_example = deferred_fifo saved_msgs held_msgs (new_fsm working) refl refl
