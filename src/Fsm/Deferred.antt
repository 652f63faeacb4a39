-- ===== src/Fsm/Deferred.antt =====
-- The deferred-message queues `_save` and `_hold` of Cfsm.cpp.
use fsm_framework.Base.{
  ℕ, zero, suc, ◌≡◌, refl, ◌∙◌, sym, ap, List, [], ◌∷◌, ◌++◌, Option, none, some, length,
}
use fsm_framework.Data.{CMsg}
use fsm_framework.Fsm.{Cfsm, save_msg, hold_msg, pop_saved_msg, pop_held_msg}
use mathlib.Core.List.{append_assoc, append-nil}

abbrev pub save_all : List CMsg → Cfsm → Cfsm
save_all [] f = f
save_all (m ∷ ms) f = save_all ms (save_msg f m)

abbrev pub hold_all : List CMsg → Cfsm → Cfsm
hold_all [] f = f
hold_all (m ∷ ms) f = hold_all ms (hold_msg f m)

abbrev pub collect : Option CMsg → List CMsg → List CMsg
collect none ms = ms
collect (some m) ms = m ∷ ms

-- The FSM and the messages after so many pops.
abbrev pub pop_saved_times : ℕ → Cfsm → Cfsm × List CMsg
pop_saved_times zero f = (f, [])
pop_saved_times (suc n) f =
    let (f', o) = pop_saved_msg f in let (f'', ms) = pop_saved_times n f' in (f'', collect o ms)

abbrev pub pop_held_times : ℕ → Cfsm → Cfsm × List CMsg
pop_held_times zero f = (f, [])
pop_held_times (suc n) f =
    let (f', o) = pop_held_msg f in let (f'', ms) = pop_held_times n f' in (f'', collect o ms)

save_all_lem : (ms : List CMsg) (f : Cfsm) → save_all ms f ≡ record f { save = f.save ++ ms }
unfolding save_msg
save_all_lem [] f = ap (λ (xs : List CMsg). record f { save = xs }) (sym (append-nil f.save))
save_all_lem (m ∷ ms) f =
    save_all_lem ms (save_msg f m)
    ∙ ap (λ (xs : List CMsg). record f { save = xs }) (append_assoc f.save (m ∷ []) ms)

hold_all_lem : (ms : List CMsg) (f : Cfsm) → hold_all ms f ≡ record f { hold = f.hold ++ ms }
unfolding hold_msg
hold_all_lem [] f = ap (λ (xs : List CMsg). record f { hold = xs }) (sym (append-nil f.hold))
hold_all_lem (m ∷ ms) f =
    hold_all_lem ms (hold_msg f m)
    ∙ ap (λ (xs : List CMsg). record f { hold = xs }) (append_assoc f.hold (m ∷ []) ms)

pop_saved_prefix :
    (ms rest : List CMsg) (f : Cfsm)
    → pop_saved_times (length ms) (record f { save = ms ++ rest }) ≡ (record f { save = rest }, ms)
unfolding pop_saved_msg
pop_saved_prefix [] rest f = refl
pop_saved_prefix (m ∷ ms) rest f = rw (pop_saved_prefix ms rest f)

pop_held_prefix :
    (ms rest : List CMsg) (f : Cfsm)
    → pop_held_times (length ms) (record f { hold = ms ++ rest }) ≡ (record f { hold = rest }, ms)
unfolding pop_held_msg
pop_held_prefix [] rest f = refl
pop_held_prefix (m ∷ ms) rest f = rw (pop_held_prefix ms rest f)

both_lem :
    (ms ns : List CMsg) (f : Cfsm)
    → hold_all ns (save_all ms f) ≡ record f { save = f.save ++ ms; hold = f.hold ++ ns }
both_lem ms ns f =
    hold_all_lem ns (save_all ms f)
    ∙ ap (λ (k : Cfsm). record k { hold = k.hold ++ ns }) (save_all_lem ms f)

from_empty : (xs ms : List CMsg) → xs ≡ [] → xs ++ ms ≡ ms ++ []
from_empty xs ms e = rw e (sym (append-nil ms))

-- From two empty queues, each queue returns what was put into it, once and in the order in which it came, whatever is put
-- into the other: after saving some messages and holding others, popping the saved ones leaves the
-- FSM with the held ones alone, and popping the held ones leaves it with the saved ones alone.
pub deferred_fifo :
    (ms ns : List CMsg) (f : Cfsm)
    → f.save ≡ []
    → f.hold ≡ []
    → (pop_saved_times (length ms) (hold_all ns (save_all ms f)) ≡ (hold_all ns f, ms))
      × (pop_held_times (length ns) (hold_all ns (save_all ms f)) ≡ (save_all ms f, ns))
deferred_fifo ms ns f s h = (
  ap (pop_saved_times (length ms)) (both_lem ms ns f)
      ∙ ap
          (λ (xs : List CMsg).
            pop_saved_times (length ms) (record f { save = xs; hold = f.hold ++ ns }))
          (from_empty f.save ms s)
      ∙ pop_saved_prefix ms [] (record f { hold = f.hold ++ ns })
      ∙ ap (λ (xs : List CMsg). (record f { save = xs; hold = f.hold ++ ns }, ms)) (sym s)
      ∙ ap (λ (k : Cfsm). (k, ms)) (sym (hold_all_lem ns f)),
  ap (pop_held_times (length ns)) (both_lem ms ns f)
      ∙ ap
          (λ (xs : List CMsg).
            pop_held_times (length ns) (record f { save = f.save ++ ms; hold = xs }))
          (from_empty f.hold ns h)
      ∙ pop_held_prefix ns [] (record f { save = f.save ++ ms })
      ∙ ap (λ (xs : List CMsg). (record f { save = f.save ++ ms; hold = xs }, ns)) (sym h)
      ∙ ap (λ (k : Cfsm). (k, ns)) (sym (save_all_lem ms f)),
)
