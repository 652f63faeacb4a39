-- ===== src/Executor/Find.antt =====
-- `FindFsmTransition` of FsmTableExecutor.h.
use fsm_framework.Base.{
  ◌≡◌, refl, ap, ◌⊎◌, inl, inr, true, false, List, [], ◌∷◌, ◌++◌, Option, none, some, arith, length,
  All, Bool-cases,
}
use fsm_framework.Data.{
  Tstate, idle, working, kill_fsm, MsgType, msg_init, msg_connect, msg_req, msg_resp, msg_timeout,
  msg_close, same_state, same_type,
}
use fsm_framework.Executor.{Transition, fires, find_fsm_transition}

-- The row is for the state and the event.
abbrev pub IsFor : Tstate → MsgType → Transition → Type 0
IsFor s e t = (t.«from» ≡ s) × (t.event ≡ e)

-- None of the rows is for the state and the event.
abbrev pub AllMiss : Tstate → MsgType → List Transition → Type 0
AllMiss s e ts = All (λ t. ¬ IsFor s e t) ts

-- The first row for the state and the event, with those before it and after it, or no such row.
abbrev pub FindsFirst : List Transition → Tstate → MsgType → Option Transition → Type 0
FindsFirst ts s e r =
    (AllMiss s e ts × (r ≡ none))
    ⊎ ((before : List Transition) × (t : Transition) × (after : List Transition) × (ts
          ≡ before ++ t ∷ after)
        × AllMiss s e before
        × IsFor s e t
        × (r ≡ some t))

same_state_lem : (a b : Tstate) → same_state a b ≡ true → a ≡ b
same_state_lem idle idle h = refl
same_state_lem working working h = refl
same_state_lem kill_fsm kill_fsm h = refl
same_state_lem _ _ h = cc

same_type_lem : (a b : MsgType) → same_type a b ≡ true → a ≡ b
same_type_lem msg_init msg_init h = refl
same_type_lem msg_connect msg_connect h = refl
same_type_lem msg_req msg_req h = refl
same_type_lem msg_resp msg_resp h = refl
same_type_lem msg_timeout msg_timeout h = refl
same_type_lem msg_close msg_close h = refl
same_type_lem _ _ h = cc

same_state_refl : (a : Tstate) → same_state a a ≡ true
same_state_refl idle = refl
same_state_refl working = refl
same_state_refl kill_fsm = refl

same_type_refl : (a : MsgType) → same_type a a ≡ true
same_type_refl msg_init = refl
same_type_refl msg_connect = refl
same_type_refl msg_req = refl
same_type_refl msg_resp = refl
same_type_refl msg_timeout = refl
same_type_refl msg_close = refl

-- The test of the loop holds exactly for the rows that are for the state and the event.
fires_cases :
    (s : Tstate) (e : MsgType) (t : Transition)
    → (IsFor s e t × (fires s e t ≡ true)) ⊎ (¬ IsFor s e t × (fires s e t ≡ false))
fires_cases s e t = elim (Bool-cases (same_state t.«from» s)) [
  | inr off ↦
      inr ((λ p. let here = same_state_refl s in let same = rw p.0 at off in cc), rw off refl)
  | inl at_state ↦ elim (Bool-cases (same_type t.event e)) [
    | inr off ↦ inr (
      (λ p. let here = same_type_refl e in let same = rw p.1 at off in cc),
      rw (at_state, off) refl,
    )
    | inl on_event ↦ inl (
      (same_state_lem t.«from» s at_state, same_type_lem t.event e on_event),
      rw (at_state, on_event) refl,
    )
  ]
]

-- Over the whole table the search returns the first row whose state is the given one and whose event is the given one, and
-- null if there is no such row.
pub find_fsm_transition_first :
    (ts : List Transition) (s : Tstate) (e : MsgType)
    → FindsFirst ts s e (find_fsm_transition ts (length ts) s e)
unfolding find_fsm_transition
find_fsm_transition_first [] s e = inl (tt, refl)
find_fsm_transition_first (t ∷ ts) s e = elim (fires_cases s e t) [
  | inl (hit, fits) ↦ inr ([], t, ts, refl, tt, hit, ground arith)
  | inr (miss, other) ↦ elim (find_fsm_transition_first ts s e) [
    | inl (all, r) ↦ inl ((miss, all), ground arith)
    | inr (before, u, after, cut, missed, hit, r) ↦
        inr (t ∷ before, u, after, ap (◌∷◌ t) cut, (miss, missed), hit, ground arith)
  ]
]
