-- ===== src/Timer/Due.antt =====
-- When a timer's message may reach the callback of TimerManager.cpp: not before its delay has
-- passed.
use fsm_framework.Base.{
  ℕ, ◌≤◌, ◌≡◌, refl, ◌⊎◌, inl, inr, List, [], ◌∷◌, ◌++◌, map, none, some, arith, get_elem?, All,
  All-append, All-set, All-get_elem?, Bool-cases, Option-cases,
}
use fsm_framework.Data.{CMsg}
use fsm_framework.Timer.{
  Timer, TimerManager, sleeping, finished, is_expired, deactivate, start_timer, stop_timer,
  stop_all_timers, wake, timer_wake, timer_post,
}
use fsm_framework.Timer.Cancel.{stop_timer_outcome}

-- A thread that no longer sleeps woke after its time had come.
abbrev pub IsOnTime : ℕ → Timer → Type 0
IsOnTime now t = (t.phase ≡ sleeping) ⊎ (t.due ≤ now)

abbrev pub OnTime : ℕ → List Timer → Type 0
OnTime now ts = All (IsOnTime now) ts

pub OnTime-later : (now later : ℕ) (ts : List Timer) → now ≤ later → OnTime now ts → OnTime later ts
OnTime-later now later [] h o = tt
OnTime-later now later (t ∷ ts) h o = (ground (arith, o.0), OnTime-later now later ts h o.1)

pub start_timer-OnTime :
    (now ms : ℕ) (m : CMsg) (tm : TimerManager)
    → OnTime now tm.timer_list
    → OnTime now (start_timer tm now ms m).0.timer_list
unfolding start_timer
start_timer-OnTime now ms m tm o = All-append (IsOnTime now) tm.timer_list _ o (inl refl, tt)

OnTime-swap :
    (now : ℕ) (before : List Timer) (t : Timer) (after : List Timer)
    → OnTime now (before ++ t ∷ after)
    → OnTime now (before ++ deactivate t ∷ after)
OnTime-swap now [] t after o = o
OnTime-swap now (u ∷ before) t after o = (o.0, OnTime-swap now before t after o.1)

pub stop_timer-OnTime :
    (now id : ℕ) (tm : TimerManager)
    → OnTime now tm.timer_list
    → OnTime now (stop_timer tm id).0.timer_list
stop_timer-OnTime now id tm o = elim (stop_timer_outcome tm id) [
  | inl (_, r) ↦ rw r o
  | inr (before, t, after, cut, _, _, r) ↦
      let o' : OnTime now (before ++ t ∷ after) = rw cut at o in
      rw r (OnTime-swap now before t after o')
]

OnTime-map : (now : ℕ) (ts : List Timer) → OnTime now ts → OnTime now (map deactivate ts)
OnTime-map now [] o = tt
OnTime-map now (t ∷ ts) o = (o.0, OnTime-map now ts o.1)

pub stop_all_timers-OnTime :
    (now : ℕ) (tm : TimerManager)
    → OnTime now tm.timer_list
    → OnTime now (stop_all_timers tm).timer_list
unfolding stop_all_timers
stop_all_timers-OnTime now tm o = OnTime-map now tm.timer_list o

wake-IsOnTime : (now : ℕ) (t : Timer) → IsOnTime now t → IsOnTime now (wake now t)
wake-IsOnTime now t o = ground (arith, o)

pub timer_wake-OnTime :
    (now i : ℕ) (tm : TimerManager)
    → OnTime now tm.timer_list
    → OnTime now (timer_wake tm now i).timer_list
unfolding timer_wake
timer_wake-OnTime now i tm o = elim (Option-cases (get_elem? tm.timer_list i)) [
  | inl e ↦ rw (e, timer_wake) o
  | inr (t, e) ↦
      rw (e, timer_wake)
        (All-set (IsOnTime now) tm.timer_list i (wake now t) o
          (wake-IsOnTime now t (All-get_elem? (IsOnTime now) tm.timer_list i t o e)))
]

-- Where no timer has woken before its time, a post leaves it so, and the timer that posts was due.
pub timer_post-OnTime :
    (now i : ℕ) (tm : TimerManager)
    → OnTime now tm.timer_list
    → OnTime now (timer_post tm i).0.timer_list
      × (((timer_post tm i).1 ≡ none)
          ⊎ ((t : Timer) × (get_elem? tm.timer_list i ≡ some t)
              × ((timer_post tm i).1 ≡ some t.timeout_msg)
              × (t.due ≤ now)))
unfolding timer_post
timer_post-OnTime now i tm o = elim (Option-cases (get_elem? tm.timer_list i)) [
  | inl e ↦ rw (e, timer_post) (o, inl refl)
  | inr (t, e) ↦
      let own = All-get_elem? (IsOnTime now) tm.timer_list i t o e in
      elim (Bool-cases (is_expired t.phase)) [
        | inr other ↦ rw (e, timer_post) (rw other (o, inl refl))
        | inl past ↦
            let due : t.due ≤ now = ground (arith, own) in
            rw (e, timer_post)
              (rw past (
                All-set (IsOnTime now) tm.timer_list i (record t { phase = finished }) o (inr due),
                inr (t, refl, refl, due),
              ))
      ]
]
