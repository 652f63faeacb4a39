-- ===== src/Timer/Cancel.antt =====
-- Cancelling a timer: `StopTimer` and `StopAllTimers` of TimerManager.cpp against the timers'
-- threads.
use fsm_framework.Base.{
  ℕ, ◌≡◌, refl, ap, false, ◌≢◌, ◌⊎◌, inl, inr, List, [], ◌∷◌, ◌++◌, Option, none, some, arith, ◌==◌,
  Bool-cases, All,
}
use fsm_framework.Data.{success, timer_error}
use fsm_framework.Timer.{Timer, TimerManager, stop_first, stop_timer, deactivate}

-- The timer with the flag `active` cleared, and all else kept.
abbrev pub cancelled : Timer → Timer
cancelled t = record {
  ctrl = record { id = t.ctrl.id; active = false };
  timeout_ms = t.timeout_ms;
  timeout_msg = t.timeout_msg;
  due = t.due;
  phase = t.phase;
}

-- No timer of the list has the id.
abbrev pub NoTimer : ℕ → List Timer → Type 0
NoTimer id ts = All (λ (t : Timer). t.ctrl.id ≢ id) ts

abbrev pub StopsFirst : ℕ → List Timer → Option (List Timer) → Type 0
StopsFirst id ts r =
    (NoTimer id ts × (r ≡ none))
    ⊎ ((before : List Timer) × (t : Timer) × (after : List Timer) × (ts ≡ before ++ t ∷ after)
        × NoTimer id before
        × (t.ctrl.id ≡ id)
        × (r ≡ some (before ++ cancelled t ∷ after)))

stop_first_cases : (id : ℕ) (ts : List Timer) → StopsFirst id ts (stop_first id ts)
unfolding stop_first
stop_first_cases id [] = inl (tt, refl)
stop_first_cases id (t ∷ ts) = elim (Bool-cases (t.ctrl.id == id)) [
  | inl hit ↦ inr ([], t, ts, refl, tt, ground arith, ground arith)
  | inr miss ↦ elim (stop_first_cases id ts) [
    | inl (all, r) ↦ inl ((ground arith, all), ground arith)
    | inr (before, u, after, cut, none_before, hit, r) ↦
        inr (t ∷ before, u, after, ap (◌∷◌ t) cut, (ground arith, none_before), hit, ground arith)
  ]
]

-- `StopTimer` succeeds exactly when a timer has the id; then the flag `active` of the first such timer is false, its other
-- fields, the other timers and the next id are as before. Otherwise nothing changes and the result is `TIMER_ERROR`.
pub stop_timer_outcome :
    (tm : TimerManager) (id : ℕ)
    → (NoTimer id tm.timer_list × (stop_timer tm id ≡ (tm, timer_error)))
      ⊎ ((before : List Timer) × (t : Timer) × (after : List Timer) × (tm.timer_list
            ≡ before ++ t ∷ after)
          × NoTimer id before
          × (t.ctrl.id ≡ id)
          × (stop_timer tm id
              ≡ (record tm { timer_list = before ++ cancelled t ∷ after }, success)))
unfolding stop_timer
stop_timer_outcome tm id = elim (stop_first_cases id tm.timer_list) [
  | inl (all, r) ↦ inl (all, ground arith)
  | inr (before, t, after, cut, none_before, hit, r) ↦
      inr (before, t, after, cut, none_before, hit, ground arith)
]

-- The same where the list is already cut at its first timer with the id.
pub stop_timer_cut :
    (tm : TimerManager) (before : List Timer) (t : Timer) (after : List Timer)
    → tm.timer_list ≡ before ++ t ∷ after
    → NoTimer t.ctrl.id before
    → stop_timer tm t.ctrl.id ≡ (record tm { timer_list = before ++ deactivate t ∷ after }, success)
unfolding stop_timer
stop_timer_cut tm before t after cut first = rw (cut, stop_timer, go before first)
  where
    go :
        (bs : List Timer)
        → NoTimer t.ctrl.id bs
        → stop_first t.ctrl.id (bs ++ t ∷ after) ≡ some (bs ++ deactivate t ∷ after)
    go [] h = ground arith
    go (u ∷ bs) h = ground (arith, go bs h.1)
