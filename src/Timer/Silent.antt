-- ===== src/Timer/Silent.antt =====
-- Timers that post no more: the timers' threads of TimerManager.cpp against `StopTimer`.
use fsm_framework.Base.{
  ℕ, zero, suc, ◌≡◌, refl, ap, ◌⊎◌, inl, inr, false, List, [], ◌∷◌, ◌++◌, map, none, some, arith,
  get_elem?, set, Bool-cases, Option-cases, length,
}
use fsm_framework.Data.{EerrNo, success, CMsg}
use fsm_framework.Timer.{
  Timer, TimerManager, sleeping, finished, is_expired, start_timer, stop_timer, stop_all_timers,
  timer_wake, timer_post, deactivate, wake,
}
use fsm_framework.Timer.Cancel.{NoTimer, stop_timer_outcome, stop_timer_cut}

-- What any thread may do with the timers.
pub data TimerOp : Type 0 where
  starts : ℕ → ℕ → CMsg → TimerOp
  stops : ℕ → TimerOp
  stops_all : TimerOp
  wakes : ℕ → ℕ → TimerOp
  posts : ℕ → TimerOp

unfoldable pub apply : TimerManager → TimerOp → TimerManager
unfolding start_timer stop_timer stop_all_timers timer_wake timer_post
apply tm (starts now ms m) = (start_timer tm now ms m).0
apply tm (stops id) = (stop_timer tm id).0
apply tm stops_all = stop_all_timers tm
apply tm (wakes now i) = timer_wake tm now i
apply tm (posts i) = (timer_post tm i).0

unfoldable pub apply_all : TimerManager → List TimerOp → TimerManager
unfolding apply
apply_all tm [] = tm
apply_all tm (op ∷ ops) = apply_all (apply tm op) ops

-- The timer is past its load of `active` with nothing to post, or will find `active` false.
abbrev pub IsSilent : Timer → Type 0
IsSilent t = (t.phase ≡ finished) ⊎ ((t.phase ≡ sleeping) × (t.ctrl.active ≡ false))

-- The timer that was made `i`-th is silent.
abbrev pub SilentAt : ℕ → List Timer → Type 0
SilentAt i [] = ⊥
SilentAt zero (t ∷ ts) = IsSilent t
SilentAt (suc i) (t ∷ ts) = SilentAt i ts

SilentAt-append : (i : ℕ) (ts us : List Timer) → SilentAt i ts → SilentAt i (ts ++ us)
SilentAt-append i [] us h = absurd h
SilentAt-append zero (t ∷ ts) us h = h
SilentAt-append (suc i) (t ∷ ts) us h = SilentAt-append i ts us h

-- Any operation that keeps each silent timer silent, applied anywhere.
SilentAt-set :
    (i j : ℕ) (ts : List Timer) (t t' : Timer)
    → get_elem? ts j ≡ some t
    → (IsSilent t → IsSilent t')
    → SilentAt i ts
    → SilentAt i (set ts j t')
SilentAt-set i j [] t t' e k h = h
SilentAt-set zero zero (u ∷ ts) t t' e k h = k (ground (arith, h))
SilentAt-set zero (suc j) (u ∷ ts) t t' e k h = h
SilentAt-set (suc i) zero (u ∷ ts) t t' e k h = h
SilentAt-set (suc i) (suc j) (u ∷ ts) t t' e k h = SilentAt-set i j ts t t' e k h

deactivate-IsSilent : (t : Timer) → IsSilent t → IsSilent (deactivate t)
deactivate-IsSilent t h = ground arith

wake-IsSilent : (now : ℕ) (t : Timer) → IsSilent t → IsSilent (wake now t)
wake-IsSilent now t h = ground arith

SilentAt-map : (i : ℕ) (ts : List Timer) → SilentAt i ts → SilentAt i (map deactivate ts)
SilentAt-map i [] h = h
SilentAt-map zero (t ∷ ts) h = deactivate-IsSilent t h
SilentAt-map (suc i) (t ∷ ts) h = SilentAt-map i ts h

SilentAt-swap :
    (i : ℕ) (before : List Timer) (t t' : Timer) (after : List Timer)
    → (IsSilent t → IsSilent t')
    → SilentAt i (before ++ t ∷ after)
    → SilentAt i (before ++ t' ∷ after)
SilentAt-swap zero [] t t' after k h = k h
SilentAt-swap (suc i) [] t t' after k h = h
SilentAt-swap zero (u ∷ before) t t' after k h = h
SilentAt-swap (suc i) (u ∷ before) t t' after k h = SilentAt-swap i before t t' after k h

stop_timer-SilentAt :
    (i id : ℕ) (tm : TimerManager)
    → SilentAt i tm.timer_list
    → SilentAt i (stop_timer tm id).0.timer_list
stop_timer-SilentAt i id tm h = elim (stop_timer_outcome tm id) [
  | inl (_, r) ↦ rw r h
  | inr (before, t, after, cut, _, _, r) ↦
      let h' : SilentAt i (before ++ t ∷ after) = rw cut at h in
      rw r (SilentAt-swap i before t (deactivate t) after (deactivate-IsSilent t) h')
]

timer_wake-SilentAt :
    (i j now : ℕ) (tm : TimerManager)
    → SilentAt i tm.timer_list
    → SilentAt i (timer_wake tm now j).timer_list
unfolding timer_wake
timer_wake-SilentAt i j now tm h = elim (Option-cases (get_elem? tm.timer_list j)) [
  | inl e ↦ rw (e, timer_wake) h
  | inr (t, e) ↦
      rw (e, timer_wake) (SilentAt-set i j tm.timer_list t (wake now t) e (wake-IsSilent now t) h)
]

timer_post-SilentAt :
    (i j : ℕ) (tm : TimerManager)
    → SilentAt i tm.timer_list
    → SilentAt i (timer_post tm j).0.timer_list
unfolding timer_post
timer_post-SilentAt i j tm h = elim (Option-cases (get_elem? tm.timer_list j)) [
  | inl e ↦ rw (e, timer_post) h
  | inr (t, e) ↦
      rw (e, timer_post)
        (elim (Bool-cases (is_expired t.phase)) [
          | inl past ↦
              rw past (
                SilentAt-set i j tm.timer_list t (record t { phase = finished }) e (λ _. inl refl)
                  h)
          | inr other ↦ rw other h
        ])
]

apply-SilentAt :
    (i : ℕ) (tm : TimerManager) (op : TimerOp)
    → SilentAt i tm.timer_list
    → SilentAt i (apply tm op).timer_list
unfolding apply
apply-SilentAt i tm (starts now ms m) h = SilentAt-append i tm.timer_list _ h
apply-SilentAt i tm (stops id) h = stop_timer-SilentAt i id tm h
apply-SilentAt i tm stops_all h = SilentAt-map i tm.timer_list h
apply-SilentAt i tm (wakes now j) h = timer_wake-SilentAt i j now tm h
apply-SilentAt i tm (posts j) h = timer_post-SilentAt i j tm h

apply_all-SilentAt :
    (i : ℕ) (tm : TimerManager) (ops : List TimerOp)
    → SilentAt i tm.timer_list
    → SilentAt i (apply_all tm ops).timer_list
unfolding apply_all
apply_all-SilentAt i tm [] h = h
apply_all-SilentAt i tm (op ∷ ops) h =
    apply_all-SilentAt i (apply tm op) ops (apply-SilentAt i tm op h)

SilentAt-middle :
    (before : List Timer) (t : Timer) (after : List Timer)
    → IsSilent t
    → SilentAt (length before) (before ++ t ∷ after)
SilentAt-middle [] t after h = h
SilentAt-middle (u ∷ before) t after h = SilentAt-middle before t after h

SilentAt-set_self :
    (i : ℕ) (ts : List Timer) (t t' : Timer)
    → get_elem? ts i ≡ some t
    → IsSilent t'
    → SilentAt i (set ts i t')
SilentAt-set_self i [] t t' e k = cc
SilentAt-set_self zero (u ∷ ts) t t' e k = k
SilentAt-set_self (suc i) (u ∷ ts) t t' e k = SilentAt-set_self i ts t t' e k

SilentAt-posts : (i : ℕ) (tm : TimerManager) → SilentAt i tm.timer_list → (timer_post tm i).1 ≡ none
unfolding timer_post
SilentAt-posts i tm h = elim (Option-cases (get_elem? tm.timer_list i)) [
  | inl e ↦ rw (e, timer_post)
  | inr (t, e) ↦ ground (arith, go i tm.timer_list t e h)
]
  where
    go :
        (i : ℕ) (ts : List Timer) (t : Timer)
        → get_elem? ts i ≡ some t
        → SilentAt i ts
        → is_expired t.phase ≡ false
    go i [] t e h = absurd h
    go zero (u ∷ ts) t e h = ground arith
    go (suc i) (u ∷ ts) t e h = go i ts t e h

-- A timer that `StopTimer` stops while its thread still sleeps never hands its message to the
-- callback, whatever the threads do afterwards.
pub stop_timer_silences :
    (tm : TimerManager) (before : List Timer) (t : Timer) (after : List Timer) (ops : List TimerOp)
    → tm.timer_list ≡ before ++ t ∷ after
    → NoTimer t.ctrl.id before
    → t.phase ≡ sleeping
    → ((stop_timer tm t.ctrl.id).1 ≡ success)
      × ((timer_post (apply_all (stop_timer tm t.ctrl.id).0 ops) (length before)).1 ≡ none)
stop_timer_silences tm before t after ops cut first asleep =
    let stopped = stop_timer_cut tm before t after cut first in
    let quiet : SilentAt (length before) (stop_timer tm t.ctrl.id).0.timer_list =
      rw stopped (SilentAt-middle before (deactivate t) after (inr (asleep, refl))) in
    (
      ap (λ (r : TimerManager × EerrNo). r.1) stopped,
      SilentAt-posts (length before) (apply_all (stop_timer tm t.ctrl.id).0 ops)
          (apply_all-SilentAt (length before) (stop_timer tm t.ctrl.id).0 ops quiet),
    )

posted-SilentAt :
    (tm : TimerManager) (i : ℕ) (m : CMsg)
    → (timer_post tm i).1 ≡ some m
    → SilentAt i (timer_post tm i).0.timer_list
unfolding timer_post
posted-SilentAt tm i m e = elim (Option-cases (get_elem? tm.timer_list i)) [
  | inl none_there ↦ absurd (ground arith)
  | inr (t, there) ↦ elim (Bool-cases (is_expired t.phase)) [
    | inl past ↦
        rw (there, timer_post)
          (rw past
            (SilentAt-set_self i tm.timer_list t (record t { phase = finished }) there (inl refl)))
    | inr other ↦ absurd (ground arith)
  ]
]

-- A timer hands its message to the callback at most once: once it has, it never does so again.
pub timer_post_once :
    (tm : TimerManager) (i : ℕ) (m : CMsg) (ops : List TimerOp)
    → (timer_post tm i).1 ≡ some m
    → (timer_post (apply_all (timer_post tm i).0 ops) i).1 ≡ none
timer_post_once tm i m ops e =
    SilentAt-posts i (apply_all (timer_post tm i).0 ops)
      (apply_all-SilentAt i (timer_post tm i).0 ops (posted-SilentAt tm i m e))
