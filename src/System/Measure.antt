-- ===== src/System/Measure.antt =====
-- The work that is left falls, however the worker of Cfactory_mgr.cpp and the timers' threads of
-- TimerManager.cpp interleave.
use fsm_framework.Base.{
  ℕ, zero, suc, ◌+◌, ◌≤◌, ◌≡◌, inl, inr, true, false, ◌&&◌, leb, List, [], ◌∷◌, some, arith,
  get_elem?, set, Bool-cases, Option-cases,
}
use fsm_framework.Data.{CMsg}
use fsm_framework.Timer.{
  Timer, sleeping, expired, finished, is_sleeping, is_expired, wake, timer_wake, timer_post,
}
use fsm_framework.Pump.{Hub, send_msg, hub_timer_wake, hub_timer_post}
use fsm_framework.Flow.Laws.{rank, phase_rank, timer_work, pump_work-append, work}
use fsm_framework.Manager.{Manager}
use fsm_framework.Manager.Progress.{IsPlanned, take_work}
use fsm_framework.System.Undisturbed.{Drives, done, time_passes, timer_wakes, timer_posts, handles}
use fsm_framework.System.Custody.{send_msg_opened}

timer_work-set :
    (ts : List Timer) (i : ℕ) (t t' : Timer)
    → get_elem? ts i ≡ some t
    → timer_work (set ts i t') + phase_rank t.phase t.timeout_msg.type
      ≡ timer_work ts + phase_rank t'.phase t'.timeout_msg.type
timer_work-set [] i t t' e = cc
timer_work-set (u ∷ ts) zero t t' e = let same : t ≡ u = cc in rw same (omega arith)
timer_work-set (u ∷ ts) (suc i) t t' e = omega (arith, timer_work-set ts i t t' e)

-- The thread of a sleeping timer whose time has come wakes.
pub wakes-work :
    (h : Hub) (i : ℕ) (t : Timer)
    → get_elem? h.timers.timer_list i ≡ some t
    → t.phase ≡ sleeping
    → t.ctrl.active ≡ true
    → t.due ≤ h.clock
    → suc (work (hub_timer_wake h i)) ≡ work h
unfolding hub_timer_wake timer_wake
wakes-work h i t e asleep active due =
    let woken : wake h.clock t ≡ record t { phase = expired } = ground arith in
    let w =
      rw asleep at (timer_work-set h.timers.timer_list i t (record t { phase = expired }) e) in
    rw (e, timer_wake) (rw woken (omega (arith, w)))

pub posts-work :
    (h : Hub) (i : ℕ) (t : Timer)
    → get_elem? h.timers.timer_list i ≡ some t
    → t.phase ≡ expired
    → h.stopped ≡ false
    → suc (work (hub_timer_post h i)) ≡ work h
unfolding hub_timer_post timer_post
posts-work h i t e past running =
    let ts = set h.timers.timer_list i (record t { phase = finished }) in
    let w = rw past at (timer_work-set h.timers.timer_list i t (record t { phase = finished }) e) in
    rw (e, timer_post)
      (rw past (
        rw
          (send_msg_opened (record h { timers = record (h.timers) { timer_list = ts } })
            t.timeout_msg running)
          (omega (arith, w, pump_work-append h.pump (t.timeout_msg ∷ [])))))

-- A thread that wakes leaves no more work, whatever it finds.
wake-rank :
    (now : ℕ) (t : Timer)
    → phase_rank (wake now t).phase (wake now t).timeout_msg.type
      ≤ phase_rank t.phase t.timeout_msg.type
wake-rank now t = elim (Bool-cases (is_sleeping t.phase && leb t.due now)) [
  | inr still ↦ rw still (omega arith)
  | inl time ↦
      let asleep : t.phase ≡ sleeping = ground arith in
      rw (time, asleep)
        (elim (Bool-cases t.ctrl.active) [
          | inl y ↦ rw y (omega arith)
          | inr no_more ↦ rw no_more (omega arith)
        ])
]

wake-work : (h : Hub) (i : ℕ) → work (hub_timer_wake h i) ≤ work h
unfolding hub_timer_wake timer_wake
wake-work h i = elim (Option-cases (get_elem? h.timers.timer_list i)) [
  | inl e ↦ rw (e, timer_wake) (omega arith)
  | inr (t, e) ↦
      rw (e, timer_wake)
        (omega
          (arith, timer_work-set h.timers.timer_list i t (wake h.clock t) e, wake-rank h.clock t))
]

send-work : (h : Hub) (m : CMsg) → work (send_msg h m).0 ≤ work h + rank m.type
unfolding send_msg
send-work h m = elim (Bool-cases h.stopped) [
  | inl y ↦ rw y (omega arith)
  | inr n ↦ rw n (omega (arith, pump_work-append h.pump (m ∷ [])))
]

post-work : (h : Hub) (i : ℕ) → work (hub_timer_post h i) ≤ work h
unfolding hub_timer_post timer_post
post-work h i = elim (Option-cases (get_elem? h.timers.timer_list i)) [
  | inl e ↦ rw (e, timer_post) (omega arith)
  | inr (t, e) ↦ elim (Bool-cases (is_expired t.phase)) [
    | inr other ↦ rw (e, timer_post) (rw other (omega arith))
    | inl past ↦
        let gone : t.phase ≡ expired = ground arith in
        let ts = set h.timers.timer_list i (record t { phase = finished }) in
        let w =
          rw gone at (timer_work-set h.timers.timer_list i t (record t { phase = finished }) e) in
        rw (e, timer_post)
          (rw past (
            omega (
              arith,
              w,
              send-work (record h { timers = record (h.timers) { timer_list = ts } }) t.timeout_msg,
            )))
  ]
]

-- Where every factory's class follows a plan: however time, the timers' threads and the worker interleave without
-- clients, each message that is handled leaves less work, so no more are handled than the work that was left.
pub Drives-work :
    {n : ℕ} {g : Manager} {k : ℕ} {g' : Manager}
    → Drives n g k g'
    → IsPlanned g
    → (k + work g'.hub ≤ n + work g.hub) × IsPlanned g'
Drives-work done w = (omega arith, w)
Drives-work (time_passes ms d) w = Drives-work d w
Drives-work (timer_wakes {g' = g'} i d) w =
    let r = Drives-work d w in (omega (arith, r.0, wake-work g'.hub i), r.1)
Drives-work (timer_posts {g' = g'} i d) w =
    let r = Drives-work d w in (omega (arith, r.0, post-work g'.hub i), r.1)
Drives-work (handles {g' = g'} m rest d e) w =
    let r = Drives-work d w in let t = take_work g' m rest r.1 e in (omega (arith, r.0, t.0), t.1)
