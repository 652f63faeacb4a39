-- ===== src/System/Custody.antt =====
-- In an undisturbed run no FSM is forgotten: the timers of TimerManager.cpp and the queue of Cfactory_mgr.cpp hold
-- one message for each.
use fsm_framework.Base.{
  ℕ, ◌+◌, ◌≤◌, ◌<◌, ◌≡◌, refl, ap, inl, inr, true, false, ◌&&◌, leb, List, [], ◌∷◌, ◌++◌, some,
  arith, get_elem?, set, All-set, All-get_elem?, Bool-cases, Option-cases,
}
use fsm_framework.Data.{u32_mod, CMsg}
use fsm_framework.Timer.{
  Timer, sleeping, expired, finished, is_sleeping, is_expired, wake, timer_wake, timer_post,
}
use fsm_framework.Pump.{Hub, send_msg, hub_timer_wake, hub_timer_post, set_completion_callback}
use fsm_framework.Factory.{Cfactory}
use fsm_framework.Manager.{Manager, new_manager}
use fsm_framework.Manager.Lifecycle.{start_outcome}
use fsm_framework.System.Pending.{
  pending, timer_msgs, timer_msgs-set, timer_msgs-Takes, Adds-same, Adds-pump, Adds-post, phase_msg,
}
use fsm_framework.System.Undisturbed.{
  Client, sends, registers, starts, sets_callback, Drives, done, time_passes, timer_wakes,
  timer_posts, handles, Undisturbed, here, serves, drives,
}
use fsm_framework.System.Balance.{IsArmed, IsOpen, IsBalanced, hub-IsBalanced, register-IsBalanced}
use fsm_framework.System.Routed.{dispatch_msg-IsBalanced}

-- A thread that wakes holds its message on, since its timer is not cancelled.
wake_lem :
    (now : ℕ) (t : Timer)
    → IsArmed t
    → IsArmed (wake now t)
      × (phase_msg (wake now t).phase (wake now t).timeout_msg ≡ phase_msg t.phase t.timeout_msg)
wake_lem now t a = elim (Bool-cases (is_sleeping t.phase && leb t.due now)) [
  | inr still ↦ rw still (a, refl)
  | inl time ↦
      let asleep : t.phase ≡ sleeping = ground arith in
      let active : t.ctrl.active ≡ true = ground (arith, a) in
      rw time (rw (active, asleep) (inr refl, refl))
]

-- A step of one timer's thread that leaves what is on its way.
silent_step :
    (n i : ℕ) (h : Hub) (cs : List Cfactory) (t t' : Timer)
    → get_elem? h.timers.timer_list i ≡ some t
    → IsArmed t'
    → phase_msg t'.phase t'.timeout_msg ≡ phase_msg t.phase t.timeout_msg
    → IsBalanced n h cs
    → IsBalanced n
        (record h { timers = record (h.timers) { timer_list = set h.timers.timer_list i t' } })
        cs
silent_step n i h cs t t' e a same v =
    let ts = set h.timers.timer_list i t' in
    let h' = record h { timers = record (h.timers) { timer_list = ts } } in
    hub-IsBalanced n n h h' cs [] (omega arith)
      (v.opened.0, All-set IsArmed h.timers.timer_list i t' v.opened.1 a)
      (Adds-same (pending h) (pending h')
        (ap (λ (ms : List CMsg). h.pump ++ ms) (timer_msgs-set h.timers.timer_list i t t' e same)))
      tt v

-- The thread of a timer wakes.
wake-IsBalanced :
    (n i : ℕ) (h : Hub) (cs : List Cfactory)
    → IsBalanced n h cs
    → IsBalanced n (hub_timer_wake h i) cs
unfolding hub_timer_wake timer_wake
wake-IsBalanced n i h cs v = elim (Option-cases (get_elem? h.timers.timer_list i)) [
  | inl e ↦ rw (e, timer_wake) v
  | inr (t, e) ↦
      let a = All-get_elem? IsArmed h.timers.timer_list i t v.opened.1 e in
      let w = wake_lem h.clock t a in
      rw (e, timer_wake) (silent_step n i h cs t (wake h.clock t) e w.0 w.1 v)
]

pub send_msg_opened :
    (h : Hub) (m : CMsg)
    → h.stopped ≡ false
    → (send_msg h m).0 ≡ record h { pump = h.pump ++ m ∷ [] }
unfolding send_msg
send_msg_opened h m z = ground arith

-- A timer posts its message.
post-IsBalanced :
    (n i : ℕ) (h : Hub) (cs : List Cfactory)
    → IsBalanced n h cs
    → IsBalanced n (hub_timer_post h i) cs
unfolding hub_timer_post timer_post
post-IsBalanced n i h cs v = elim (Option-cases (get_elem? h.timers.timer_list i)) [
  | inl e ↦ rw (e, timer_post) v
  | inr (t, e) ↦ elim (Bool-cases (is_expired t.phase)) [
    | inr other ↦ rw (e, timer_post) (rw other v)
    | inl past ↦
        let gone : t.phase ≡ expired = ground arith in
        let ts = set h.timers.timer_list i (record t { phase = finished }) in
        let h' = record h {
          pump = h.pump ++ t.timeout_msg ∷ [];
          timers = record (h.timers) { timer_list = ts };
        } in
        rw (e, timer_post)
          (rw past (
            rw
              (send_msg_opened (record h { timers = record (h.timers) { timer_list = ts } })
                t.timeout_msg v.opened.0)
              (hub-IsBalanced n n h h' cs [] (omega arith)
                (v.opened.0, All-set IsArmed h.timers.timer_list i _ v.opened.1 (inl refl))
                (Adds-post h.pump (timer_msgs h.timers.timer_list) (timer_msgs ts) t.timeout_msg
                  (timer_msgs-Takes h.timers.timer_list i t e gone))
                tt v)))
  ]
]

-- A client's message names no FSM.
send-IsBalanced :
    (n : ℕ) (h : Hub) (cs : List Cfactory) (m : CMsg)
    → m.fsm_id ≡ 0
    → IsBalanced n h cs
    → IsBalanced n (send_msg h m).0 cs
send-IsBalanced n h cs m z v =
    let h' = record h { pump = h.pump ++ m ∷ [] } in
    rw (send_msg_opened h m v.opened.0) (
      hub-IsBalanced n n h h' cs (m ∷ []) (omega arith) (v.opened.0, v.opened.1)
        (Adds-pump h.pump (timer_msgs h.timers.timer_list) (m ∷ [])) (z, tt) v)

-- A step of the hub's flags or of its clock.
flag-IsBalanced :
    (n : ℕ) (h h' : Hub) (cs : List Cfactory)
    → IsOpen h'
    → pending h' ≡ pending h
    → IsBalanced n h cs
    → IsBalanced n h' cs
flag-IsBalanced n h h' cs o same v =
    hub-IsBalanced n n h h' cs [] (omega arith) o (Adds-same (pending h) (pending h') same) tt v

Client-IsBalanced :
    {n : ℕ} {g g' : Manager}
    → Client g g'
    → IsBalanced n g.hub g.fac_list
    → IsBalanced n g'.hub g'.fac_list
unfolding set_completion_callback
Client-IsBalanced {n} (sends g m z) v = send-IsBalanced n g.hub g.fac_list m z v
Client-IsBalanced {n} (registers g c id w) v = register-IsBalanced n g c id w v
Client-IsBalanced {n} (starts g) v = elim (start_outcome g) [
  | inl (_, r) ↦ rw r v
  | inr (_, _, r) ↦ rw r (
      flag-IsBalanced n g.hub (record (g.hub) { stopped = false }) g.fac_list (refl, v.opened.1)
        refl v)
]
Client-IsBalanced {n} (sets_callback g b) v =
    flag-IsBalanced n g.hub (set_completion_callback g.hub b) g.fac_list (v.opened.0, v.opened.1)
      refl v

new_manager-IsBalanced : IsBalanced 0 new_manager.hub new_manager.fac_list
new_manager-IsBalanced = record {
  opened = (refl, tt);
  distinct = tt;
  tracks = tt;
  quiet = λ sid free id i. refl;
}

Drives-IsBalanced :
    {n : ℕ} {g : Manager} {k : ℕ} {g' : Manager}
    → Drives n g k g'
    → k + 1 < u32_mod
    → IsBalanced n g.hub g.fac_list
    → IsBalanced k g'.hub g'.fac_list
Drives-IsBalanced done b v = v
Drives-IsBalanced {k} (time_passes {g' = g'} ms d) b v =
    let w = Drives-IsBalanced d b v in
    flag-IsBalanced k g'.hub (record (g'.hub) { clock = g'.hub.clock + ms }) g'.fac_list
      (w.opened.0, w.opened.1) refl w
Drives-IsBalanced {k} (timer_wakes {g' = g'} i d) b v =
    wake-IsBalanced k i g'.hub g'.fac_list (Drives-IsBalanced d b v)
Drives-IsBalanced {k} (timer_posts {g' = g'} i d) b v =
    post-IsBalanced k i g'.hub g'.fac_list (Drives-IsBalanced d b v)
Drives-IsBalanced (handles {k} {g'} m rest d e) b v =
    dispatch_msg-IsBalanced k g' m rest (Drives-IsBalanced d (omega arith) v) e (omega arith)

Drives-le : {n : ℕ} {g : Manager} {k : ℕ} {g' : Manager} → Drives n g k g' → n ≤ k
Drives-le done = omega arith
Drives-le (time_passes ms d) = Drives-le d
Drives-le (timer_wakes i d) = Drives-le d
Drives-le (timer_posts i d) = Drives-le d
Drives-le (handles m rest d e) = omega (arith, Drives-le d)

pub Undisturbed-IsBalanced :
    {n : ℕ} {g : Manager} → Undisturbed n g → n + 1 < u32_mod → IsBalanced n g.hub g.fac_list
Undisturbed-IsBalanced here b = new_manager-IsBalanced
Undisturbed-IsBalanced (serves u c) b = Client-IsBalanced c (Undisturbed-IsBalanced u b)
Undisturbed-IsBalanced (drives u d) b =
    Drives-IsBalanced d b (Undisturbed-IsBalanced u (omega (arith, Drives-le d)))
