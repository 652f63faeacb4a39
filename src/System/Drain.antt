-- ===== src/System/Drain.antt =====
-- How an undisturbed run of the manager of Cfactory_mgr.cpp ends: with no FSM left.
use fsm_framework.Base.{
  ℕ, zero, suc, ◌+◌, ◌≤◌, ◌<◌, ◌≡◌, refl, ◌≢◌, ◌⊎◌, inl, inr, true, List, [], ◌∷◌, Option, none,
  some, arith, get_elem?, All, All-map, All-get_elem?, List-cases,
}
use fsm_framework.Data.{u32_mod}
use fsm_framework.Timer.{Timer, Phase, sleeping, expired, finished}
use fsm_framework.Pump.{hub_timer_wake, hub_timer_post}
use fsm_framework.Fsm.{Cfsm}
use fsm_framework.Flow.Laws.{work}
use fsm_framework.Factory.{Cfactory}
use fsm_framework.Factory.Pointers.{Ascending}
use fsm_framework.Factory.Frame.{lookup_fsm}
use fsm_framework.Manager.{Manager, dispatch_msg, with_pump}
use fsm_framework.Manager.Progress.{IsPlanned, take_work}
use fsm_framework.System.Measure.{wakes-work, posts-work}
use fsm_framework.System.{with_hub, Reach, Step}
use fsm_framework.System.Invariant.{IsSound, Reach-Inv}
use fsm_framework.System.Pending.{pending, timer_msgs, tokens}
use fsm_framework.System.Undisturbed.{
  Client, sends, registers, starts, sets_callback, Drives, done, time_passes, timer_wakes,
  timer_posts, handles, Undisturbed, here, serves, drives,
}
use fsm_framework.System.Tracking.{Held, Tracks}
use fsm_framework.System.Balance.{IsArmed}
use fsm_framework.System.Custody.{Undisturbed-IsBalanced}

-- In an undisturbed run with fewer than 2 ^ 32 - 1 messages handled, every FSM that a factory holds works, and
-- exactly one message is on its way to it, in the queue or held by a timer; to any other non-zero id of a service
-- with a factory none is.
pub one_message_each :
    {n : ℕ} {g : Manager} (i : ℕ) (fac : Cfactory) (id : ℕ)
    → Undisturbed n g
    → n + 1 < u32_mod
    → get_elem? g.fac_list i ≡ some fac
    → id ≢ 0
    → Held (lookup_fsm id fac.fsm_list) (tokens fac.fac_id id (pending g.hub))
one_message_each {n} {g} i fac id u b e d =
    let t = All-get_elem? (Tracks n g.hub) g.fac_list i fac (Undisturbed-IsBalanced u b).tracks e in
    t.tracked id d

abbrev pub AllEnded : List Timer → Type 0
AllEnded ts = All (λ (t : Timer). t.phase ≡ finished) ts

over_msgs : (ts : List Timer) → AllEnded ts → timer_msgs ts ≡ []
over_msgs [] a = refl
over_msgs (t ∷ ts) a = rw a.0 (over_msgs ts a.1)

-- A factory that holds an FSM finds it under its id, which is not 0.
no_fsm :
    (hi : ℕ) (fs : List Cfsm)
    → Ascending 1 hi fs
    → ((id : ℕ) → id ≢ 0 → lookup_fsm id fs ≡ none)
    → fs ≡ []
no_fsm hi [] a k = refl
no_fsm hi (f ∷ fs) a k = absurd (ground (arith, k f.fsm_id (omega (arith, a.0))))

-- No factory holds an FSM.
abbrev pub IsDrained : Manager → Type 0
IsDrained g = All (λ (c : Cfactory). c.fsm_list ≡ []) g.fac_list

Held-none : (o : Option Cfsm) (k : ℕ) → k ≡ 0 → Held o k → o ≡ none
Held-none none k z a = refl
Held-none (some f) k z a = absurd (omega (arith, a.2))

-- In an undisturbed run with fewer than 2 ^ 32 - 1 messages handled, once the queue is empty and all timers have
-- ended, no factory holds an FSM: none is left that nothing would ever reach.
pub quiet_manager-IsDrained :
    {n : ℕ} {g : Manager}
    → Undisturbed n g
    → n + 1 < u32_mod
    → g.hub.pump ≡ []
    → AllEnded g.hub.timers.timer_list
    → IsDrained g
quiet_manager-IsDrained {n} {g} u b empty over =
    let nothing : pending g.hub ≡ [] = rw (empty, over_msgs g.hub.timers.timer_list over) refl in
    All-map
      (λ fac (t : Tracks n g.hub fac).
        no_fsm fac.next_fsm_id fac.fsm_list t.valid.ids
          (λ id i. Held-none (lookup_fsm id fac.fsm_list) 0 refl (rw nothing at (t.tracked id i))))
      g.fac_list (Undisturbed-IsBalanced u b).tracks

Client-Reach : {n : ℕ} {g g' : Manager} → Client g g' → Reach n g → Reach n g'
Client-Reach (sends g m z) r = Reach.next r (Step.sends g m)
Client-Reach (registers g c id (p, w, d, st)) r = Reach.next r (Step.registers g c id (p, w, d))
Client-Reach (starts g) r = Reach.next r (Step.starts g)
Client-Reach (sets_callback g b) r = Reach.next r (Step.sets_callback g b)

Drives-Reach :
    {n : ℕ} {g : Manager} {k : ℕ} {g' : Manager} → Drives n g k g' → Reach n g → Reach k g'
Drives-Reach done r = r
Drives-Reach (time_passes {g' = g'} ms d) r = Reach.next (Drives-Reach d r) (Step.time_passes g' ms)
Drives-Reach (timer_wakes {g' = g'} i d) r = Reach.next (Drives-Reach d r) (Step.timer_wakes g' i)
Drives-Reach (timer_posts {g' = g'} i d) r = Reach.next (Drives-Reach d r) (Step.timer_posts g' i)
Drives-Reach (handles m rest d e) r = Reach.handles m rest (Drives-Reach d r) e

-- An undisturbed run is a run of the program.
pub Undisturbed-Reach : {n : ℕ} {g : Manager} → Undisturbed n g → Reach n g
Undisturbed-Reach here = Reach.here
Undisturbed-Reach (serves u c) = Client-Reach c (Undisturbed-Reach u)
Undisturbed-Reach (drives u d) = Drives-Reach d (Undisturbed-Reach u)

Undisturbed-IsPlanned : {n : ℕ} {g : Manager} → Undisturbed n g → n + 1 < u32_mod → IsPlanned g
Undisturbed-IsPlanned {n} {g} u b =
    All-map (λ fac (s : IsSound n fac). s.planned) g.fac_list
      (Reach-Inv (Undisturbed-Reach u) b).sound

Phase-cases : (p : Phase) → (p ≡ sleeping) ⊎ (p ≡ expired) ⊎ (p ≡ finished)
Phase-cases sleeping = inl refl
Phase-cases expired = inr (inl refl)
Phase-cases finished = inr (inr refl)

-- A timer that has not ended.
abbrev Unended : List Timer → Type 0
Unended ts =
    (i : ℕ) × (t : Timer) × (get_elem? ts i ≡ some t) × ((t.phase ≡ sleeping) ⊎ (t.phase ≡ expired))

ended_cases : (ts : List Timer) → AllEnded ts ⊎ Unended ts
ended_cases [] = inl tt
ended_cases (t ∷ ts) = elim (Phase-cases t.phase) [
  | inl asleep ↦ inr (0, t, refl, inl asleep)
  | inr (inl past) ↦ inr (0, t, refl, inr past)
  | inr (inr over) ↦ elim (ended_cases ts) [
    | inl a ↦ inl (over, a)
    | inr (i, u, e, q) ↦ inr (suc i, u, e, q)
  ]
]

-- The worker and the timers' threads can go on to a state that no message and no timer is left in.
abbrev Comes : ℕ → Manager → ℕ → Type 0
Comes n g most =
    (k : ℕ) × (g' : Manager) × Drives n g k g'
    × (k ≤ most)
    × (g'.hub.pump ≡ [])
    × AllEnded g'.hub.timers.timer_list

go_on :
    (w most : ℕ) {n : ℕ} {g : Manager} (k : ℕ) (g' : Manager)
    → Undisturbed n g
    → Drives n g k g'
    → k + work g'.hub ≤ most
    → most + 1 < u32_mod
    → work g'.hub < w
    → Comes n g most
go_on zero most k g' u d left b le = absurd (omega arith)
go_on (suc w) most {n} {g} k g' u d left b le =
    let small : k + 1 < u32_mod = omega (arith, left) in
    let v = Undisturbed-IsBalanced (drives u d) small in
    elim (List-cases g'.hub.pump) [
      | inr (m, rest, e) ↦
          let r = (take_work g' m rest (Undisturbed-IsPlanned (drives u d) small) e).0 in
          go_on w most (suc k) (dispatch_msg (with_pump rest g') m).0 u (handles m rest d e)
            (omega (arith, r, left)) b (omega (arith, r, le))
      | inl empty ↦ elim (ended_cases g'.hub.timers.timer_list) [
        | inl over ↦ (k, g', d, omega (arith, left), empty, over)
        | inr (i, t, at, inr past) ↦
            let r = posts-work g'.hub i t at past v.opened.0 in
            go_on w most k (with_hub (hub_timer_post g'.hub i) g') u (timer_posts i d)
              (omega (arith, r, left)) b (omega (arith, r, le))
        | inr (i, t, at, inl asleep) ↦
            let armed = All-get_elem? IsArmed g'.hub.timers.timer_list i t v.opened.1 at in
            let active : t.ctrl.active ≡ true = ground (arith, armed) in
            let later = record (g'.hub) { clock = g'.hub.clock + t.due } in
            let r = wakes-work later i t at asleep active (omega arith) in
            go_on w most k (with_hub (hub_timer_wake later i) (with_hub later g')) u
              (timer_wakes i (time_passes t.due d)) (omega (arith, r, left)) b
              (omega (arith, r, le))
      ]
    ]

-- From any point of an undisturbed run, the worker and the timers' threads can go on without clients until the
-- queue is empty, all timers have ended and no factory holds an FSM; they handle no more messages than the work
-- that was left, which is assumed to stay below 2 ^ 32 - 1 with those handled before.
pub drains :
    {n : ℕ} {g : Manager}
    → Undisturbed n g
    → n + work g.hub + 1 < u32_mod
    → (k : ℕ) × (g' : Manager) × Drives n g k g'
      × (k ≤ n + work g.hub)
      × (g'.hub.pump ≡ [])
      × AllEnded g'.hub.timers.timer_list
      × IsDrained g'
drains {n} {g} u b =
    let (k, g', d, few, empty, over) =
      go_on (suc (work g.hub)) (n + work g.hub) n g u done (omega arith) b (omega arith) in
    (
      k,
      g',
      d,
      few,
      empty,
      over,
      quiet_manager-IsDrained (drives u d) (omega (arith, few)) empty over,
    )
