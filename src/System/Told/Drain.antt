-- ===== src/System/Told/Drain.antt =====
-- Every request that an undisturbed run of the manager of Cfactory_mgr.cpp began can end, with its client told.
use fsm_framework.Base.{ℕ, ◌+◌, ◌≤◌, ◌<◌, ◌≡◌, ◌∙◌, true, [], some, arith, get_elem?, All-get_elem?}
use fsm_framework.Data.{u32_mod}
use fsm_framework.Pump.{hub_timer_wake}
use fsm_framework.Flow.Laws.{work}
use fsm_framework.Factory.{Cfactory}
use fsm_framework.Manager.{Manager}
use fsm_framework.System.{time_passes, timer_wakes, timer_posts}
use fsm_framework.System.Undisturbed.{Drives, Undisturbed}
use fsm_framework.System.Drain.{drains, IsDrained}
use fsm_framework.System.Told.{told}
use fsm_framework.System.Told.Watched.{Watched, next, handles, Watched-Listens}
use fsm_framework.System.Told.Run.{told_exactly_once, timer_post-has_callback}

-- What the threads do without clients leaves the completion callback set.
pub Drives-Watched :
    {n : ℕ} {g : Manager} {k : ℕ} {g' : Manager}
    → Drives n g k g'
    → k + 1 < u32_mod
    → Watched true n g
    → Watched true k g'
unfolding hub_timer_wake
Drives-Watched Drives.done b w = w
Drives-Watched (Drives.time_passes {g' = g'} ms d) b w =
    let r = Drives-Watched d b w in next r (time_passes g' ms) (Watched-Listens r b)
Drives-Watched (Drives.timer_wakes {g' = g'} i d) b w =
    let r = Drives-Watched d b w in next r (timer_wakes g' i) (Watched-Listens r b)
Drives-Watched (Drives.timer_posts {g' = g'} i d) b w =
    let r = Drives-Watched d b w in
    next r (timer_posts g' i) (λ y. timer_post-has_callback g'.hub i ∙ Watched-Listens r b y)
Drives-Watched (Drives.handles m rest d e) b w = handles m rest (Drives-Watched d (omega arith) w) e

-- From any point of an undisturbed run with the completion callback always set, the worker and the timers' threads
-- can go on without clients, with no more messages handled than the work that was left, until no factory holds an FSM and the
-- client was told exactly once of the end of each FSM that a factory gave an id; the messages handled and the work
-- left are assumed to stay below 2 ^ 32 - 1.
pub drains_told :
    {n : ℕ} {g : Manager}
    → Undisturbed n g
    → Watched true n g
    → n + work g.hub + 1 < u32_mod
    → (k : ℕ) × (g' : Manager) × Drives n g k g'
      × (k ≤ n + work g.hub)
      × IsDrained g'
      × ((i : ℕ) (fac : Cfactory) (id : ℕ)
          → get_elem? g'.fac_list i ≡ some fac
          → 1 ≤ id
          → id < fac.next_fsm_id
          → told fac.fac_id id g'.hub.notified ≡ 1)
drains_told {n} {g} u w b =
    let (k, g', d, few, _, _, over) = drains u b in
    let small : k + 1 < u32_mod = omega (arith, few) in
    (
      k,
      g',
      d,
      few,
      over,
      λ i fac id e lo hi.
          let gone : fac.fsm_list ≡ [] =
            All-get_elem? (λ (c : Cfactory). c.fsm_list ≡ []) g'.fac_list i fac over e in
          told_exactly_once i fac id (Drives-Watched d small w) small e ∙ rw gone (ground arith),
    )
