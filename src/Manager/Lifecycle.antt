-- ===== src/Manager/Lifecycle.antt =====
-- `Start`, `Stop` and `Join` of Cfactory_mgr.cpp together.
use fsm_framework.Base.{
  ℕ, ◌<◌, ◌≡◌, refl, ap, ◌∙◌, ◌⊎◌, inl, inr, true, false, ◌||◌, List, [], ◌∷◌, some, arith,
  Bool-cases,
}
use fsm_framework.Data.{success, error, CMsg}
use fsm_framework.Timer.{stop_and_join}
use fsm_framework.Pump.{Hub, send_msg}
use fsm_framework.Flow.Laws.{work}
use fsm_framework.Manager.{Manager, start, stop, post, request_stop, post_all, destroy}
use fsm_framework.Manager.Progress.{IsPlanned, run_total}

-- `Start` succeeds exactly when no worker runs and none is left to join; then the worker runs and
-- messages are accepted. Otherwise nothing changes.
pub start_outcome :
    (g : Manager)
    → (((g.running || g.joinable) ≡ true) × (start g ≡ (g, error)))
      ⊎ ((g.running ≡ false)
          × (g.joinable ≡ false)
          × (start g ≡ (
            record g { hub = record (g.hub) { stopped = false }; running = true; joinable = true },
            success,
          )))
unfolding start
start_outcome g = elim (Bool-cases g.running) [
  | inl y ↦ inl (ground arith, ground arith)
  | inr y ↦ elim (Bool-cases g.joinable) [
    | inl z ↦ inl (ground arith, ground arith)
    | inr z ↦ inr (y, z, ground arith)
  ]
]

-- Where every factory's class follows a plan, the fuel exceeds the work that is queued and in the
-- timers, and a running worker is joinable: `Stop` ends, `Start` then succeeds, and messages are
-- accepted again.
pub stop-start :
    (n : ℕ) (g : Manager) (m : CMsg)
    → IsPlanned g
    → (g.running ≡ true → g.joinable ≡ true)
    → work g.hub < n
    → (g' : Manager) × (stop n g ≡ some g')
      × ((start g').1 ≡ success)
      × ((post (start g').0 m).1 ≡ success)
unfolding stop start send_msg
stop-start n g m w joins h = elim (Bool-cases g.joinable) [
  | inr free ↦
      let asleep : g.running ≡ false = ground arith in
      (request_stop g, ground arith, ground arith, ground arith)
  | inl busy ↦
      let r = run_total n (request_stop g) w refl h in
      (
        record (r.0) { joinable = false },
        ground (arith, r.1),
        ground (arith, r.3),
        ground (arith, r.3),
      )
]

post_all_stopped : (ms : List CMsg) (h : Hub) → h.stopped ≡ true → post_all ms h ≡ h
unfolding post_all send_msg
post_all_stopped [] h z = refl
post_all_stopped (m ∷ ms) h z =
    let refused : (send_msg h m).0 ≡ h = ground arith in
    ap (post_all ms) refused ∙ post_all_stopped ms h z

-- What the destructor leaves of a stopped manager: no factory, no timer, and the queue as it was.
abbrev pub Destroyed : Manager → Manager → Type 0
Destroyed g g' = (g'.fac_list ≡ []) × (g'.hub.timers.timer_list ≡ []) × (g'.hub.pump ≡ g.hub.pump)

pub destroy-Destroyed : (g : Manager) → g.hub.stopped ≡ true → Destroyed g (destroy g)
unfolding destroy stop_and_join
destroy-Destroyed g z =
    let (tm, posted) = stop_and_join g.hub.timers in
    let h : Hub = record (g.hub) { timers = tm } in
    let e = post_all_stopped posted h z in
    (refl, ap (λ (k : Hub). k.timers.timer_list) e, ap (λ (k : Hub). k.pump) e)

-- Where every factory's class follows a plan and the fuel exceeds the work that is queued and in the timers,
-- the destructor ends: afterwards there is no factory and no timer, and no message of a timer has come into the
-- queue since `Stop`.
pub destroy-stop :
    (n : ℕ) (g : Manager)
    → IsPlanned g
    → work g.hub < n
    → (g' : Manager) × (stop n g ≡ some g') × Destroyed g' (destroy g')
unfolding stop
destroy-stop n g w h = elim (Bool-cases g.joinable) [
  | inr free ↦ (request_stop g, ground arith, destroy-Destroyed (request_stop g) refl)
  | inl busy ↦
      let r = run_total n (request_stop g) w refl h in
      let g' : Manager = record (r.0) { joinable = false } in
      (g', ground (arith, r.1), destroy-Destroyed g' r.4)
]
