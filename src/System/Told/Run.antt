-- ===== src/System/Told/Run.antt =====
-- The events that clients are told of over whole runs of the manager of Cfactory_mgr.cpp.
use fsm_framework.Base.{
  ℕ, suc, ◌+◌, ◌≤◌, ◌<◌, ◌≡◌, refl, sym, ◌∙◌, ◌≢◌, ◌⊎◌, inl, inr, Bool, true, false, [], ◌∷◌,
  Option, none, some, arith, leb, ◌==◌, ◌&&◌, Bool-cases, get_elem?, All, All-append, All-get_elem?,
  Option-cases,
}
use fsm_framework.Data.{u32_mod, CMsg}
use fsm_framework.Timer.{timer_post}
use fsm_framework.Pump.{
  Hub, hub_start_timer, hub_stop_timer, hub_stop_all_timers, hub_timer_wake, hub_timer_post,
  set_completion_callback,
}
use fsm_framework.Fsm.{Cfsm}
use fsm_framework.Factory.{FsmClass, Cfactory, new_factory, set_fac_mgr, fac_msg_prc}
use fsm_framework.Factory.Effects.{fac_msg_prc-same}
use fsm_framework.Factory.Frame.{lookup_fsm}
use fsm_framework.Manager.{
  Manager, new_manager, register_factory, dispatch_msg, dispatch_to, with_pump,
}
use fsm_framework.Manager.Registry.{IsFree, register_factory_outcome}
use fsm_framework.Manager.Lifecycle.{start_outcome}
use fsm_framework.Manager.Routing.{dispatch_msg_cases}
use fsm_framework.System.{
  Step, sends, registers, starts, stops, worker_ends, joins, starts_timer, stops_timer,
  stops_timers, timer_wakes, timer_posts, sets_callback, time_passes, Reach, with_hub,
}
use fsm_framework.System.Invariant.{IsSound, Inv, hub-Inv, Reach-Inv}
use fsm_framework.System.Balance.{IsFree-before}
use fsm_framework.System.Routed.{All-set_others, IsFree-set}
use fsm_framework.System.Told.{told, departed, ended, Accounted, send_msg-notified}
use fsm_framework.System.Told.Watched.{
  Listens, Watched, here, next, handles, Watched-Reach, Watched-Listens, Reach-Watched,
}
use fsm_framework.System.Told.Handled.{fac_msg_prc-Kept}

-- What the clients of the manager were told.
pub record IsTold (x : Bool) (g : Manager) : Type 0 where
  pub accounts : All (Accounted x g.hub.notified) g.fac_list
  pub others : (sid : ℕ) → IsFree sid g.fac_list → (id : ℕ) → told sid id g.hub.notified ≡ 0

same-IsTold :
    (x : Bool) (g g' : Manager)
    → g'.hub.notified ≡ g.hub.notified
    → g'.fac_list ≡ g.fac_list
    → IsTold x g
    → IsTold x g'
same-IsTold x g g' e k v = record {
  accounts = rw (e, k) v.accounts;
  others = λ sid free id. rw e (v.others sid (rw (← k) free) id);
}

-- Posting what a timer held tells nobody.
pub timer_post-notified : (h : Hub) (i : ℕ) → (hub_timer_post h i).notified ≡ h.notified
unfolding hub_timer_post
timer_post-notified h i = elim (Option-cases (timer_post h.timers i).1) [
  | inl e ↦ rw e refl
  | inr (m, e) ↦ rw e (send_msg-notified (record h { timers = (timer_post h.timers i).0 }) m).0
]

pub timer_post-has_callback : (h : Hub) (i : ℕ) → (hub_timer_post h i).has_callback ≡ h.has_callback
unfolding hub_timer_post
timer_post-has_callback h i = elim (Option-cases (timer_post h.timers i).1) [
  | inl e ↦ rw e refl
  | inr (m, e) ↦ rw e (send_msg-notified (record h { timers = (timer_post h.timers i).0 }) m).1
]

register-IsTold :
    (x : Bool) (g : Manager) (c : FsmClass) (id : ℕ)
    → IsTold x g
    → IsTold x (register_factory g (some (new_factory c id))).0
register-IsTold x g c id v = elim (register_factory_outcome g (new_factory c id)) [
  | inr (_, r) ↦ rw r v
  | inl (fits, r) ↦
      let new = set_fac_mgr (new_factory c id) in
      rw r (record {
        accounts =
            All-append (Accounted x g.hub.notified) g.fac_list (new ∷ []) v.accounts
              ((λ j. let none_yet = v.others id fits.1 j in ground arith), tt);
        others = λ sid free. v.others sid (IsFree-before sid g.fac_list (new ∷ []) free);
      })
]

-- A step that handles no message tells nobody.
Step-IsTold : (x : Bool) {g g' : Manager} → Step g g' → IsTold x g → IsTold x g'
unfolding hub_start_timer hub_stop_timer hub_stop_all_timers hub_timer_wake set_completion_callback
Step-IsTold x (registers g c id w) v = register-IsTold x g c id v
Step-IsTold x {g' = g'} (sends g m) v = same-IsTold x g g' (send_msg-notified g.hub m).0 refl v
Step-IsTold x (starts g) v = elim (start_outcome g) [
  | inl (_, r) ↦ rw r v
  | inr (_, _, r) ↦ rw r (same-IsTold x g _ refl refl v)
]
Step-IsTold x {g' = g'} (timer_posts g i) v =
    same-IsTold x g g' (timer_post-notified g.hub i) refl v
Step-IsTold x {g' = g'} (stops g) v = same-IsTold x g g' refl refl v
Step-IsTold x {g' = g'} (worker_ends g e z) v = same-IsTold x g g' refl refl v
Step-IsTold x {g' = g'} (joins g e) v = same-IsTold x g g' refl refl v
Step-IsTold x {g' = g'} (starts_timer g ms m) v = same-IsTold x g g' refl refl v
Step-IsTold x {g' = g'} (stops_timer g i) v = same-IsTold x g g' refl refl v
Step-IsTold x {g' = g'} (stops_timers g) v = same-IsTold x g g' refl refl v
Step-IsTold x {g' = g'} (timer_wakes g i) v = same-IsTold x g g' refl refl v
Step-IsTold x {g' = g'} (sets_callback g b) v = same-IsTold x g g' refl refl v
Step-IsTold x {g' = g'} (time_passes g ms) v = same-IsTold x g g' refl refl v

-- The factory `i` handles the message.
handle-IsTold :
    (x : Bool) (n i : ℕ) (g : Manager) (fac : Cfactory) (m : CMsg)
    → Inv n g
    → n + 2 < u32_mod
    → Listens x g.hub
    → IsTold x g
    → get_elem? g.fac_list i ≡ some fac
    → IsTold x (dispatch_to g i fac m).0
unfolding dispatch_to
handle-IsTold x n i g fac m v b l t at =
    let s = All-get_elem? (IsSound n) g.fac_list i fac v.sound at in
    let out = fac_msg_prc fac m g.hub in
    let same : out.0.fac_id ≡ fac.fac_id = (fac_msg_prc-same fac m g.hub).0 in
    let kept =
      fac_msg_prc-Kept x fac s.planned.0 m g.hub s.planned.1 s.owned l s.valid
        (omega (arith, s.counted)) in
    record {
      accounts =
          All-set_others (Accounted x g.hub.notified) (Accounted x out.1.notified) g.fac_list i fac
            out.0 v.distinct at t.accounts (λ d other a id. rw (kept.1 d.fac_id other id) (a id))
            (kept.0 (All-get_elem? (Accounted x g.hub.notified) g.fac_list i fac t.accounts at));
      others = λ sid free id.
          let before = IsFree-set sid g.fac_list i fac out.0 at same free in
          let other : sid ≢ fac.fac_id = λ q.
            All-get_elem? (λ (y : Cfactory). y.fac_id ≢ sid) g.fac_list i fac before at (sym q) in
          kept.1 sid other id ∙ t.others sid before id;
    }

dispatch_msg-IsTold :
    (x : Bool) (n : ℕ) (g : Manager) (m : CMsg)
    → Inv n g
    → n + 2 < u32_mod
    → Listens x g.hub
    → IsTold x g
    → IsTold x (dispatch_msg g m).0
dispatch_msg-IsTold x n g m v b l t = elim (dispatch_msg_cases g m) [
  | inl r ↦ rw r t
  | inr (i, fac, at, r) ↦ rw r (handle-IsTold x n i g fac m v b l t at)
]

new_manager-IsTold :
    (x : Bool) → IsTold x (with_hub (set_completion_callback new_manager.hub x) new_manager)
unfolding set_completion_callback
new_manager-IsTold x = record { accounts = tt; others = λ sid free id. refl }

pub Watched-IsTold : {x : Bool} {n : ℕ} {g : Manager} → Watched x n g → n + 1 < u32_mod → IsTold x g
Watched-IsTold {x} here b = new_manager-IsTold x
Watched-IsTold {x} (next w s l) b = Step-IsTold x s (Watched-IsTold w b)
Watched-IsTold {x} (handles {n = k} {g = g} m rest w e) b =
    let c : k + 1 < u32_mod = omega arith in
    let v = Reach-Inv (Watched-Reach w) c in
    let g' = with_pump rest g in
    dispatch_msg-IsTold x k g' m (hub-Inv k g (record (g.hub) { pump = rest }) v.on_time v)
      (omega arith) (Watched-Listens w c) (same-IsTold x g g' refl refl (Watched-IsTold w c))

-- At most one has departed, and then the id was given out and nothing is found for it.
departed_lem :
    (t id hi : ℕ) (o : Option Cfsm)
    → t ≤ departed id hi o
    → (t ≡ 0) ⊎ ((t ≡ 1) × (1 ≤ id) × (id < hi) × (o ≡ none))
departed_lem t id hi (some f) a = inl (omega arith)
departed_lem t id hi none a = elim (Bool-cases (leb 1 id && leb (suc id) hi)) [
  | inr never ↦ inl (ground arith)
  | inl given ↦ elim (Bool-cases (t == 0)) [
    | inl zero_times ↦ inl (ground arith)
    | inr once ↦ inr (ground arith, ground arith, ground arith, refl)
  ]
]

-- Whatever the threads do from a new manager on, with fewer than 2 ^ 32 - 1 messages handled and classes that
-- follow plans, the client was told at most once of the end of the FSM `id` of a registered service, and only if
-- the factory gave the id out and has its FSM no more.
pub told_at_most_once :
    {n : ℕ} {g : Manager} (i : ℕ) (fac : Cfactory) (id : ℕ)
    → Reach n g
    → n + 1 < u32_mod
    → get_elem? g.fac_list i ≡ some fac
    → (told fac.fac_id id g.hub.notified ≡ 0)
      ⊎ ((told fac.fac_id id g.hub.notified ≡ 1)
          × (1 ≤ id)
          × (id < fac.next_fsm_id)
          × (lookup_fsm id fac.fsm_list ≡ none))
told_at_most_once {n} {g} i fac id r b e =
    let a =
      All-get_elem? (Accounted false g.hub.notified) g.fac_list i fac
        (Watched-IsTold (Reach-Watched r) b).accounts e in
    departed_lem (told fac.fac_id id g.hub.notified) id fac.next_fsm_id (lookup_fsm id fac.fsm_list)
      (a id).0

-- In a run in which the completion callback is always set, with fewer than 2 ^ 32 - 1 messages handled and classes
-- that follow plans, the client was told exactly once of the end of each FSM that a registered factory gave an id
-- and has no more, and of no FSM that it still has or never made.
pub told_exactly_once :
    {n : ℕ} {g : Manager} (i : ℕ) (fac : Cfactory) (id : ℕ)
    → Watched true n g
    → n + 1 < u32_mod
    → get_elem? g.fac_list i ≡ some fac
    → told fac.fac_id id g.hub.notified ≡ ended id fac
told_exactly_once {n} {g} i fac id w b e =
    (All-get_elem? (Accounted true g.hub.notified) g.fac_list i fac (Watched-IsTold w b).accounts e
        id).1
      refl
