-- ===== src/System/Invariant.antt =====
-- What holds of the manager between any two steps of the threads (module System).
use fsm_framework.Base.{
  ℕ, suc, ◌+◌, ◌≤◌, ◌<◌, ◌≡◌, refl, ◌∙◌, inl, inr, true, List, [], ◌∷◌, Option, some, none, arith,
  length, length-append, length-set, All, All-append, All-set, All-get_elem?, Bool-cases,
}
use fsm_framework.Data.{u32_mod, fac_num_in_mgr_max, CMsg}
use fsm_framework.Timer.{timer_post}
use fsm_framework.Timer.Due.{
  IsOnTime, OnTime, OnTime-later, start_timer-OnTime, stop_timer-OnTime, stop_all_timers-OnTime,
  timer_wake-OnTime, timer_post-OnTime,
}
use fsm_framework.Pump.{
  Hub, FsmCompletionEvent, send_msg, notify_fsm_completed, hub_start_timer, hub_stop_timer,
  hub_stop_all_timers, hub_timer_wake, hub_timer_post, set_completion_callback, post_to_pump,
}
use fsm_framework.Flow.Laws.{Follows-IsLawful}
use fsm_framework.Factory.{FsmClass, Cfactory, new_factory, set_fac_mgr, fac_msg_prc}
use fsm_framework.Factory.Invariant.{IsValid, fac_msg_prc-IsValid}
use fsm_framework.Factory.Work.{Planned}
use fsm_framework.Factory.Effects.{fac_msg_prc-same, IsStable, fac_msg_prc-stable}
use fsm_framework.Manager.{
  Manager, new_manager, register_factory, dispatch_msg, dispatch_to, with_pump, start,
}
use fsm_framework.Manager.Registry.{
  DistinctIds, DistinctIds-append, DistinctIds-set, register_factory_outcome,
}
use fsm_framework.Manager.Lifecycle.{start_outcome}
use fsm_framework.Manager.Routing.{dispatch_msg_cases}
use fsm_framework.System.{
  Step, sends, registers, starts, stops, worker_ends, joins, starts_timer, stops_timer,
  stops_timers, timer_wakes, timer_posts, sets_callback, time_passes, Reach, here, next, handles,
}

abbrev pub HubOnTime : Hub → Type 0
HubOnTime h = OnTime h.clock h.timers.timer_list

-- A factory of a manager that has handled `n` messages.
pub record IsSound (n : ℕ) (fac : Cfactory) : Type 0 where
  pub valid : IsValid fac
  pub planned : Planned fac.class
  pub owned : fac.has_mgr ≡ true
  pub counted : fac.next_fsm_id ≤ n + 1

pub record Inv (n : ℕ) (g : Manager) : Type 0 where
  pub few : length g.fac_list ≤ fac_num_in_mgr_max
  pub distinct : DistinctIds g.fac_list
  pub sound : All (IsSound n) g.fac_list
  pub on_time : HubOnTime g.hub
  pub worker : g.running ≡ true → g.joinable ≡ true

new_manager-Inv : Inv 0 new_manager
new_manager-Inv = record {
  few = omega arith;
  distinct = tt;
  sound = tt;
  on_time = tt;
  worker = λ e. cc;
}

-- A step that changes the hub alone.
pub hub-Inv : (n : ℕ) (g : Manager) (h : Hub) → HubOnTime h → Inv n g → Inv n (record g { hub = h })
hub-Inv n g h o v = record {
  few = v.few;
  distinct = v.distinct;
  sound = v.sound;
  on_time = o;
  worker = v.worker;
}

send_msg-OnTime : (h : Hub) (m : CMsg) → HubOnTime h → HubOnTime (send_msg h m).0
unfolding send_msg
send_msg-OnTime h m o = elim (Bool-cases h.stopped) [ inl y ↦ rw y o | inr n ↦ rw n o ]

told-OnTime :
    (e : FsmCompletionEvent) (h : Hub) → HubOnTime h → HubOnTime (notify_fsm_completed h e)
unfolding notify_fsm_completed
told-OnTime e h o = elim (Bool-cases h.has_callback) [ inl y ↦ rw y o | inr n ↦ rw n o ]

HubOnTime-IsStable : IsStable HubOnTime
HubOnTime-IsStable = record {
  enqueued = λ m h o. o;
  timed = λ ms m h o. All-append (IsOnTime h.clock) h.timers.timer_list _ o (inl refl, tt);
  told = told-OnTime;
}

posted-OnTime : (o : Option CMsg) (h : Hub) → HubOnTime h → HubOnTime (post_to_pump o h)
posted-OnTime none h x = x
posted-OnTime (some m) h x = send_msg-OnTime h m x

timer_post-HubOnTime : (h : Hub) (i : ℕ) → HubOnTime h → HubOnTime (hub_timer_post h i)
unfolding hub_timer_post
timer_post-HubOnTime h i o =
    posted-OnTime (timer_post h.timers i).1 (record h { timers = (timer_post h.timers i).0 })
      (timer_post-OnTime h.clock i h.timers o).0

pub new_factory-IsSound :
    (n : ℕ) (c : FsmClass) (id : ℕ) → Planned c → IsSound n (set_fac_mgr (new_factory c id))
new_factory-IsSound n c id w = record {
  valid = record { capped = omega arith; ids = omega arith; lawful = Follows-IsLawful c w.0 w.1 };
  planned = w;
  owned = refl;
  counted = omega arith;
}

register-Inv :
    (n : ℕ) (g : Manager) (c : FsmClass) (id : ℕ)
    → Planned c
    → Inv n g
    → Inv n (register_factory g (some (new_factory c id))).0
register-Inv n g c id w v = elim (register_factory_outcome g (new_factory c id)) [
  | inr (_, r) ↦ rw r v
  | inl (fits, r) ↦ rw r (record {
    few = omega (arith, length-append {0} g.fac_list (set_fac_mgr (new_factory c id) ∷ []));
    distinct = DistinctIds-append g.fac_list (set_fac_mgr (new_factory c id)) v.distinct fits.1;
    sound =
        All-append (IsSound n) g.fac_list (set_fac_mgr (new_factory c id) ∷ []) v.sound
          (new_factory-IsSound n c id w, tt);
    on_time = v.on_time;
    worker = v.worker;
  })
]

start-Inv : (n : ℕ) (g : Manager) → Inv n g → Inv n (start g).0
start-Inv n g v = elim (start_outcome g) [
  | inl (_, r) ↦ rw r v
  | inr (_, _, r) ↦ rw r (record {
    few = v.few;
    distinct = v.distinct;
    sound = v.sound;
    on_time = v.on_time;
    worker = λ _. refl;
  })
]

-- Every step that handles no message keeps the invariant.
Step-Inv : {n : ℕ} {g g' : Manager} → Step g g' → Inv n g → Inv n g'
unfolding hub_start_timer hub_stop_timer hub_stop_all_timers hub_timer_wake set_completion_callback
Step-Inv {n} (sends g m) v = hub-Inv n g (send_msg g.hub m).0 (send_msg-OnTime g.hub m v.on_time) v
Step-Inv {n} (registers g c id w) v = register-Inv n g c id w v
Step-Inv {n} (starts g) v = start-Inv n g v
Step-Inv {n} (stops g) v = hub-Inv n g (record (g.hub) { stopped = true }) v.on_time v
Step-Inv {n} (worker_ends g e z) v = record {
  few = v.few;
  distinct = v.distinct;
  sound = v.sound;
  on_time = v.on_time;
  worker = λ b. cc;
}
Step-Inv {n} (joins g e) v = record {
  few = v.few;
  distinct = v.distinct;
  sound = v.sound;
  on_time = v.on_time;
  worker = λ b. cc;
}
Step-Inv {n} (starts_timer g ms m) v =
    hub-Inv n g _ (start_timer-OnTime g.hub.clock ms m g.hub.timers v.on_time) v
Step-Inv {n} (stops_timer g id) v =
    hub-Inv n g _ (stop_timer-OnTime g.hub.clock id g.hub.timers v.on_time) v
Step-Inv {n} (stops_timers g) v =
    hub-Inv n g _ (stop_all_timers-OnTime g.hub.clock g.hub.timers v.on_time) v
Step-Inv {n} (timer_wakes g i) v =
    hub-Inv n g _ (timer_wake-OnTime g.hub.clock i g.hub.timers v.on_time) v
Step-Inv {n} (timer_posts g i) v =
    hub-Inv n g (hub_timer_post g.hub i) (timer_post-HubOnTime g.hub i v.on_time) v
Step-Inv {n} (sets_callback g b) v = hub-Inv n g _ v.on_time v
Step-Inv {n} (time_passes g ms) v =
    hub-Inv n g (record (g.hub) { clock = g.hub.clock + ms })
      (OnTime-later g.hub.clock (g.hub.clock + ms) g.hub.timers.timer_list (omega arith) v.on_time)
      v

IsSound-later : (n : ℕ) (cs : List Cfactory) → All (IsSound n) cs → All (IsSound (suc n)) cs
IsSound-later n [] a = tt
IsSound-later n (c ∷ cs) a = (
  record {
    valid = a.0.valid;
    planned = a.0.planned;
    owned = a.0.owned;
    counted = omega (arith, a.0.counted);
  },
  IsSound-later n cs a.1,
)

-- Handling a message keeps a factory sound.
fac_msg_prc-IsSound :
    (n : ℕ) (fac : Cfactory) (m : CMsg) (h : Hub)
    → IsSound n fac
    → n + 2 < u32_mod
    → IsSound (suc n) (fac_msg_prc fac m h).0
fac_msg_prc-IsSound n fac m h s b =
    let same = fac_msg_prc-same fac m h in
    record {
      valid = fac_msg_prc-IsValid fac m h s.valid (omega (arith, s.counted));
      planned = rw same.2 s.planned;
      owned = same.1 ∙ s.owned;
      counted = omega (arith, s.counted, same.3);
    }

dispatch_msg-Inv :
    (n : ℕ) (g : Manager) (m : CMsg) → n + 2 < u32_mod → Inv n g → Inv (suc n) (dispatch_msg g m).0
unfolding dispatch_to
dispatch_msg-Inv n g m b v = elim (dispatch_msg_cases g m) [
  | inl r ↦ rw r (record {
    few = v.few;
    distinct = v.distinct;
    sound = IsSound-later n g.fac_list v.sound;
    on_time = v.on_time;
    worker = v.worker;
  })
  | inr (i, fac, at, r) ↦
      let s = All-get_elem? (IsSound n) g.fac_list i fac v.sound at in
      let fac' = (fac_msg_prc fac m g.hub).0 in
      rw r (record {
        few = omega (arith, length-set {0} g.fac_list i fac', v.few);
        distinct =
            DistinctIds-set g.fac_list i fac fac' v.distinct at (fac_msg_prc-same fac m g.hub).0;
        sound =
            All-set (IsSound (suc n)) g.fac_list i fac' (IsSound-later n g.fac_list v.sound)
              (fac_msg_prc-IsSound n fac m g.hub s b);
        on_time =
            fac_msg_prc-stable HubOnTime HubOnTime-IsStable fac s.planned.0 m g.hub s.planned.1
              v.on_time;
        worker = v.worker;
      })
]

-- The invariant holds of whatever the threads reach from a new manager with fewer than 2 ^ 32 - 1
-- messages handled, where the classes of the factories that are registered follow plans: at most 8
-- factories with distinct ids; each owns at most 32 FSMs, all of them live, with distinct ids from
-- 1 on; no timer's thread has woken before its time; a worker that runs is joinable.
pub Reach-Inv : {n : ℕ} {g : Manager} → Reach n g → n + 1 < u32_mod → Inv n g
Reach-Inv here b = new_manager-Inv
Reach-Inv (next r s) b = Step-Inv s (Reach-Inv r b)
Reach-Inv (handles {n = k} {g = g} m rest r e) b =
    let v = Reach-Inv r (omega arith) in
    dispatch_msg-Inv k (with_pump rest g) m (omega arith)
      (hub-Inv k g (record (g.hub) { pump = rest }) v.on_time v)
