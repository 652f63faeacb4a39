-- ===== src/System/Balance.antt =====
-- The whole manager of Cfactory_mgr.cpp in an undisturbed run: each FSM has one message on its way, and no
-- message is for an FSM that is gone.
use fsm_framework.Base.{
  ℕ, ◌≤◌, ◌≡◌, refl, ◌∙◌, ◌≢◌, ◌⊎◌, inl, inr, true, false, List, [], ◌∷◌, ◌++◌, some, arith, All,
  All-append, All-map, Bool-cases,
}
use fsm_framework.Data.{CMsg}
use fsm_framework.Timer.{Timer, finished}
use fsm_framework.Pump.{Hub, FsmCompletionEvent, notify_fsm_completed}
use fsm_framework.Flow.{Plan}
use fsm_framework.Factory.{FsmClass, Cfactory, new_factory, set_fac_mgr}
use fsm_framework.Factory.Effects.{IsStable}
use fsm_framework.Manager.{Manager, register_factory}
use fsm_framework.Manager.Registry.{
  IsFree, DistinctIds, DistinctIds-append, register_factory_outcome,
}
use fsm_framework.System.Pending.{pending, tokens, Adds}
use fsm_framework.System.Undisturbed.{Steady}
use fsm_framework.System.Tracking.{Fits, Tracks}
use fsm_framework.System.Handling.{Tracks-hub}
use fsm_framework.System.Invariant.{new_factory-IsSound}

-- The timer has ended, or nobody cancelled it.
abbrev pub IsArmed : Timer → Type 0
IsArmed t = (t.phase ≡ finished) ⊎ (t.ctrl.active ≡ true)

-- The manager accepts messages, and no timer that has not ended is cancelled.
abbrev pub IsOpen : Hub → Type 0
IsOpen h = (h.stopped ≡ false) × All IsArmed h.timers.timer_list

IsOpen-told : (e : FsmCompletionEvent) (h : Hub) → IsOpen h → IsOpen (notify_fsm_completed h e)
unfolding notify_fsm_completed
IsOpen-told e h o = elim (Bool-cases h.has_callback) [ inl y ↦ rw y o | inr n ↦ rw n o ]

pub IsOpen-IsStable : IsStable IsOpen
IsOpen-IsStable = record {
  enqueued = λ m h o. (o.0, o.1);
  timed = λ ms m h o. (o.0, All-append IsArmed h.timers.timer_list _ o.1 (inr refl, tt));
  told = IsOpen-told;
}

-- The hub and the factories of a manager that has handled `n` messages.
pub record IsBalanced (n : ℕ) (h : Hub) (cs : List Cfactory) : Type 0 where
  pub opened : IsOpen h
  pub distinct : DistinctIds cs
  pub tracks : All (Tracks n h) cs
  pub quiet : (sid : ℕ) → IsFree sid cs → (id : ℕ) → id ≢ 0 → tokens sid id (pending h) ≡ 0

-- Messages that name no FSM.
abbrev pub ForNone : List CMsg → Type 0
ForNone ms = All (λ (m : CMsg). m.fsm_id ≡ 0) ms

ForNone-tokens : (sid id : ℕ) (ms : List CMsg) → ForNone ms → id ≢ 0 → tokens sid id ms ≡ 0
ForNone-tokens sid id [] a i = refl
ForNone-tokens sid id (m ∷ ms) a i = ground (arith, ForNone-tokens sid id ms a.1 i)

ForNone-Fits : (p : Plan) (sid : ℕ) (ms : List CMsg) → ForNone ms → All (Fits p sid) ms
ForNone-Fits p sid ms a = All-map (λ m z s i. absurd (i z)) ms a

-- A step of the hub that adds at most messages that name no FSM.
pub hub-IsBalanced :
    (n k : ℕ) (h h' : Hub) (cs : List Cfactory) (xs : List CMsg)
    → n ≤ k
    → IsOpen h'
    → Adds xs (pending h) (pending h')
    → ForNone xs
    → IsBalanced n h cs
    → IsBalanced k h' cs
hub-IsBalanced n k h h' cs xs later o adds none_for v =
    let same : (sid id : ℕ) → id ≢ 0 → tokens sid id (pending h') ≡ tokens sid id (pending h) =
      λ sid id i. omega (arith, adds.counts sid id, ForNone-tokens sid id xs none_for i) in
    record {
      opened = o;
      distinct = v.distinct;
      tracks =
          All-map
            (λ fac t.
              Tracks-hub n k h h' fac t later (λ id i. same fac.fac_id id i)
                (adds.all (Fits t.plan fac.fac_id) t.fits
                  (ForNone-Fits t.plan fac.fac_id xs none_for)))
            cs v.tracks;
      quiet = λ sid free id i. same sid id i ∙ v.quiet sid free id i;
    }

-- No message is for an FSM of the service.
quiet-Fits :
    (p : Plan) (sid : ℕ) (ms : List CMsg)
    → ((id : ℕ) → id ≢ 0 → tokens sid id ms ≡ 0)
    → All (Fits p sid) ms
quiet-Fits p sid [] q = tt
quiet-Fits p sid (m ∷ ms) q = (
  (λ s i. absurd (ground (arith, q m.fsm_id i))),
  quiet-Fits p sid ms (λ id i. omega (arith, q id i)),
)

pub IsFree-before : (sid : ℕ) (cs ds : List Cfactory) → IsFree sid (cs ++ ds) → IsFree sid cs
IsFree-before sid [] ds a = tt
IsFree-before sid (c ∷ cs) ds a = (a.0, IsFree-before sid cs ds a.1)

pub register-IsBalanced :
    (n : ℕ) (g : Manager) (c : FsmClass) (id : ℕ)
    → Steady c
    → IsBalanced n g.hub g.fac_list
    → let g' = (register_factory g (some (new_factory c id))).0 in IsBalanced n g'.hub g'.fac_list
register-IsBalanced n g c id (p, w, d, st) v =
    let new = set_fac_mgr (new_factory c id) in
    let s = new_factory-IsSound n c id (p, w, d) in
    elim (register_factory_outcome g (new_factory c id)) [
      | inr (_, r) ↦ rw r v
      | inl (fits, r) ↦ rw r (record {
        opened = v.opened;
        distinct = DistinctIds-append g.fac_list new v.distinct fits.1;
        tracks = All-append (Tracks n g.hub) g.fac_list (new ∷ []) v.tracks (
          record {
            plan = p;
            follows = w;
            steady = st;
            valid = s.valid;
            owned = s.owned;
            counted = s.counted;
            tracked = λ j i. v.quiet id fits.1 j i;
            fits = quiet-Fits p id (pending g.hub) (v.quiet id fits.1);
          },
          tt,
        );
        quiet = λ sid free. v.quiet sid (IsFree-before sid g.fac_list (new ∷ []) free);
      })
    ]
