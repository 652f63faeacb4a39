-- ===== src/System/Told/Watched.antt =====
-- Runs of the manager of Cfactory_mgr.cpp in which the completion callback is set all along.
use fsm_framework.Base.{
  ℕ, zero, suc, ◌+◌, ◌<◌, ◌≡◌, inl, inr, Bool, true, false, List, ◌∷◌, arith, All-get_elem?,
}
use fsm_framework.Data.{u32_mod, CMsg}
use fsm_framework.Pump.{Hub, FsmCompletionEvent, notify_fsm_completed, set_completion_callback}
use fsm_framework.Factory.Effects.{IsStable, fac_msg_prc-stable}
use fsm_framework.Manager.{Manager, new_manager, dispatch_msg, dispatch_to, with_pump}
use fsm_framework.Manager.Routing.{dispatch_msg_cases}
use fsm_framework.System.{Step, sets_callback, Reach, with_hub}
use fsm_framework.System.Invariant.{IsSound, Inv, hub-Inv, Reach-Inv}

-- The client listens whenever it is said to.
abbrev pub Listens : Bool → Hub → Type 0
Listens x h = x ≡ true → h.has_callback ≡ true

-- What a manager reaches with `n` messages handled; with `x`, the completion callback is set all along.
pub data Watched (x : Bool) : ℕ → Manager → Type 0 where
  here : Watched x zero (with_hub (set_completion_callback new_manager.hub x) new_manager)
  next :
      {n : ℕ} {g g' : Manager}
      → Watched x n g
      → Step g g'
      → (x ≡ true → g'.hub.has_callback ≡ true)
      → Watched x n g'
  handles :
      {n : ℕ} {g : Manager} (m : CMsg) (rest : List CMsg)
      → Watched x n g
      → g.hub.pump ≡ m ∷ rest
      → Watched x (suc n) (dispatch_msg (with_pump rest g) m).0

pub Watched-Reach : {x : Bool} {n : ℕ} {g : Manager} → Watched x n g → Reach n g
Watched-Reach {x} here = Reach.next Reach.here (sets_callback new_manager x)
Watched-Reach (next w s l) = Reach.next (Watched-Reach w) s
Watched-Reach (handles m rest w e) = Reach.handles m rest (Watched-Reach w) e

notify-Listens :
    (x : Bool) (e : FsmCompletionEvent) (h : Hub)
    → Listens x h
    → Listens x (notify_fsm_completed h e)
unfolding notify_fsm_completed
notify-Listens x e h l = λ y. ground (arith, l y)

Listens-IsStable : (x : Bool) → IsStable (Listens x)
Listens-IsStable x = record {
  enqueued = λ m h l. l;
  timed = λ ms m h l. l;
  told = notify-Listens x;
}

dispatch_msg-Listens :
    (x : Bool) (n : ℕ) (g : Manager) (m : CMsg)
    → Inv n g
    → Listens x g.hub
    → Listens x (dispatch_msg g m).0.hub
unfolding dispatch_to
dispatch_msg-Listens x n g m v l = elim (dispatch_msg_cases g m) [
  | inl r ↦ rw r l
  | inr (i, fac, at, r) ↦
      let s = All-get_elem? (IsSound n) g.fac_list i fac v.sound at in
      rw r
        (fac_msg_prc-stable (Listens x) (Listens-IsStable x) fac s.planned.0 m g.hub s.planned.1 l)
]

-- In a run with the callback always set, it is set.
pub Watched-Listens :
    {x : Bool} {n : ℕ} {g : Manager} → Watched x n g → n + 1 < u32_mod → Listens x g.hub
unfolding set_completion_callback
Watched-Listens here b = λ y. y
Watched-Listens (next w s l) b = l
Watched-Listens {x} (handles {n = k} {g = g} m rest w e) b =
    let c : k + 1 < u32_mod = omega arith in
    dispatch_msg-Listens x k (with_pump rest g) m
      (hub-Inv k g (record (g.hub) { pump = rest }) (Reach-Inv (Watched-Reach w) c).on_time
        (Reach-Inv (Watched-Reach w) c))
      (Watched-Listens w c)

pub Reach-Watched : {n : ℕ} {g : Manager} → Reach n g → Watched false n g
unfolding set_completion_callback
Reach-Watched Reach.here = here
Reach-Watched (Reach.next r s) = next (Reach-Watched r) s (λ q. cc)
Reach-Watched (Reach.handles m rest r e) = handles m rest (Reach-Watched r) e
