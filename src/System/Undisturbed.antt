-- ===== src/System/Undisturbed.antt =====
-- Runs of the program in which nobody stops the manager of Cfactory_mgr.cpp, nobody cancels a timer, and
-- clients send messages as HttpServer.cpp does, with `fsmId` 0.
use fsm_framework.Base.{ℕ, zero, suc, ◌+◌, ◌≡◌, refl, Bool, true, false, List, ◌∷◌, some}
use fsm_framework.Data.{
  idle, working, MsgType, msg_init, msg_connect, msg_req, msg_resp, msg_timeout, msg_close, CMsg,
}
use fsm_framework.Pump.{hub_timer_wake, hub_timer_post, set_completion_callback}
use fsm_framework.Flow.{
  Reaction, refuse, post_next, post_later, finish, Plan, reg_plan, auth_plan, Follows,
}
use fsm_framework.Flow.Laws.{Descends}
use fsm_framework.Factory.{FsmClass, new_factory}
use fsm_framework.Manager.{
  Manager, new_manager, register_factory, post, dispatch_msg, with_pump, start,
}
use fsm_framework.System.{with_hub}

abbrev pub goes_on : Reaction → Bool
goes_on (refuse e) = false
goes_on (post_next e) = true
goes_on (post_later ms e) = true
goes_on finish = true

-- The reaction is no refusal, and a working FSM does not refuse what it posts.
abbrev pub Goes : Plan → Reaction → Type 0
Goes p (refuse e) = ⊥
Goes p (post_next e) = goes_on (p working e) ≡ true
Goes p (post_later ms e) = goes_on (p working e) ≡ true
Goes p finish = Unit {0}

-- An FSM that runs by the plan never refuses what it posts to itself.
pub record IsSteady (p : Plan) : Type 0 where
  pub begins : Goes p (p idle msg_init)
  pub goes : (e : MsgType) → goes_on (p working e) ≡ true → Goes p (p working e)

pub reg_plan-IsSteady : IsSteady reg_plan
reg_plan-IsSteady = record { begins = refl; goes = go }
  where
    go : (e : MsgType) → goes_on (reg_plan working e) ≡ true → Goes reg_plan (reg_plan working e)
    go msg_init h = cc
    go msg_connect h = refl
    go msg_req h = refl
    go msg_resp h = refl
    go msg_timeout h = refl
    go msg_close h = tt

pub auth_plan-IsSteady : IsSteady auth_plan
auth_plan-IsSteady = record { begins = refl; goes = go }
  where
    go : (e : MsgType) → goes_on (auth_plan working e) ≡ true → Goes auth_plan (auth_plan working e)
    go msg_init h = cc
    go msg_connect h = refl
    go msg_req h = refl
    go msg_resp h = refl
    go msg_timeout h = cc
    go msg_close h = tt

abbrev pub Steady : FsmClass → Type 0
Steady c = (p : Plan) × Follows c p × Descends p × IsSteady p

-- What clients do.
pub data Client : Manager → Manager → Type 0 where
  sends : (g : Manager) (m : CMsg) → m.fsm_id ≡ 0 → Client g (post g m).0
  registers :
      (g : Manager) (c : FsmClass) (id : ℕ)
      → Steady c
      → Client g (register_factory g (some (new_factory c id))).0
  starts : (g : Manager) → Client g (start g).0
  sets_callback : (g : Manager) (b : Bool) → Client g (with_hub (set_completion_callback g.hub b) g)

-- What the worker and the timers' threads do without clients, from the manager `g` on that has handled
-- `n` messages.
pub data Drives (n : ℕ) (g : Manager) : ℕ → Manager → Type 0 where
  done : Drives n g n g
  time_passes :
      {k : ℕ} {g' : Manager} (ms : ℕ)
      → Drives n g k g'
      → Drives n g k (with_hub (record (g'.hub) { clock = g'.hub.clock + ms }) g')
  timer_wakes :
      {k : ℕ} {g' : Manager} (i : ℕ)
      → Drives n g k g'
      → Drives n g k (with_hub (hub_timer_wake g'.hub i) g')
  timer_posts :
      {k : ℕ} {g' : Manager} (i : ℕ)
      → Drives n g k g'
      → Drives n g k (with_hub (hub_timer_post g'.hub i) g')
  handles :
      {k : ℕ} {g' : Manager} (m : CMsg) (rest : List CMsg)
      → Drives n g k g'
      → g'.hub.pump ≡ m ∷ rest
      → Drives n g (suc k) (dispatch_msg (with_pump rest g') m).0

-- What a new manager reaches, in any order, with so many messages handled.
pub data Undisturbed : ℕ → Manager → Type 0 where
  here : Undisturbed zero new_manager
  serves : {n : ℕ} {g g' : Manager} → Undisturbed n g → Client g g' → Undisturbed n g'
  drives : {n k : ℕ} {g g' : Manager} → Undisturbed n g → Drives n g k g' → Undisturbed k g'
