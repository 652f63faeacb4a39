-- ===== src/Flow/Laws.antt =====
-- What the factory and the manager rely on of a business FSM, derived from its plan.
use fsm_framework.Base.{
  ℕ, ◌+◌, ◌<◌, ◌≡◌, refl, ◌∙◌, ap, inl, inr, Bool, true, false, ◌&&◌, not, List, [], ◌∷◌, ◌++◌,
  arith, Bool-cases,
}
use fsm_framework.Data.{
  Tstate, idle, working, kill_fsm, MsgType, msg_init, msg_connect, msg_req, msg_resp, msg_timeout,
  msg_close, CMsg,
}
use fsm_framework.Timer.{Timer, Phase, sleeping, expired, finished}
use fsm_framework.Pump.{Hub}
use fsm_framework.Fsm.{Cfsm}
use fsm_framework.Factory.{FsmClass}
use fsm_framework.Factory.Invariant.{IsLawful}
use fsm_framework.Flow.{
  Reaction, refuse, post_next, post_later, finish, Plan, reg_plan, auth_plan, follow_up, react,
  Follows,
}

react-keeps :
    (r : Reaction) (b : Bool) (f : Cfsm) (m : CMsg) (h : Hub)
    → ((react r b f m h).0.fsm_id ≡ f.fsm_id) × ((react r b f m h).0.has_factory ≡ f.has_factory)
react-keeps (refuse e) b f m h = (refl, refl)
react-keeps _ b f m h = (refl, refl)

-- A class that follows a plan is one that a factory can manage.
pub Follows-IsLawful : (c : FsmClass) (p : Plan) → Follows c p → IsLawful c
Follows-IsLawful c p w = record {
  created = λ f e. ground (arith, w.starts f e);
  keeps_id = λ b f m h.
      ap (λ (t : Cfsm × Hub × _). t.0.fsm_id) (w.reacts b f m h)
      ∙ (react-keeps (p f.state m.type) (f.has_factory && b) f m h).0;
  keeps_factory = λ b f m h.
      ap (λ (t : Cfsm × Hub × _). t.0.has_factory) (w.reacts b f m h)
      ∙ (react-keeps (p f.state m.type) (f.has_factory && b) f m h).1;
}

-- How much work a message can still cause: more than what it posts can.
abbrev pub rank : MsgType → ℕ
rank msg_init = 8
rank msg_connect = 7
rank msg_req = 6
rank msg_resp = 5
rank msg_timeout = 2
rank msg_close = 1

abbrev pub phase_rank : Phase → MsgType → ℕ
phase_rank sleeping e = rank e + 2
phase_rank expired e = rank e + 1
phase_rank finished e = 0

pub rank_pos : (e : MsgType) → 0 < rank e
rank_pos msg_init = omega arith
rank_pos _ = omega arith

abbrev pub Falls : MsgType → Reaction → Type 0
Falls e (refuse x) = Unit {0}
Falls e (post_next e') = rank e' < rank e
Falls e (post_later ms e') = rank e' + 2 < rank e
Falls e finish = Unit {0}

abbrev pub Descends : Plan → Type 0
Descends p = (s : Tstate) (e : MsgType) → Falls e (p s e)

pub reg_plan-Descends : Descends reg_plan
reg_plan-Descends kill_fsm e = tt
reg_plan-Descends idle msg_init = omega arith
reg_plan-Descends working msg_connect = omega arith
reg_plan-Descends _ _ = omega arith

pub auth_plan-Descends : Descends auth_plan
auth_plan-Descends kill_fsm e = tt
auth_plan-Descends idle msg_init = omega arith
auth_plan-Descends working msg_connect = omega arith
auth_plan-Descends _ _ = omega arith

abbrev pub pump_work : List CMsg → ℕ
pump_work [] = 0
pump_work (m ∷ ms) = rank m.type + pump_work ms

abbrev pub timer_work : List Timer → ℕ
timer_work [] = 0
timer_work (t ∷ ts) = phase_rank t.phase t.timeout_msg.type + timer_work ts

-- The work left in the queue and in the timers.
abbrev pub work : Hub → ℕ
work h = pump_work h.pump + timer_work h.timers.timer_list

pub pump_work-append : (ms ns : List CMsg) → pump_work (ms ++ ns) ≡ pump_work ms + pump_work ns
pump_work-append [] ns = omega arith
pump_work-append (m ∷ ms) ns = omega (arith, pump_work-append ms ns)

pub timer_work-append : (ts us : List Timer) → timer_work (ts ++ us) ≡ timer_work ts + timer_work us
timer_work-append [] us = omega arith
timer_work-append (t ∷ ts) us = omega (arith, timer_work-append ts us)

work-react :
    (r : Reaction) (b : Bool) (f : Cfsm) (m : CMsg) (h : Hub)
    → Falls m.type r
    → work (react r b f m h).1 < work h + rank m.type
work-react (refuse e) b f m h d = omega (arith, rank_pos m.type)
work-react finish b f m h d = omega (arith, rank_pos m.type)
work-react (post_next e) b f m h d = elim (Bool-cases (b && not h.stopped)) [
  | inl y ↦ rw y (omega (arith, pump_work-append h.pump (follow_up f m e ∷ [])))
  | inr n ↦ rw n (omega (arith, rank_pos m.type))
]
work-react (post_later ms e) true f m h d = omega (arith, timer_work-append h.timers.timer_list)
work-react (post_later ms e) false f m h d = omega (arith, rank_pos m.type)

-- Whatever a planned FSM posts is less work than the message that it handles.
pub Follows-work :
    (c : FsmClass) (p : Plan)
    → Follows c p
    → Descends p
    → (b : Bool) (f : Cfsm) (m : CMsg) (h : Hub)
    → work (c.process_msg b f m h).1 < work h + rank m.type
Follows-work c p w d b f m h =
    rw (w.reacts b f m h)
      (work-react (p f.state m.type) (f.has_factory && b) f m h (d f.state m.type))

react-stopped :
    (r : Reaction) (b : Bool) (f : Cfsm) (m : CMsg) (h : Hub)
    → (react r b f m h).1.stopped ≡ h.stopped
react-stopped (refuse e) b f m h = refl
react-stopped (post_next e) b f m h = ground arith
react-stopped (post_later ms e) b f m h = ground arith
react-stopped finish b f m h = refl

-- Handling a message does not stop the manager.
pub Follows-stopped :
    (c : FsmClass) (p : Plan)
    → Follows c p
    → (b : Bool) (f : Cfsm) (m : CMsg) (h : Hub) → (c.process_msg b f m h).1.stopped ≡ h.stopped
Follows-stopped c p w b f m h =
    rw (w.reacts b f m h) (react-stopped (p f.state m.type) (f.has_factory && b) f m h)
