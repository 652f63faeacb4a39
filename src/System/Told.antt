-- ===== src/System/Told.antt =====
-- Which ends of FSMs `NotifyFsmCompleted` of Cfactory_mgr.cpp has told the client of, and how many FSMs of a
-- factory of Cfactory.cpp have ended.
pub mod Watched
pub mod Handled
pub mod Run
pub mod Drain
use fsm_framework.Base.{
  ℕ, suc, ◌+◌, ◌≤◌, ◌<◌, ◌≡◌, refl, ◌∙◌, ◌≢◌, inl, inr, ◌==◌, ◌&&◌, leb, Bool, true, false, List,
  [], ◌∷◌, ◌++◌, Option, none, some, arith, if◌then◌else◌, Bool-cases,
}
use fsm_framework.Data.{CMsg}
use fsm_framework.Pump.{Hub, FsmCompletionEvent, send_msg, notify_fsm_completed}
use fsm_framework.Fsm.{Cfsm}
use fsm_framework.Flow.{Reaction, refuse, post_next, post_later, finish, react}
use fsm_framework.Factory.{Cfactory}
use fsm_framework.Factory.Frame.{lookup_fsm}

-- How often the client was told of the end of the FSM `id` of the service.
abbrev pub told : ℕ → ℕ → List FsmCompletionEvent → ℕ
told sid id [] = 0
told sid id (e ∷ es) = (if (e.service_id == sid) && (e.fsm_id == id) then 1 else 0) + told sid id es

-- How many FSMs have had the id and are gone, with the ids given out from 1 to below `hi` and the id found so.
abbrev pub departed : ℕ → ℕ → Option Cfsm → ℕ
departed id hi (some f) = 0
departed id hi none = if leb 1 id && leb (suc id) hi then 1 else 0

-- How many FSMs of the factory with this id have ended: none or one.
abbrev pub ended : ℕ → Cfactory → ℕ
ended id fac = departed id fac.next_fsm_id (lookup_fsm id fac.fsm_list)

-- The client was told of no end that has not been, and of each that has, if it always listened.
abbrev pub Accounts : Bool → ℕ → ℕ → Type 0
Accounts x t d = (t ≤ d) × (x ≡ true → t ≡ d)

-- The ends of the factory's FSMs that the client was told of.
abbrev pub Accounted : Bool → List FsmCompletionEvent → Cfactory → Type 0
Accounted x es fac = (id : ℕ) → Accounts x (told fac.fac_id id es) (ended id fac)

pub told-append :
    (sid id : ℕ) (es : List FsmCompletionEvent) (e : FsmCompletionEvent)
    → told sid id (es ++ e ∷ []) ≡ told sid id es + told sid id (e ∷ [])
told-append sid id [] e = omega arith
told-append sid id (x ∷ es) e = omega (arith, told-append sid id es e)

-- What an FSM does to the hub tells nobody.
pub react-notified :
    (r : Reaction) (b : Bool) (f : Cfsm) (m : CMsg) (h : Hub)
    → ((react r b f m h).1.notified ≡ h.notified)
      × ((react r b f m h).1.has_callback ≡ h.has_callback)
react-notified (refuse e) b f m h = (refl, refl)
react-notified (post_next e) b f m h = ground arith
react-notified (post_later ms e) true f m h = (refl, refl)
react-notified (post_later ms e) false f m h = (refl, refl)
react-notified finish b f m h = (refl, refl)

pub send_msg-notified :
    (h : Hub) (m : CMsg)
    → ((send_msg h m).0.notified ≡ h.notified) × ((send_msg h m).0.has_callback ≡ h.has_callback)
unfolding send_msg
send_msg-notified h m = ground arith

-- The events after the client is told, if it listens.
pub notify_fsm_completed-notified :
    (h : Hub) (e : FsmCompletionEvent)
    → (notify_fsm_completed h e).notified
      ≡ (if h.has_callback then h.notified ++ e ∷ [] else h.notified)
unfolding notify_fsm_completed
notify_fsm_completed-notified h e = ground arith
