-- ===== src/Services/EndToEnd.antt =====
-- From the first message of a service to the completion event: the flows of README.md and
-- docs/design.md.
use fsm_framework.Base.{
  ℕ, ◌+◌, ◌<◌, ◌≡◌, refl, ◌∙◌, sym, ap, true, List, [], ◌∷◌, ◌++◌, Option, none, some, arith,
  if◌then◌else◌, length,
}
use fsm_framework.Data.{
  u32_mod, fsm_num_in_fac, idle, working, success, MsgType, msg_init, msg_connect, msg_req,
  msg_resp, msg_timeout, msg_close, CMsg,
}
use fsm_framework.Pump.{Hub, FsmCompletionEvent, send_msg, notify_fsm_completed}
use fsm_framework.Fsm.{Cfsm, new_fsm}
use fsm_framework.Flow.{
  Plan, post_next, post_later, finish, reg_plan, auth_plan, add_timer, follow_up,
}
use fsm_framework.Factory.Frame.{lookup_fsm_below, next_id_free}
use fsm_framework.Manager.{Manager, post, pump_once}
use fsm_framework.Manager.Session.{Serves}
use fsm_framework.System.{with_hub}
use fsm_framework.Services.Stage.{
  Stage, Serves-with_hub, Stage-start, Stage-next, Stage-end, Stage-hub,
}
use fsm_framework.Services.Flows.{pump_times, fire, request, quiet, fired, fire-add_timer}

-- The FSM of the flow once it works.
abbrev pub worker : ℕ → Cfsm
worker id = record (new_fsm working) { fsm_id = id; has_factory = true }

-- A manager that is ready for a first message of the service: it accepts messages and has none
-- queued, and the factory has room, a counter that does not wrap, and makes FSMs that start idle.
pub record IsReady (g : Manager) (h : Hub) (i sid : ℕ) (p : Plan) (M : ℕ → Option Cfsm)
    : Type 0 where
  pub serves : Serves g i sid p M
  pub is_quiet : g.hub ≡ quiet h
  pub room : length serves.fac.fsm_list < fsm_num_in_fac
  pub counter : serves.fac.next_fsm_id + 1 < u32_mod
  pub made : serves.fac.class.create_fsm ≡ some (new_fsm idle)

post-quiet :
    (g : Manager) (h : Hub) (m : CMsg)
    → g.hub ≡ quiet h
    → (post g m).0.hub ≡ record (quiet h) { pump = m ∷ [] }
unfolding send_msg
post-quiet g h m e = rw (ap (λ (k : Hub). (send_msg k m).0) e)

notify-pump : (h : Hub) (e : FsmCompletionEvent) → (notify_fsm_completed h e).pump ≡ h.pump
unfolding notify_fsm_completed
notify-pump h e = ground arith

notify-notified :
    (h : Hub) (e : FsmCompletionEvent)
    → (notify_fsm_completed h e).notified
      ≡ (if h.has_callback then h.notified ++ e ∷ [] else h.notified)
unfolding notify_fsm_completed
notify-notified h e = ground arith

module _ (g : Manager) (h : Hub) (i sid : ℕ) (M : ℕ → Option Cfsm) (session : ℕ)
    (payload : List ℕ) where
  -- The first four messages: the FSM is made, and goes on until it waits for its timer.
  first_half :
      (p : Plan) (ms : ℕ) (e : MsgType) (r : IsReady g h i sid p M)
      → p idle msg_init ≡ post_next msg_connect
      → p working msg_connect ≡ post_next msg_req
      → p working msg_req ≡ post_next msg_resp
      → p working msg_resp ≡ post_later ms e
      → let f = worker r.serves.fac.next_fsm_id in
        let m = request sid session payload in
        Stage i sid p M (pump_times 4 (post g m).0) (add_timer ms (follow_up f m e) (quiet h)) f
  unfolding Serves-with_hub
  first_half p ms e r p₁ p₂ p₃ p₄ =
      let id = r.serves.fac.next_fsm_id in
      let f = worker id in
      let m = request sid session payload in
      let g₀ = (post g m).0 in
      let s₀ : Serves g₀ i sid p M = Serves-with_hub g g₀.hub i sid p M r.serves in
      let h₀ = record (quiet h) { pump = m ∷ [] } in
      let none_is_0 : M 0 ≡ none =
        sym (r.serves.holds 0)
        ∙ lookup_fsm_below 1 id 0 r.serves.fac.fsm_list r.serves.valid.ids (omega arith) in
      let g₁ = (pump_once g₀).0 in
      let m₁ = follow_up f m msg_connect in
      let h₁ = record (quiet h) { pump = m₁ ∷ [] } in
      let at₁ : Stage i sid p M g₁ h₁ f = rw p₁ at (
        Stage-start i sid p M g₀ h₀ m (new_fsm idle) s₀ (post-quiet g h m r.is_quiet) refl refl
          none_is_0 refl r.counter r.room r.made (rw p₁ refl) (rw p₁ refl)) in
      let g₂ = (pump_once g₁).0 in
      let m₂ = follow_up f m msg_req in
      let h₂ = record (quiet h) { pump = m₂ ∷ [] } in
      let at₂ : Stage i sid p M g₂ h₂ f =
        rw p₂ at
          (Stage-next i sid p M g₁ h₁ m₁ f at₁ refl refl refl refl (rw p₂ refl) (rw p₂ refl)) in
      let g₃ = (pump_once g₂).0 in
      let m₃ = follow_up f m msg_resp in
      let h₃ = record (quiet h) { pump = m₃ ∷ [] } in
      let at₃ : Stage i sid p M g₃ h₃ f =
        rw p₃ at
          (Stage-next i sid p M g₂ h₂ m₂ f at₂ refl refl refl refl (rw p₃ refl) (rw p₃ refl)) in
      rw p₄ at (Stage-next i sid p M g₃ h₃ m₃ f at₃ refl refl refl refl (rw p₄ refl) (rw p₄ refl))

  -- The timer's message is queued; no other FSM has the id.
  timer_half :
      (p : Plan) (ms : ℕ) (e : MsgType) (r : IsReady g h i sid p M)
      → p idle msg_init ≡ post_next msg_connect
      → p working msg_connect ≡ post_next msg_req
      → p working msg_req ≡ post_next msg_resp
      → p working msg_resp ≡ post_later ms e
      → let f = worker r.serves.fac.next_fsm_id in
        let m = request sid session payload in
        let g' = pump_times 4 (post g m).0 in
        let k = length h.timers.timer_list in
        Stage i sid p M (with_hub (fire ms k g'.hub) g') (fired ms (follow_up f m e) h) f
        × (M r.serves.fac.next_fsm_id ≡ none)
  timer_half p ms e r p₁ p₂ p₃ p₄ =
      let f = worker r.serves.fac.next_fsm_id in
      let m = request sid session payload in
      let k = length h.timers.timer_list in
      let s =
        Stage-hub i sid p M (pump_times 4 (post g m).0) (add_timer ms (follow_up f m e) (quiet h)) f
          (fire ms k) (first_half p ms e r p₁ p₂ p₃ p₄) in
      (
        (s.0 ∙ fire-add_timer ms (follow_up f m e) h, s.1),
        sym (r.serves.holds r.serves.fac.next_fsm_id)
            ∙ next_id_free 1 r.serves.fac.next_fsm_id r.serves.fac.fsm_list r.serves.valid.ids,
      )

  -- The end of a flow: no message is queued, the manager was told of this FSM's success, and the
  -- factory holds the FSMs that it held before the request.
  abbrev pub Completed : Plan → ℕ → Manager → Type 0
  Completed p id g' =
      let event : FsmCompletionEvent = record {
        service_id = sid;
        fsm_id = id;
        session_id = session;
        result = success;
        final_event = msg_close;
      } in
      (g'.hub.pump ≡ [])
      × (g'.hub.notified ≡ (if h.has_callback then h.notified ++ event ∷ [] else h.notified))
      × Serves g' i sid p M

  -- The last message of both flows.
  close :
      (p : Plan) (id : ℕ) (g' : Manager) (h' : Hub)
      → p working msg_close ≡ finish
      → h'.has_callback ≡ h.has_callback
      → h'.notified ≡ h.notified
      → Stage i sid p M g'
          (record h' { pump = follow_up (worker id) (request sid session payload) msg_close ∷ [] })
          (worker id)
      → M id ≡ none
      → Completed p id (pump_once g').0
  close p id g' h' q same_callback same_notified s gone =
      let c = follow_up (worker id) (request sid session payload) msg_close in
      let done =
        Stage-end i sid p M g' (record h' { pump = c ∷ [] }) c (worker id) s refl refl refl refl
          gone (rw q refl) in
      let told = rw q at done.0 in
      (
        ap (λ (k : Hub). k.pump) told ∙ notify-pump (record h' { pump = [] }) _,
        ap (λ (k : Hub). k.notified) told
            ∙ notify-notified (record h' { pump = [] }) _
            ∙ rw (same_callback, same_notified) refl,
        done.1,
      )

  -- In a manager that is ready for a service whose class follows the registration plan, a request
  -- to that service, with four messages handled, the 100 ms timer ended and two more messages
  -- handled, runs to its end (`Completed`).
  pub reg_flow_completes :
      (r : IsReady g h i sid reg_plan M)
      → let waiting = pump_times 4 (post g (request sid session payload)).0 in
        let woken = with_hub (fire 100 (length h.timers.timer_list) waiting.hub) waiting in
        Completed reg_plan r.serves.fac.next_fsm_id (pump_times 2 woken)
  reg_flow_completes r =
      let id = r.serves.fac.next_fsm_id in
      let f = worker id in
      let m = request sid session payload in
      let waiting = pump_times 4 (post g m).0 in
      let woken = with_hub (fire 100 (length h.timers.timer_list) waiting.hub) waiting in
      let (s, gone) = timer_half reg_plan 100 msg_timeout r refl refl refl refl in
      let h' = fired 100 (follow_up f m msg_timeout) h in
      let last =
        Stage-next i sid reg_plan M woken h' (follow_up f m msg_timeout) f s refl refl refl refl
          refl refl in
      close reg_plan id (pump_once woken).0 h' refl refl refl last gone

  -- In a manager that is ready for a service whose class follows the authentication plan, a
  -- request to that service, with four messages handled, the 100 ms timer ended and one more
  -- message handled, runs to its end (`Completed`).
  pub auth_flow_completes :
      (r : IsReady g h i sid auth_plan M)
      → let waiting = pump_times 4 (post g (request sid session payload)).0 in
        let woken = with_hub (fire 100 (length h.timers.timer_list) waiting.hub) waiting in
        Completed auth_plan r.serves.fac.next_fsm_id (pump_times 1 woken)
  auth_flow_completes r =
      let id = r.serves.fac.next_fsm_id in
      let m = request sid session payload in
      let waiting = pump_times 4 (post g m).0 in
      let woken = with_hub (fire 100 (length h.timers.timer_list) waiting.hub) waiting in
      let (s, gone) = timer_half auth_plan 100 msg_close r refl refl refl refl in
      close auth_plan id woken (fired 100 (follow_up (worker id) m msg_close) h) refl refl refl s
        gone
