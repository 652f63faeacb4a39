-- ===== src/Main/Window.antt =====
-- What the server of reg_fsm/src/HttpServer.cpp answers while the worker has told of the end of an FSM and has not yet taken it out of its
-- factory, and the other threads go on.
use fsm_framework.Base.{
  ℕ, ◌+◌, ◌≤◌, ◌<◌, ◌≡◌, refl, ap, ◌∙◌, ◌≢◌, inl, inr, false, List, [], ◌∷◌, ◌++◌, length-append,
  some_same, Option, none, some, length, arith, get_elem?, All, Bool-cases, Option-cases,
}
use fsm_framework.Data.{u32_mod, success, same_err, CMsg}
use fsm_framework.Pump.{FsmCompletionEvent}
use fsm_framework.Factory.{Cfactory}
use fsm_framework.Factory.Frame.{lookup_fsm}
use fsm_framework.Factory.Window.{IsOver}
use fsm_framework.Manager.{Manager, post, pump_once}
use fsm_framework.Manager.Window.{
  with_facs, pump_tell, AllClear, pump_tell-with_facs, pump_tell-AllClear,
}
use fsm_framework.Http.Target.{extract_path, extract_query, query_has_wait_true, resolve_route}
use fsm_framework.Http.Session.{
  Json, SessionResult, accepted, rejected, read_session_id, generate_session_id,
}
use fsm_framework.Http.Handler.{
  Request, Response, Server, Reply, begin_sync, send_async, is_some_true, parse_body,
  handle_session, handle_body, handle_request, finish_sync, gateway_timeout, sync_response,
}
use fsm_framework.Main.World.{Deed, pumps, wakes, posts, passes, requests, ends_wait, act, IsSound}
use fsm_framework.Main.Live.{act_in_turn, act_in_turn-IsLive}
use fsm_framework.Main.Answers.{HasEnded, reported-HasEnded}
use fsm_framework.Http.Service.{listen}
use fsm_framework.System.{Reach}
use fsm_framework.Main.Genuine.{open-IsGenuine}
use fsm_framework.Http.Waiters.{WaitEntry, unregister_waiter}

-- The server over these factories.
abbrev pub over : List Cfactory → Server → Server
over facs s = record s { manager = with_facs facs s.manager }

abbrev over_reply : List Cfactory → Server × Reply → Server × Reply
over_reply facs (s, r) = (over facs s, r)

abbrev over_option : List Cfactory → Option (Server × Reply) → Option (Server × Reply)
over_option facs none = none
over_option facs (some p) = some (over_reply facs p)

-- The deed is not one of the worker.
abbrev pub IsElsewhere : Deed → Type 0
IsElsewhere pumps = ⊥
IsElsewhere _ = Unit

-- No handler looks at the factories.
module _ (facs : List Cfactory) where
  begin_sync-over :
      (garbage : FsmCompletionEvent) (s : Server) (v : ℕ) (m : CMsg) (name : List ℕ)
      → begin_sync garbage (over facs s) v m name ≡ over_reply facs (begin_sync garbage s v m name)
  unfolding begin_sync
  begin_sync-over garbage s v m name = elim (Bool-cases (same_err success (post s.manager m).1)) [
    | inl sent ↦ rw sent refl
    | inr refused ↦ rw refused refl
  ]

  send_async-over :
      (s : Server) (v : ℕ) (m : CMsg) (name : List ℕ)
      → send_async (over facs s) v m name ≡ over_reply facs (send_async s v m name)
  unfolding send_async
  send_async-over s v m name = elim (Bool-cases (same_err success (post s.manager m).1)) [
    | inl sent ↦ rw sent refl
    | inr refused ↦ rw refused refl
  ]

  module _ (j : Json) (garbage : FsmCompletionEvent) where
    handle_session-over :
        (s : Server) (r : Request) (service : ℕ) (name : List ℕ) (v : j.Value) (o : SessionResult)
        → handle_session j garbage (over facs s) r service name v o
          ≡ over_reply facs (handle_session j garbage s r service name v o)
    unfolding handle_session
    handle_session-over s r service name v (rejected err) = refl
    handle_session-over s r service name v (accepted session) =
        elim (Bool-cases (is_some_true (query_has_wait_true (extract_query r.target)))) [
          | inl sync ↦ rw sync (begin_sync-over garbage s r.version _ name)
          | inr async ↦ rw async (send_async-over s r.version _ name)
        ]

    handle_body-over :
        (s : Server) (r : Request) (service : ℕ) (name : List ℕ) (b : Option (j.Value × j.Object))
        → handle_body j garbage (over facs s) r service name b
          ≡ over_option facs (handle_body j garbage s r service name b)
    unfolding handle_body
    handle_body-over s r service name none = refl
    handle_body-over s r service name (some (v, o)) =
        elim (Option-cases (generate_session_id s.next_session_id)) [
          | inl e ↦ rw (e, handle_body) refl
          | inr ((next, id), e) ↦
              rw (e, handle_body)
                (ap (λ p. some p)
                  (handle_session-over (record s { next_session_id = next }) r service name v
                    (read_session_id j o id)))
        ]

    handle_request-over :
        (s : Server) (r : Request)
        → handle_request j garbage (over facs s) r ≡ over_option facs (handle_request j garbage s r)
    unfolding handle_request
    handle_request-over s r = elim (Option-cases (resolve_route (extract_path r.target))) [
      | inl e ↦ rw (e, handle_request) refl
      | inr ((service, name), e) ↦ elim (Bool-cases r.is_post) [
        | inl posts_it ↦
            rw (e, handle_request)
              (rw posts_it (handle_body-over s r service name (parse_body j garbage r.body)))
        | inr other ↦ rw (e, handle_request) (rw other refl)
      ]
    ]

    left_over :
        (s : Server) (o o' : Option (Server × Reply))
        → o' ≡ over_option facs o
        → elim o' [ none ↦ over facs s | some (s', reply) ↦ s' ]
          ≡ over facs (elim o [ none ↦ s | some (s', reply) ↦ s' ])
    left_over s none o' e = rw e refl
    left_over s (some (s', reply)) o' e = rw e refl

    act-over :
        (d : Deed) (s : Server)
        → IsElsewhere d
        → act j garbage d (over facs s) ≡ over facs (act j garbage d s)
    unfolding act finish_sync
    act-over pumps s h = elim h [ ]
    act-over (wakes i) s h = refl
    act-over (posts i) s h = refl
    act-over (passes ms) s h = refl
    act-over (requests r) s h =
        left_over s (handle_request j garbage s r) (handle_request j garbage (over facs s) r)
          (handle_request-over s r)
    act-over (ends_wait i v m name) s h = elim (Option-cases (get_elem? s.registry.entries i)) [
      | inl e ↦ rw (e, act) refl
      | inr (w, e) ↦ rw (e, act) refl
    ]

module _ (j : Json) (garbage : FsmCompletionEvent) where
  acts-over :
      (facs : List Cfactory) (ds : List Deed) (s : Server)
      → All IsElsewhere ds
      → act_in_turn j garbage ds (over facs s) ≡ over facs (act_in_turn j garbage ds s)
  acts-over facs [] s h = refl
  acts-over facs (d ∷ ds) s h =
      ap (act_in_turn j garbage ds) (act-over facs j garbage d s h.0)
      ∙ acts-over facs ds (act j garbage d s) h.1

  -- So they leave them.
  acts-fac_list :
      (ds : List Deed) (s : Server)
      → All IsElsewhere ds
      → (act_in_turn j garbage ds s).manager.fac_list ≡ s.manager.fac_list
  acts-fac_list ds s h = ap (λ t. t.manager.fac_list) (acts-over s.manager.fac_list ds s h)

  acts-append :
      (xs ys : List Deed) (s : Server)
      → act_in_turn j garbage (xs ++ ys) s ≡ act_in_turn j garbage ys (act_in_turn j garbage xs s)
  acts-append [] ys s = refl
  acts-append (x ∷ xs) ys s = acts-append xs ys (act j garbage x s)

-- What the manager has told of at that moment is heard.
listen-over :
    (k l : Manager → Manager) (facs : List Cfactory) (s : Server)
    → k s.manager ≡ with_facs facs (l s.manager)
    → listen k s ≡ over facs (listen l s)
listen-over k l facs s e = rw e refl

-- The event is the end of an FSM that its factory made, and that it has no more or that has ended.
abbrev pub IsEnding : Manager → FsmCompletionEvent → Type 0
IsEnding g e =
    (i : ℕ) × (fac : Cfactory) × (get_elem? g.fac_list i ≡ some fac)
    × (fac.fac_id ≡ e.service_id)
    × (1 ≤ e.fsm_id)
    × (e.fsm_id < fac.next_fsm_id)
    × IsOver (lookup_fsm e.fsm_id fac.fsm_list)

HasEnded-IsEnding :
    (g : Manager) (facs : List Cfactory) (e : FsmCompletionEvent)
    → AllClear facs g.fac_list
    → HasEnded g e
    → IsEnding (with_facs facs g) e
HasEnded-IsEnding g facs e clear (i, fac, at, same, low, high, gone) =
    let (old, there, c) = clear i fac at in
    (i, old, there, c.0 ∙ same, low, omega (arith, c.1, high), c.2 e.fsm_id gone)

finish_sync-over :
    (facs : List Cfactory) (s s' : Server) (i v : ℕ) (m : CMsg) (name : List ℕ) (r : Response)
    → finish_sync (over facs s) i v m name ≡ some (s', r)
    → (s'' : Server) × (finish_sync s i v m name ≡ some (s'', r))
unfolding finish_sync
finish_sync-over facs s s' i v m name r e = elim (Option-cases (get_elem? s.registry.entries i)) [
  | inl lost ↦ absurd (cc (rw (lost, finish_sync) at e))
  | inr (w, at) ↦
      let same = ap (λ p. p.1) (some_same (rw (at, finish_sync) at e)) in
      let left = record s { registry = unregister_waiter s.registry m.service_id m.session_id i } in
      (left, rw (at, finish_sync) (ap (λ q. some (left, q)) same))
]

-- Let a server that is sound run over a manager that is not stopped and that the threads can reach with `n` messages handled, and
-- let no entry be completed. After any deeds of the threads the worker takes a message, if there is one, and handles it until it has
-- told of the end of an FSM, if it ends one, and before `KillFsm`; there it stays while the other threads go on. These are at most
-- 2 ^ 32 - 3 - `n` deeds. Then each synchronous request that is answered with anything but the timeout gets the report of its
-- entry, and the event in the entry names an FSM of which this holds: a registered factory of the service gave out its id, and
-- has the FSM no more or has it in the state `KILL_FSM`.
pub reported-IsEnding :
    (j : Json) (garbage : FsmCompletionEvent) (n : ℕ) (s : Server)
    → Reach n s.manager
    → IsSound s
    → s.manager.hub.stopped ≡ false
    → All (λ (w : WaitEntry). w.completed ≡ false) s.registry.entries
    → (ds others : List Deed) → All IsElsewhere others
    → n + length ds + length others + 2 < u32_mod
    → (i v : ℕ) (m : CMsg) (name : List ℕ) (s' : Server) (r : Response)
    → let told = act_in_turn j garbage others (listen pump_tell (act_in_turn j garbage ds s)) in
      finish_sync told i v m name ≡ some (s', r)
      → r.status ≢ gateway_timeout
      → (w : WaitEntry) × (get_elem? told.registry.entries i ≡ some w)
        × (r ≡ sync_response w v name)
        × IsEnding told.manager w.event
unfolding act
reported-IsEnding j garbage n s reach sound runs fresh ds others away b i v m name s' r e late =
    let t = act_in_turn j garbage ds s in
    let facs = (pump_tell t.manager).fac_list in
    let done = listen (λ g. (pump_once g).0) t in
    let u = act_in_turn j garbage others done in
    let mid =
      ap (act_in_turn j garbage others)
        (listen-over pump_tell (λ g. (pump_once g).0) facs t (pump_tell-with_facs t.manager))
      ∙ acts-over j garbage facs others done away in
    let live = act_in_turn-IsLive j garbage n ds s (record {
      sound = sound;
      runs = runs;
      honest = open-IsGenuine s.manager.hub.notified s.registry.entries fresh;
      handled = n;
      few = omega arith;
      reach = reach;
    }) in
    let kept = acts-fac_list j garbage others done away in
    let clear : AllClear facs u.manager.fac_list =
      rw kept (pump_tell-AllClear live.handled t.manager live.reach (omega (arith, live.few))) in
    let all = acts-append j garbage ds (pumps ∷ others) s in
    let (s'', e') = finish_sync-over facs u s' i v m name r (rw mid at e) in
    let out =
      reported-HasEnded j garbage n s reach sound runs fresh (ds ++ pumps ∷ others)
        (omega (arith, length-append ds (pumps ∷ others))) i v m name s'' r (rw all e') late in
    let out' = rw all at out in
    rw mid (out'.0, out'.1, out'.2, HasEnded-IsEnding u.manager facs out'.0.event clear out'.3)
