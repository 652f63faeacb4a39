-- ===== src/Http/Handler/Keeping.antt =====
-- What `HandleRequest` of reg_fsm/src/HttpServer.cpp keeps of the server's own state.
use fsm_framework.Base.{
  ℕ, zero, suc, ◌≤◌, ◌<◌, ◌≡◌, refl, sym, ◌≢◌, inl, inr, false, List, [], ◌∷◌, ◌++◌, Option, none,
  some, arith, length, length-append, get_elem?, All, Bool-cases, Option-cases,
}
use mathlib.Core.List.{append-nil}
use fsm_framework.Data.{u32_mod, msg_init, CMsg, success, same_err}
use fsm_framework.Pump.{FsmCompletionEvent}
use fsm_framework.Manager.{post}
use fsm_framework.Http.Target.{extract_path, extract_query, query_has_wait_true, resolve_route}
use fsm_framework.Http.Waiters.{WaitEntry, register_waiter, unregister_waiter}
use fsm_framework.Http.Waiters.Keeping.{IsTidy, register_waiter-IsTidy, unregister_waiter-IsTidy}
use fsm_framework.Http.Waiters.Registry.{unregister_waiter-register_waiter}
use fsm_framework.Http.Session.{
  Json, SessionResult, accepted, rejected, read_session_id, generate_session_id_lem,
}
use fsm_framework.Http.Handler.{
  Request, Response, Server, Reply, answers, waits, begin_sync, finish_sync, sync_response,
  send_async, is_some_true, parse_body, payload, handle_session, handle_body, handle_request,
}

-- The registry is tidy, and the counter of the session ids is an unsigned int.
abbrev pub IsKept : Server → Type 0
IsKept s = IsTidy s.registry × (s.next_session_id < u32_mod)

-- The entry that a reply waits on is there: it was just registered; else the map is as it was.
abbrev pub IsThere : FsmCompletionEvent → Server → Server → Reply → Type 0
IsThere garbage s s' (answers r) = s'.registry.waiters ≡ s.registry.waiters
IsThere garbage s s' (waits i v m name) =
    (i < length s'.registry.entries)
    × (i ≡ length s.registry.entries)
    × (s'.registry ≡ (register_waiter s.registry garbage m.service_id m.session_id).0)

-- The entries are those from before, and maybe more, which are not completed.
abbrev pub Extends : List WaitEntry → List WaitEntry → Type 0
Extends ws ws' =
    (es : List WaitEntry) × (ws' ≡ ws ++ es) × All (λ (w : WaitEntry). w.completed ≡ false) es

Extends-refl : (ws : List WaitEntry) → Extends ws ws
Extends-refl ws = ([], sym (append-nil ws), tt)

pub Extends-le : (ws ws' : List WaitEntry) → Extends ws ws' → length ws ≤ length ws'
Extends-le ws ws' (es, e, _) = rw e (omega (arith, length-append {0} ws es))

-- No entry is lost.
abbrev pub Keeps : FsmCompletionEvent → Server → Option (Server × Reply) → Type 0
Keeps garbage s none = ⊥
Keeps garbage s (some (s', r)) =
    IsKept s' × Extends s.registry.entries s'.registry.entries × IsThere garbage s s' r

begin_sync-Keeps :
    (garbage : FsmCompletionEvent) (s : Server) (v : ℕ) (m : CMsg) (name : List ℕ)
    → IsKept s
    → Keeps garbage s (some (begin_sync garbage s v m name))
unfolding begin_sync register_waiter unregister_waiter
begin_sync-Keeps garbage s v m name k =
    let w = register_waiter-IsTidy s.registry garbage m.service_id m.session_id k.0 in
    let r = register_waiter s.registry garbage m.service_id m.session_id in
    elim (Bool-cases (same_err success (post s.manager m).1)) [
      | inl sent ↦ rw sent ((w.0, k.1), (_, refl, (refl, tt)), (omega (arith, w.1, w.2), w.2, refl))
      | inr refused ↦
          let u = unregister_waiter-IsTidy r.0 m.service_id m.session_id r.1 w.0 in
          rw refused (
            (u.0, k.1),
            (_, refl, (refl, tt)),
            unregister_waiter-register_waiter s.registry garbage m.service_id m.session_id k.0,
          )
    ]

send_async-Keeps :
    (garbage : FsmCompletionEvent) (s : Server) (v : ℕ) (m : CMsg) (name : List ℕ)
    → IsKept s
    → Keeps garbage s (some (send_async s v m name))
unfolding send_async
send_async-Keeps garbage s v m name k = elim (Bool-cases (same_err success (post s.manager m).1)) [
  | inl sent ↦ rw sent ((k.0, k.1), Extends-refl s.registry.entries, refl)
  | inr refused ↦ rw refused ((k.0, k.1), Extends-refl s.registry.entries, refl)
]

module _ (j : Json) (garbage : FsmCompletionEvent) where
  handle_session-Keeps :
      (s : Server) (r : Request) (service : ℕ) (name : List ℕ) (v : j.Value) (o : SessionResult)
      → IsKept s
      → Keeps garbage s (some (handle_session j garbage s r service name v o))
  unfolding handle_session
  handle_session-Keeps s r service name v (rejected err) k =
      (k, Extends-refl s.registry.entries, refl)
  handle_session-Keeps s r service name v (accepted session) k =
      let m : CMsg = record {
        type = msg_init;
        service_id = service;
        fsm_id = 0;
        session_id = session;
        msg = payload j garbage r.body v;
      } in
      elim (Bool-cases (is_some_true (query_has_wait_true (extract_query r.target)))) [
        | inl sync ↦ rw sync (begin_sync-Keeps garbage s r.version m name k)
        | inr async ↦ rw async (send_async-Keeps garbage s r.version m name k)
      ]

  handle_body-Keeps :
      (s : Server) (r : Request) (service : ℕ) (name : List ℕ) (b : Option (j.Value × j.Object))
      → IsKept s
      → Keeps garbage s (handle_body j garbage s r service name b)
  unfolding handle_body
  handle_body-Keeps s r service name none k = (k, Extends-refl s.registry.entries, refl)
  handle_body-Keeps s r service name (some (v, o)) k =
      let (next, id, made, _, small) = generate_session_id_lem s.next_session_id k.1 in
      rw (made, handle_body)
        (handle_session-Keeps (record s { next_session_id = next }) r service name v
          (read_session_id j o id) (k.0, small))

  pub handle_request-Keeps :
      (s : Server) (r : Request) → IsKept s → Keeps garbage s (handle_request j garbage s r)
  unfolding handle_request
  handle_request-Keeps s r k = elim (Option-cases (resolve_route (extract_path r.target))) [
    | inl e ↦ rw (e, handle_request) (k, Extends-refl s.registry.entries, refl)
    | inr ((service, name), e) ↦ elim (Bool-cases r.is_post) [
      | inr other ↦ rw (e, handle_request) (rw other (k, Extends-refl s.registry.entries, refl))
      | inl post_it ↦
          rw (e, handle_request)
            (rw post_it (handle_body-Keeps s r service name (parse_body j garbage r.body) k))
    ]
  ]

-- The end of a wait on an entry that is there.
pub finish_sync-Keeps :
    (s : Server) (i v : ℕ) (m : CMsg) (name : List ℕ)
    → IsKept s
    → i < length s.registry.entries
    → (s' : Server) × (r : Response) × (finish_sync s i v m name ≡ some (s', r))
      × IsKept s'
      × (length s'.registry.entries ≡ length s.registry.entries)
unfolding finish_sync
finish_sync-Keeps s i v m name k h = elim (Option-cases (get_elem? s.registry.entries i)) [
  | inl none_there ↦ absurd (inside s.registry.entries i h none_there)
  | inr (w, e) ↦
      let u = unregister_waiter-IsTidy s.registry m.service_id m.session_id i k.0 in
      (
        record s { registry = unregister_waiter s.registry m.service_id m.session_id i },
        sync_response w v name,
        rw (e, finish_sync),
        (u.0, k.1),
        rw u.1 refl,
      )
]
  where
    inside : (ws : List WaitEntry) (i : ℕ) → i < length ws → get_elem? ws i ≢ none
    inside [] i h e = omega arith
    inside (w ∷ ws) zero h e = cc
    inside (w ∷ ws) (suc i) h e = inside ws i (omega arith) e
