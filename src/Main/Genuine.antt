-- ===== src/Main/Genuine.antt =====
-- The entries of the server of reg_fsm/src/HttpServer.cpp that are completed, while `main` of reg_fsm/main.cpp waits in its loop.
use fsm_framework.Base.{
  ℕ, ◌+◌, ◌≤◌, ◌≡◌, subst, sym, inl, inr, true, false, List, [], ◌∷◌, ◌++◌, arith, get_elem?, set,
  All, All-map, All-append, All-set, Option-cases,
}
use mathlib.Core.List.{append_assoc}
use fsm_framework.Pump.{FsmCompletionEvent}
use fsm_framework.Manager.{pump_once}
use fsm_framework.Manager.Progress.{IsPlanned}
use fsm_framework.System.Told.{told}
use fsm_framework.Http.Waiters.{
  WaitEntry, WaitRegistry, on_completion, notify_entries, complete, find_waiters,
}
use fsm_framework.Http.Handler.{Server}
use fsm_framework.Http.Handler.Keeping.{Extends}
use fsm_framework.Http.Service.{hear, listen, listen_lem, pump_once-Grows}

told_append :
    (sid id : ℕ) (xs ys : List FsmCompletionEvent)
    → told sid id (xs ++ ys) ≡ told sid id xs + told sid id ys
told_append sid id [] ys = omega arith
told_append sid id (x ∷ xs) ys = omega (arith, told_append sid id xs ys)

-- The end of the FSM that the event tells of is among those that were told.
abbrev pub WasTold : List FsmCompletionEvent → FsmCompletionEvent → Type 0
WasTold es e = 1 ≤ told e.service_id e.fsm_id es

-- A completed entry holds an event that was told.
abbrev pub IsGenuine : List FsmCompletionEvent → WaitEntry → Type 0
IsGenuine es w = w.completed ≡ true → WasTold es w.event

IsGenuine-later :
    (xs ys : List FsmCompletionEvent) (ws : List WaitEntry)
    → All (IsGenuine xs) ws
    → All (IsGenuine (xs ++ ys)) ws
IsGenuine-later xs ys ws a =
    All-map (λ w g done. omega (arith, g done, told_append w.event.service_id w.event.fsm_id xs ys))
      ws a

notify_entries-All :
    (P : WaitEntry → Type 0) (f : WaitEntry → WaitEntry) (is : List ℕ) (ws : List WaitEntry)
    → ((w : WaitEntry) → P (f w))
    → All P ws
    → All P (notify_entries f is ws)
unfolding notify_entries
notify_entries-All P f [] ws q a = a
notify_entries-All P f (i ∷ is) ws q a = elim (Option-cases (get_elem? ws i)) [
  | inl e ↦ rw (e, notify_entries) (notify_entries-All P f is ws q a)
  | inr (w, e) ↦
      rw (e, notify_entries)
        (notify_entries-All P f is (set ws i (f w)) q (All-set P ws i (f w) a (q w)))
]

on_completion-IsGenuine :
    (es : List FsmCompletionEvent) (r : WaitRegistry) (e : FsmCompletionEvent)
    → WasTold es e
    → All (IsGenuine es) r.entries
    → All (IsGenuine es) (on_completion r e).entries
unfolding on_completion
on_completion-IsGenuine es r e t a =
    elim (Option-cases
      (find_waiters (record { service_id = e.service_id; session_id = e.session_id }) r.waiters)) [
        | inl none_there ↦ rw (none_there, on_completion) a
        | inr (is, there) ↦
            rw (there, on_completion)
              (notify_entries-All (IsGenuine es) (complete e) is r.entries (λ w done. t) a)
      ]

hear-IsGenuine :
    (r : WaitRegistry) (es xs : List FsmCompletionEvent)
    → All (WasTold es) xs
    → All (IsGenuine es) r.entries
    → All (IsGenuine es) (hear r xs).entries
hear-IsGenuine r es [] t a = a
hear-IsGenuine r es (x ∷ xs) t a =
    hear-IsGenuine (on_completion r x) es xs t.1 (on_completion-IsGenuine es r x t.0 a)

-- Every event of a list was told.
All-WasTold : (ys xs : List FsmCompletionEvent) → All (WasTold (ys ++ xs)) xs
All-WasTold ys [] = tt
All-WasTold ys (x ∷ xs) = (
  ground (arith, told_append x.service_id x.fsm_id ys (x ∷ xs)),
  subst (λ es. All (WasTold es) xs) (append_assoc ys (x ∷ []) xs) (All-WasTold (ys ++ x ∷ []) xs),
)

-- An entry that is not completed holds no event yet.
pub open-IsGenuine :
    (es : List FsmCompletionEvent) (ws : List WaitEntry)
    → All (λ (w : WaitEntry). w.completed ≡ false) ws
    → All (IsGenuine es) ws
open-IsGenuine es ws a = All-map (λ w e done. cc) ws a

-- The completed entries of the server hold events that its manager told of.
abbrev pub IsHonest : Server → Type 0
IsHonest s = All (IsGenuine s.manager.hub.notified) s.registry.entries

pub notified-IsHonest :
    (s s' : Server)
    → s'.manager.hub.notified ≡ s.manager.hub.notified
    → s'.registry.entries ≡ s.registry.entries
    → IsHonest s
    → IsHonest s'
notified-IsHonest s s' e r h = rw (e, r) h

pub listen-IsHonest :
    (s : Server) → IsPlanned s.manager → IsHonest s → IsHonest (listen (λ g. (pump_once g).0) s)
listen-IsHonest s p h =
    let g = (pump_once-Grows s.manager p).0 in
    let old = s.manager.hub.notified in
    subst IsHonest (sym (listen_lem (λ m. (pump_once m).0) s g.0 g.1)) (
      subst (λ es. All (IsGenuine es) (hear s.registry g.0).entries) (sym g.1)
        (hear-IsGenuine s.registry (old ++ g.0) g.0 (All-WasTold old g.0)
          (IsGenuine-later old g.0 s.registry.entries h)))

pub extended-IsHonest :
    (s s' : Server)
    → s'.manager.hub.notified ≡ s.manager.hub.notified
    → Extends s.registry.entries s'.registry.entries
    → IsHonest s
    → IsHonest s'
extended-IsHonest s s' e (ws, q, a) h =
    rw (e, q)
      (All-append (IsGenuine s.manager.hub.notified) s.registry.entries ws h
        (open-IsGenuine s.manager.hub.notified ws a))
