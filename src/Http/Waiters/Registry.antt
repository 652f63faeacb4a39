-- ===== src/Http/Waiters/Registry.antt =====
-- What the registry of waiters in reg_fsm/src/HttpServer.cpp keeps.
use fsm_framework.Base.{
  ℕ, zero, suc, ◌<◌, ◌≡◌, refl, ◌∙◌, ap, ◌≢◌, inl, inr, ◌==◌, Bool, true, false, ◌||◌, List, [],
  ◌∷◌, ◌++◌, Option, none, some, arith, if◌then◌else◌, length, length-append, get_elem?,
  get_elem?-append_below, get_elem?-append_length, set, All, Bool-cases, Option-cases,
}
use fsm_framework.Pump.{FsmCompletionEvent}
use fsm_framework.Http.Waiters.{
  WaitKey, WaitEntry, WaitMap, WaitRegistry, key_less, same_key, push_waiter, find_waiters,
  register_waiter, remove_waiter, keep_pair, drop_waiter, unregister_waiter, complete,
  complete_stopped, notify_entries, on_completion, all_waiters, notify_all_waiters_as_stopped,
}

-- No key has an empty list, and the pointers lead to the first `n` entries.
abbrev pub Tidy : ℕ → WaitMap → Type 0
Tidy n m = All (λ (p : WaitKey × List ℕ). (p.1 ≢ []) × All (λ i. i < n) p.1) m

remove_waiter_fresh : (n : ℕ) (is : List ℕ) → All (λ i. i < n) is → remove_waiter n is ≡ is
unfolding remove_waiter
remove_waiter_fresh n [] a = refl
remove_waiter_fresh n (j ∷ js) a = ground (arith, remove_waiter_fresh n js a.1)

remove_waiter-append :
    (n : ℕ) (is : List ℕ) → All (λ i. i < n) is → remove_waiter n (is ++ n ∷ []) ≡ is
unfolding remove_waiter
remove_waiter-append n [] a = ground arith
remove_waiter-append n (j ∷ js) a = ground (arith, remove_waiter-append n js a.1)

keep_pair_full :
    (k : WaitKey) (is : List ℕ) (m : WaitMap) → is ≢ [] → keep_pair k is m ≡ (k, is) ∷ m
keep_pair_full k [] m h = absurd (h refl)
keep_pair_full k (j ∷ js) m h = refl

pub same_key_refl : (k : WaitKey) → same_key k k ≡ true
same_key_refl k = ground arith

drop_waiter-push_waiter :
    (k : WaitKey) (n : ℕ) (m : WaitMap) → Tidy n m → drop_waiter k n (push_waiter k n m) ≡ m
unfolding drop_waiter push_waiter remove_waiter
drop_waiter-push_waiter k n [] t = ground (arith, same_key_refl k)
drop_waiter-push_waiter k n ((k', is) ∷ m) t = elim (Bool-cases (same_key k' k)) [
  | inl same ↦ rw same (rw (same, remove_waiter-append n is t.0.1) (keep_pair_full k' is m t.0.0))
  | inr other ↦ elim (Bool-cases (key_less k k')) [
    | inl less ↦ rw (other, less) (rw (same_key_refl k) (ground arith))
    | inr more ↦ rw (other, more) (rw other (ap (◌∷◌ (k', is)) (drop_waiter-push_waiter k n m t.1)))
  ]
]

-- Unregistering the entry that was just registered leaves the map as it was before.
pub unregister_waiter-register_waiter :
    (r : WaitRegistry) (garbage : FsmCompletionEvent) (service session : ℕ)
    → Tidy (length r.entries) r.waiters
    → (unregister_waiter
        (register_waiter r garbage service session).0
        service
        session
        (register_waiter r garbage service session).1).waiters
      ≡ r.waiters
unfolding unregister_waiter register_waiter
unregister_waiter-register_waiter r garbage service session t =
    drop_waiter-push_waiter (record { service_id = service; session_id = session })
      (length r.entries) r.waiters t

-- Whether a pointer is among those given.
abbrev pub mem : ℕ → List ℕ → Bool
mem i [] = false
mem i (j ∷ js) = (j == i) || mem i js

abbrev pub listed : Option (List ℕ) → List ℕ
listed none = []
listed (some is) = is

-- The pointers that wait for the key of an event.
abbrev pub waiting : WaitRegistry → FsmCompletionEvent → List ℕ
waiting r e =
    listed
      (find_waiters (record { service_id = e.service_id; session_id = e.session_id }) r.waiters)

get_elem?-set :
    (ws : List WaitEntry) (i j : ℕ) (v w : WaitEntry)
    → get_elem? ws i ≡ some w
    → get_elem? (set ws i v) j ≡ (if i == j then some v else get_elem? ws j)
get_elem?-set [] i j v w e = cc
get_elem?-set (x ∷ ws) zero zero v w e = refl
get_elem?-set (x ∷ ws) zero (suc j) v w e = ground arith
get_elem?-set (x ∷ ws) (suc i) zero v w e = ground arith
get_elem?-set (x ∷ ws) (suc i) (suc j) v w e = ground (arith, get_elem?-set ws i j v w e)

abbrev pub map_at : (WaitEntry → WaitEntry) → Option WaitEntry → Option WaitEntry
map_at f none = none
map_at f (some w) = some (f w)

notify_entries_lem :
    (f : WaitEntry → WaitEntry) (is : List ℕ) (ws : List WaitEntry) (j : ℕ)
    → ((w : WaitEntry) → f (f w) ≡ f w)
    → get_elem? (notify_entries f is ws) j
      ≡ (if mem j is then map_at f (get_elem? ws j) else get_elem? ws j)
unfolding notify_entries
notify_entries_lem f [] ws j h = refl
notify_entries_lem f (i ∷ is) ws j h = elim (Option-cases (get_elem? ws i)) [
  | inl e ↦ rw (e, notify_entries) (rw (notify_entries_lem f is ws j h) (ground arith))
  | inr (w, e) ↦
      rw (e, notify_entries)
        (rw (notify_entries_lem f is (set ws i (f w)) j h, get_elem?-set ws i j (f w) w e)
          (ground (arith, h w)))
]

-- A completion reaches exactly the entries that wait for its service and session: each of them is
-- completed with that event, and every other entry is as it was.
pub on_completion_entries :
    (r : WaitRegistry) (e : FsmCompletionEvent) (j : ℕ)
    → get_elem? (on_completion r e).entries j ≡ (
        if mem j (waiting r e)
        then map_at (complete e) (get_elem? r.entries j)
        else get_elem? r.entries j)
unfolding on_completion
on_completion_entries r e j =
    elim (Option-cases
      (find_waiters (record { service_id = e.service_id; session_id = e.session_id }) r.waiters)) [
        | inl none_there ↦ rw (none_there, on_completion)
        | inr (is, there) ↦
            rw (there, on_completion) (notify_entries_lem (complete e) is r.entries j (λ w. refl))
      ]

-- Stopping the server empties the map; each entry that was in it is completed with
-- `INVALID_STATE`, and every other entry is as it was.
pub notify_all_waiters_as_stopped_entries :
    (r : WaitRegistry) (j : ℕ)
    → ((notify_all_waiters_as_stopped r).waiters ≡ [])
      × (get_elem? (notify_all_waiters_as_stopped r).entries j ≡ (
          if mem j (all_waiters r.waiters)
          then map_at complete_stopped (get_elem? r.entries j)
          else get_elem? r.entries j))
unfolding notify_all_waiters_as_stopped
notify_all_waiters_as_stopped_entries r j =
    (refl, notify_entries_lem complete_stopped (all_waiters r.waiters) r.entries j (λ w. refl))

mem-append : (i : ℕ) (is js : List ℕ) → mem i (is ++ js) ≡ (mem i is || mem i js)
mem-append i [] js = refl
mem-append i (x ∷ is) js = ground (arith, mem-append i is js)

find_waiters-push_waiter_twice :
    (k : WaitKey) (i j : ℕ) (m : WaitMap)
    → let is = listed (find_waiters k (push_waiter k j (push_waiter k i m))) in
      (mem i is ≡ true) × (mem j is ≡ true)
unfolding find_waiters push_waiter
find_waiters-push_waiter_twice k i j [] = rw (same_key_refl k) (rw (same_key_refl k) (ground arith))
find_waiters-push_waiter_twice k i j ((k', is) ∷ m) = elim (Bool-cases (same_key k' k)) [
  | inl same ↦ rw same (
      rw same (
        rw same (
          ground (
            arith,
            mem-append i (is ++ i ∷ []) (j ∷ []),
            mem-append j (is ++ i ∷ []) (j ∷ []),
            mem-append i is (i ∷ []),
          ))))
  | inr other ↦ elim (Bool-cases (key_less k k')) [
    | inl less ↦ rw (other, less) (rw (same_key_refl k) (rw (same_key_refl k) (ground arith)))
    | inr more ↦
        rw (other, more) (rw (other, more) (rw other (find_waiters-push_waiter_twice k i j m)))
  ]
]

-- Two synchronous requests that wait for the same service and session are both completed by one
-- event of one FSM.
pub on_completion_shared :
    (r : WaitRegistry) (g g' e : FsmCompletionEvent)
    → let r₁ = (register_waiter r g e.service_id e.session_id).0 in
      let r₂ = (register_waiter r₁ g' e.service_id e.session_id).0 in
      let done : WaitEntry = record { completed = true; event = e } in
      (get_elem? (on_completion r₂ e).entries (length r.entries) ≡ some done)
      × (get_elem? (on_completion r₂ e).entries (length r₁.entries) ≡ some done)
unfolding register_waiter
on_completion_shared r g g' e =
    let k : WaitKey = record { service_id = e.service_id; session_id = e.session_id } in
    let a : WaitEntry = record { completed = false; event = g } in
    let b : WaitEntry = record { completed = false; event = g' } in
    let r₁ = (register_waiter r g e.service_id e.session_id).0 in
    let r₂ = (register_waiter r₁ g' e.service_id e.session_id).0 in
    let there = find_waiters-push_waiter_twice k (length r.entries) (length r₁.entries) r.waiters in
    let first : get_elem? r₂.entries (length r.entries) ≡ some a =
      get_elem?-append_below (r.entries ++ a ∷ []) (b ∷ []) (length r.entries)
        (omega (arith, length-append {0} r.entries (a ∷ [])))
      ∙ get_elem?-append_length r.entries a in
    let second : get_elem? r₂.entries (length r₁.entries) ≡ some b =
      get_elem?-append_length (r.entries ++ a ∷ []) b in
    (
      on_completion_entries r₂ e (length r.entries) ∙ rw (there.0, first) refl,
      on_completion_entries r₂ e (length r₁.entries) ∙ rw (there.1, second) refl,
    )

pub find_waiters-push_waiter :
    (k : WaitKey) (i : ℕ) (m : WaitMap) → mem i (listed (find_waiters k (push_waiter k i m))) ≡ true
unfolding find_waiters push_waiter
find_waiters-push_waiter k i [] = rw (same_key_refl k) (ground arith)
find_waiters-push_waiter k i ((k', is) ∷ m) = elim (Bool-cases (same_key k' k)) [
  | inl same ↦ rw same (rw same (ground (arith, mem-append i is (i ∷ []))))
  | inr other ↦ elim (Bool-cases (key_less k k')) [
    | inl less ↦ rw (other, less) (rw (same_key_refl k) (ground arith))
    | inr more ↦ rw (other, more) (rw other (find_waiters-push_waiter k i m))
  ]
]

pub on_completion-waiters :
    (r : WaitRegistry) (e : FsmCompletionEvent) → (on_completion r e).waiters ≡ r.waiters
unfolding on_completion
on_completion-waiters r e =
    elim (Option-cases
      (find_waiters (record { service_id = e.service_id; session_id = e.session_id }) r.waiters)) [
        | inl none_there ↦ rw (none_there, on_completion)
        | inr (is, there) ↦ rw (there, on_completion)
      ]
