-- ===== src/Http/Waiters/Keeping.antt =====
-- The registry of synchronous requests of reg_fsm/src/HttpServer.cpp stays tidy.
use fsm_framework.Base.{
  ℕ, suc, ◌≤◌, ◌<◌, ◌≡◌, refl, ◌≢◌, ◌∙◌, inl, inr, ◌==◌, false, List, [], ◌∷◌, ◌++◌, arith, length,
  length-append, length-set, get_elem?, set, All, All-append, All-map, Bool-cases, Option-cases,
}
use fsm_framework.Pump.{FsmCompletionEvent}
use fsm_framework.Http.Waiters.{
  WaitKey, WaitEntry, WaitMap, WaitRegistry, same_key, key_less, push_waiter, register_waiter,
  remove_waiter, keep_pair, drop_waiter, unregister_waiter, find_waiters, complete, notify_entries,
  on_completion, complete_stopped, all_waiters, notify_all_waiters_as_stopped,
}
use fsm_framework.Http.Waiters.Registry.{Tidy}

abbrev pub IsTidy : WaitRegistry → Type 0
IsTidy r = Tidy (length r.entries) r.waiters

abbrev Below : ℕ → List ℕ → Type 0
Below n is = All (λ i. i < n) is

Below-later : (n k : ℕ) (is : List ℕ) → n ≤ k → Below n is → Below k is
Below-later n k is h a = All-map (λ i b. omega arith) is a

Tidy-later : (n k : ℕ) (m : WaitMap) → n ≤ k → Tidy n m → Tidy k m
Tidy-later n k m h t = All-map (λ p a. (a.0, Below-later n k p.1 h a.1)) m t

append-ne : (is : List ℕ) (i : ℕ) → is ++ i ∷ [] ≢ []
append-ne [] i e = cc
append-ne (x ∷ is) i e = cc

push_waiter-Tidy :
    (k : WaitKey) (i n : ℕ) (m : WaitMap) → i < n → Tidy n m → Tidy n (push_waiter k i m)
unfolding push_waiter
push_waiter-Tidy k i n [] h t = (((λ e. cc), (h, tt)), tt)
push_waiter-Tidy k i n ((k', is) ∷ m) h t = elim (Bool-cases (same_key k' k)) [
  | inl same ↦ rw same ((append-ne is i, All-append (λ x. x < n) is (i ∷ []) t.0.1 (h, tt)), t.1)
  | inr other ↦ elim (Bool-cases (key_less k k')) [
    | inl less ↦ rw (other, less) (((λ e. cc), (h, tt)), t)
    | inr more ↦ rw (other, more) (t.0, push_waiter-Tidy k i n m h t.1)
  ]
]

remove_waiter-Below : (i n : ℕ) (is : List ℕ) → Below n is → Below n (remove_waiter i is)
unfolding remove_waiter
remove_waiter-Below i n [] a = tt
remove_waiter-Below i n (x ∷ is) a = elim (Bool-cases (x == i)) [
  | inl hit ↦ rw hit (remove_waiter-Below i n is a.1)
  | inr miss ↦ rw miss (a.0, remove_waiter-Below i n is a.1)
]

keep_pair-Tidy :
    (k : WaitKey) (n : ℕ) (is : List ℕ) (m : WaitMap)
    → Below n is
    → Tidy n m
    → Tidy n (keep_pair k is m)
keep_pair-Tidy k n [] m a t = t
keep_pair-Tidy k n (i ∷ is) m a t = (((λ e. cc), a), t)

drop_waiter-Tidy : (k : WaitKey) (i n : ℕ) (m : WaitMap) → Tidy n m → Tidy n (drop_waiter k i m)
unfolding drop_waiter
drop_waiter-Tidy k i n [] t = tt
drop_waiter-Tidy k i n ((k', is) ∷ m) t = elim (Bool-cases (same_key k' k)) [
  | inl same ↦
      rw same (keep_pair-Tidy k' n (remove_waiter i is) m (remove_waiter-Below i n is t.0.1) t.1)
  | inr other ↦ rw other (t.0, drop_waiter-Tidy k i n m t.1)
]

pub register_waiter-IsTidy :
    (r : WaitRegistry) (garbage : FsmCompletionEvent) (service session : ℕ)
    → IsTidy r
    → let r' = register_waiter r garbage service session in
      IsTidy r'.0 × (length r'.0.entries ≡ suc (length r.entries)) × (r'.1 ≡ length r.entries)
unfolding register_waiter
register_waiter-IsTidy r garbage service session t =
    let entry : WaitEntry = record { completed = false; event = garbage } in
    let n = length (r.entries ++ entry ∷ []) in
    let more : n ≡ suc (length r.entries) =
      omega (arith, length-append {0} r.entries (entry ∷ [])) in
    (
      push_waiter-Tidy _ (length r.entries) n r.waiters (omega (arith, more))
          (Tidy-later (length r.entries) n r.waiters (omega (arith, more)) t),
      more,
      refl,
    )

pub unregister_waiter-IsTidy :
    (r : WaitRegistry) (service session i : ℕ)
    → IsTidy r
    → IsTidy (unregister_waiter r service session i)
      × ((unregister_waiter r service session i).entries ≡ r.entries)
unfolding unregister_waiter
unregister_waiter-IsTidy r service session i t =
    (drop_waiter-Tidy _ i (length r.entries) r.waiters t, refl)

length-notify_entries :
    (f : WaitEntry → WaitEntry) (is : List ℕ) (ws : List WaitEntry)
    → length (notify_entries f is ws) ≡ length ws
unfolding notify_entries
length-notify_entries f [] ws = refl
length-notify_entries f (i ∷ is) ws = elim (Option-cases (get_elem? ws i)) [
  | inl e ↦ rw (e, notify_entries) (length-notify_entries f is ws)
  | inr (w, e) ↦
      rw (e, notify_entries) (length-notify_entries f is (set ws i (f w)) ∙ length-set ws i (f w))
]

pub on_completion-IsTidy :
    (r : WaitRegistry) (e : FsmCompletionEvent)
    → IsTidy r
    → IsTidy (on_completion r e) × (length (on_completion r e).entries ≡ length r.entries)
unfolding on_completion
on_completion-IsTidy r e t =
    elim (Option-cases
      (find_waiters (record { service_id = e.service_id; session_id = e.session_id }) r.waiters)) [
        | inl none_there ↦ rw (none_there, on_completion) (t, refl)
        | inr (is, there) ↦
            let same = length-notify_entries (complete e) is r.entries in
            rw (there, on_completion) (rw same t, same)
      ]

pub notify_all-IsTidy :
    (r : WaitRegistry)
    → IsTidy (notify_all_waiters_as_stopped r)
      × (length (notify_all_waiters_as_stopped r).entries ≡ length r.entries)
unfolding notify_all_waiters_as_stopped
notify_all-IsTidy r = (tt, length-notify_entries complete_stopped (all_waiters r.waiters) r.entries)
