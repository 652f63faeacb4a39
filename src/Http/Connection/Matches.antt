-- ===== src/Http/Connection/Matches.antt =====
-- What a waiter of reg_fsm/src/HttpServer.cpp is told of: FSMs of the service and session of the request that waits.
use fsm_framework.Base.{
  ℕ, zero, suc, ◌<◌, ◌≡◌, refl, ◌∙◌, sym, ◌≢◌, ◌⊎◌, inl, inr, ◌==◌, true, false, List, [], ◌∷◌,
  ◌++◌, Option, none, some, arith, length, get_elem?, get_elem?-append_below,
  get_elem?-append_length, set, All, All-map, Bool-cases, some_same,
}
use fsm_framework.Data.{CMsg, invalid_state}
use fsm_framework.Pump.{FsmCompletionEvent}
use fsm_framework.Http.Waiters.{
  WaitKey, WaitEntry, WaitMap, WaitRegistry, same_key, register_waiter, drop_waiter, find_waiters,
  on_completion, complete, complete_stopped, all_waiters, notify_all_waiters_as_stopped,
}
use fsm_framework.Http.Waiters.Registry.{
  Tidy, mem, listed, map_at, on_completion_entries, on_completion-waiters,
  notify_all_waiters_as_stopped_entries,
}
use fsm_framework.Http.Waiters.Owners.{Sorted, Owned, push_waiter-Owned, drop_waiter-Owned}
use fsm_framework.Http.Connection.{waiting, Session}
use fsm_framework.Http.Connection.Owners.{key_of}

-- Some session waits on the entry `x` for the message `m`.
abbrev pub Waits : List Session → ℕ → CMsg → Type 0
Waits ss x m =
    (i : ℕ) × (s : Session) × (v : ℕ) × (name : List ℕ) × (get_elem? ss i ≡ some s)
    × (s.phase ≡ waiting x v m name)

-- A waiter that stands in the map under a key waits for a message of that key.
abbrev pub Keyed : List Session → WaitKey → ℕ → Type 0
Keyed ss k x = (m : CMsg) → Waits ss x m → same_key k (key_of m) ≡ true

pub get_elem?-set_cases :
    (ss : List Session) (c i : ℕ) (t s : Session)
    → get_elem? (set ss c t) i ≡ some s
    → (s ≡ t) ⊎ (get_elem? ss i ≡ some s)
get_elem?-set_cases [] c i t s e = inr e
get_elem?-set_cases (y ∷ ss) zero zero t s e = inl (some_same (sym e))
get_elem?-set_cases (y ∷ ss) zero (suc i) t s e = inr e
get_elem?-set_cases (y ∷ ss) (suc c) zero t s e = inr e
get_elem?-set_cases (y ∷ ss) (suc c) (suc i) t s e = get_elem?-set_cases ss c i t s e

-- A session that does not wait is put in the place of one.
pub Waits-set :
    (ss : List Session) (c x : ℕ) (m : CMsg) (t : Session)
    → ((y v : ℕ) (n : CMsg) (name : List ℕ) → t.phase ≢ waiting y v n name)
    → Waits (set ss c t) x m
    → Waits ss x m
Waits-set ss c x m t idle (i, s, v, name, at, p) = elim (get_elem?-set_cases ss c i t s at) [
  | inr before ↦ (i, s, v, name, before, p)
  | inl self ↦ absurd (idle x v m name (rw self at p))
]

get_elem?-append_cases :
    (ss : List Session) (i : ℕ) (t s : Session)
    → get_elem? (ss ++ t ∷ []) i ≡ some s
    → (s ≡ t) ⊎ (get_elem? ss i ≡ some s)
get_elem?-append_cases [] zero t s e = inl (some_same (sym e))
get_elem?-append_cases [] (suc i) t s e = cc
get_elem?-append_cases (y ∷ ss) zero t s e = inr e
get_elem?-append_cases (y ∷ ss) (suc i) t s e = get_elem?-append_cases ss i t s e

pub Waits-append :
    (ss : List Session) (x : ℕ) (m : CMsg) (t : Session)
    → ((y v : ℕ) (n : CMsg) (name : List ℕ) → t.phase ≢ waiting y v n name)
    → Waits (ss ++ t ∷ []) x m
    → Waits ss x m
Waits-append ss x m t idle (i, s, v, name, at, p) = elim (get_elem?-append_cases ss i t s at) [
  | inr before ↦ (i, s, v, name, before, p)
  | inl self ↦ absurd (idle x v m name (rw self at p))
]

-- The pointers under a key wait for messages of that key.
found-Keyed :
    (ss : List Session) (k : WaitKey) (w : WaitMap) (x : ℕ) (m : CMsg)
    → Owned (Keyed ss) w
    → mem x (listed (find_waiters k w)) ≡ true
    → Waits ss x m
    → same_key k (key_of m) ≡ true
unfolding find_waiters
found-Keyed ss k [] x m a h waits = cc
found-Keyed ss k ((k', is) ∷ w) x m a h waits = elim (Bool-cases (same_key k' k)) [
  | inl same ↦ let here = under is a.0 (rw same at h) in ground (arith, here, same)
  | inr other ↦ found-Keyed ss k w x m a.1 (rw other at h) waits
]
  where
    under : (is : List ℕ) → All (Keyed ss k') is → mem x is ≡ true → same_key k' (key_of m) ≡ true
    under [] b h = cc
    under (y ∷ is) b h = elim (Bool-cases (y == x)) [
      | inl self ↦ let e : y ≡ x = ground arith in b.0 m (rw e waits)
      | inr miss ↦ under is b.1 (rw miss at h)
    ]

same_key_fields :
    (e : FsmCompletionEvent) (m : CMsg)
    → same_key (record { service_id = e.service_id; session_id = e.session_id }) (key_of m) ≡ true
    → (e.service_id ≡ m.service_id) × (e.session_id ≡ m.session_id)
same_key_fields e m h = ground arith

-- What completing the entries of a list leaves at one entry.
completed_at :
    (f : WaitEntry → WaitEntry) (o : Option WaitEntry) (w : WaitEntry)
    → map_at f o ≡ some w
    → (v : WaitEntry) × (w ≡ f v)
completed_at f none w e = cc
completed_at f (some v) w e = (v, some_same (sym e))

-- Of the ends of FSMs that the server was told of, `P` holds.
module _ (P : FsmCompletionEvent → Type 0) where
  -- A completed entry holds one of those ends, of an FSM of the service and session of the message, or says that the server stopped.
  abbrev pub IsAbout : CMsg → WaitEntry → Type 0
  IsAbout m w =
      w.completed ≡ true
      → (P w.event × (w.event.service_id ≡ m.service_id) × (w.event.session_id ≡ m.session_id))
        ⊎ (w.event.result ≡ invalid_state)

  abbrev pub Matches : List Session → List WaitEntry → Type 0
  Matches ss ws =
      (x : ℕ) (m : CMsg) (w : WaitEntry) → Waits ss x m → get_elem? ws x ≡ some w → IsAbout m w

  abbrev pub IsMatched : List Session → WaitRegistry → Type 0
  IsMatched ss r = Owned (Keyed ss) r.waiters × Matches ss r.entries

  -- Sessions that wait for no more than others.
  pub IsMatched-fewer :
      (ss ss' : List Session) (r : WaitRegistry)
      → ((x : ℕ) (m : CMsg) → Waits ss' x m → Waits ss x m)
      → IsMatched ss r
      → IsMatched ss' r
  IsMatched-fewer ss ss' r fewer a = (
    All-map (λ p b. All-map (λ x k m w. k m (fewer x m w)) p.1 b) r.waiters a.0,
    λ x m w waits at. a.1 x m w (fewer x m waits) at,
  )

  -- More entries, on which nobody waits.
  pub IsMatched-extends :
      (ss : List Session) (r r' : WaitRegistry) (es : List WaitEntry)
      → r'.waiters ≡ r.waiters
      → r'.entries ≡ r.entries ++ es
      → ((x : ℕ) (m : CMsg) → Waits ss x m → x < length r.entries)
      → IsMatched ss r
      → IsMatched ss r'
  IsMatched-extends ss r r' es same more below a = (
    rw same a.0,
    λ x m w waits at.
        a.1 x m w waits
          (sym (get_elem?-append_below r.entries es x (below x m waits)) ∙ rw more at at),
  )

  -- Waiters are removed from the map.
  pub drop-IsMatched :
      (ss ss' : List Session) (k : WaitKey) (i : ℕ) (r : WaitRegistry)
      → Sorted r.waiters
      → ((x : ℕ) (m : CMsg) → Waits ss' x m → Waits ss x m)
      → IsMatched ss r
      → IsMatched ss' (record r { waiters = drop_waiter k i r.waiters })
  drop-IsMatched ss ss' k i r s fewer a = (
    drop_waiter-Owned (Keyed ss) (Keyed ss') k i r.waiters s a.0
        (λ k' x other keyed m w. keyed m (fewer x m w)),
    λ x m w waits at. a.1 x m w (fewer x m waits) at,
  )

  -- The end of an FSM reaches only the waiters of its service and session.
  pub on_completion-IsMatched :
      (ss : List Session) (r : WaitRegistry) (e : FsmCompletionEvent)
      → P e
      → IsMatched ss r
      → IsMatched ss (on_completion r e)
  on_completion-IsMatched ss r e ends a = (rw (on_completion-waiters r e) a.0, after)
    where
      k : WaitKey
      k = record { service_id = e.service_id; session_id = e.session_id }

      after : Matches ss (on_completion r e).entries
      after x m w waits at =
          let now = sym (on_completion_entries r e x) ∙ at in
          elim (Bool-cases (mem x (listed (find_waiters k r.waiters)))) [
            | inr miss ↦ a.1 x m w waits (rw miss at now)
            | inl hit ↦
                let (v, same) =
                  completed_at (complete e) (get_elem? r.entries x) w (rw hit at now) in
                rw same (λ done.
                  let same_ids =
                    same_key_fields e m (found-Keyed ss k r.waiters x m a.0 hit waits) in
                  inl (ends, same_ids.0, same_ids.1))
          ]

  -- A server that stops says so.
  pub notify_all-IsMatched :
      (ss : List Session) (r : WaitRegistry)
      → IsMatched ss r
      → IsMatched ss (notify_all_waiters_as_stopped r)
  notify_all-IsMatched ss r a = (rw (notify_all_waiters_as_stopped_entries r 0).0 tt, after)
    where
      after : Matches ss (notify_all_waiters_as_stopped r).entries
      after x m w waits at =
          let now = sym (notify_all_waiters_as_stopped_entries r x).1 ∙ at in
          elim (Bool-cases (mem x (all_waiters r.waiters))) [
            | inr miss ↦ a.1 x m w waits (rw miss at now)
            | inl hit ↦
                let (v, same) =
                  completed_at complete_stopped (get_elem? r.entries x) w (rw hit at now) in
                rw same (λ done. inr refl)
          ]

  -- A session that did not wait waits on a new entry for its message.
  pub register-IsMatched :
      (garbage : FsmCompletionEvent) (ss ss' : List Session) (r : WaitRegistry) (m : CMsg)
      → Tidy (length r.entries) r.waiters
      → ((x : ℕ) (n : CMsg) → Waits ss x n → x < length r.entries)
      → ((x : ℕ) (n : CMsg) → Waits ss' x n → ((x ≡ length r.entries) × (n ≡ m)) ⊎ Waits ss x n)
      → IsMatched ss r
      → IsMatched ss' (register_waiter r garbage m.service_id m.session_id).0
  unfolding register_waiter
  register-IsMatched garbage ss ss' r m tidy below split a = (
    push_waiter-Owned (Keyed ss') (key_of m) (length r.entries) r.waiters (old r.waiters tidy a.0)
        (λ k same n w. new k same n w),
    matched,
  )
    where
      fresh : WaitEntry
      fresh = record { completed = false; event = garbage }

      old_keys :
          (k : WaitKey) (is : List ℕ)
          → All (λ i. i < length r.entries) is
          → All (Keyed ss k) is
          → All (Keyed ss' k) is
      old_keys k [] t b = tt
      old_keys k (x ∷ is) t b = (
        λ n w. elim (split x n w) [ inl (e, _) ↦ absurd (omega (arith, t.0, e)) | inr o ↦ b.0 n o ],
        old_keys k is t.1 b.1,
      )

      old : (w : WaitMap) → Tidy (length r.entries) w → Owned (Keyed ss) w → Owned (Keyed ss') w
      old [] t b = tt
      old ((k, is) ∷ w) t b = (old_keys k is t.0.1 b.0, old w t.1 b.1)

      new : (k : WaitKey) → same_key k (key_of m) ≡ true → Keyed ss' k (length r.entries)
      new k same n w = elim (split (length r.entries) n w) [
        | inl (_, e) ↦ rw e same
        | inr o ↦ absurd (omega (arith, below (length r.entries) n o))
      ]

      matched : Matches ss' (r.entries ++ fresh ∷ [])
      matched x n w waits at = elim (split x n waits) [
        | inl (e, _) ↦
            let there : some w ≡ some fresh =
              sym at ∙ rw e (get_elem?-append_length r.entries fresh) in
            rw (some_same there) (λ done. cc)
        | inr o ↦
            a.1 x n w o (sym (get_elem?-append_below r.entries (fresh ∷ []) x (below x n o)) ∙ at)
      ]
