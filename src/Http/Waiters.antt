-- ===== src/Http/Waiters.antt =====
-- The registry of synchronous requests in reg_fsm/src/HttpServer.cpp: `RegisterWaiter`,
-- `UnregisterWaiter`, `OnCompletion` and `NotifyAllWaitersAsStopped`. A `WaitEntry` lives in a
-- store and a pointer to it, shared or weak, is its index there. The one owner of an entry is
-- `HandleSyncRequest`, which unregisters it before it drops it, so the weak pointers of the
-- registry are live. The event of an entry is not initialised at first; it is read only once
-- `completed` is set, but for a copy that is then not used. The `std::map` is the list of its
-- pairs in the order of the keys. Each call is one step. In the source `OnCompletion` and
-- `NotifyAllWaitersAsStopped` first collect the entries under one lock and then write each under its own;
-- that the writes of two such calls may mix is left out.
pub mod Registry
pub mod Keeping
pub mod Owners
use fsm_framework.Base.{
  ℕ, ◌==◌, ltb, Bool, true, false, not, ◌&&◌, List, [], ◌∷◌, ◌++◌, Option, none, some,
  if◌then◌else◌, length, get_elem?, set,
}
use fsm_framework.Data.{EerrNo, invalid_state}
use fsm_framework.Pump.{FsmCompletionEvent}

pub record WaitKey : Type 0 where
  pub service_id : ℕ
  pub session_id : ℕ

-- `operator<`, and the equivalence that a map takes from it.
abbrev pub key_less : WaitKey → WaitKey → Bool
key_less a b =
    if not (a.service_id == b.service_id)
    then ltb a.service_id b.service_id
    else ltb a.session_id b.session_id

abbrev pub same_key : WaitKey → WaitKey → Bool
same_key a b = not (key_less a b) && not (key_less b a)

pub record WaitEntry : Type 0 where
  pub completed : Bool
  pub event : FsmCompletionEvent

abbrev pub WaitMap : Type 0
WaitMap = List (WaitKey × List ℕ)

pub record WaitRegistry : Type 0 where
  pub entries : List WaitEntry
  pub waiters : WaitMap

-- `_waiters[key].push_back(waiter)`.
unfoldable pub push_waiter : WaitKey → ℕ → WaitMap → WaitMap
push_waiter k i [] = (k, i ∷ []) ∷ []
push_waiter k i ((k', is) ∷ m) =
    if same_key k' k
    then (k', is ++ i ∷ []) ∷ m
    else if key_less k k'
    then (k, i ∷ []) ∷ (k', is) ∷ m
    else (k', is) ∷ push_waiter k i m

-- `_waiters.find(key)`.
unfoldable pub find_waiters : WaitKey → WaitMap → Option (List ℕ)
find_waiters k [] = none
find_waiters k ((k', is) ∷ m) = if same_key k' k then some is else find_waiters k m

-- The registry and the new entry; `garbage` is what its event holds.
unfoldable pub register_waiter : WaitRegistry → FsmCompletionEvent → ℕ → ℕ → WaitRegistry × ℕ
unfolding push_waiter
register_waiter r garbage service session = (
  record {
    entries = r.entries ++ record { completed = false; event = garbage } ∷ [];
    waiters =
        push_waiter (record { service_id = service; session_id = session }) (length r.entries)
          r.waiters;
  },
  length r.entries,
)

-- `remove_if` of the pointers to one entry.
unfoldable pub remove_waiter : ℕ → List ℕ → List ℕ
remove_waiter i [] = []
remove_waiter i (j ∷ js) = if j == i then remove_waiter i js else j ∷ remove_waiter i js

-- The pair of a key, with the entry removed, and erased if none is left.
abbrev pub keep_pair : WaitKey → List ℕ → WaitMap → WaitMap
keep_pair k [] m = m
keep_pair k (j ∷ js) m = (k, j ∷ js) ∷ m

unfoldable pub drop_waiter : WaitKey → ℕ → WaitMap → WaitMap
unfolding remove_waiter
drop_waiter k i [] = []
drop_waiter k i ((k', is) ∷ m) =
    if same_key k' k then keep_pair k' (remove_waiter i is) m else (k', is) ∷ drop_waiter k i m

unfoldable pub unregister_waiter : WaitRegistry → ℕ → ℕ → ℕ → WaitRegistry
unfolding drop_waiter
unregister_waiter r service session i = record r {
  waiters = drop_waiter (record { service_id = service; session_id = session }) i r.waiters;
}

abbrev pub complete : FsmCompletionEvent → WaitEntry → WaitEntry
complete e w = record { completed = true; event = e }

abbrev pub complete_stopped : WaitEntry → WaitEntry
complete_stopped w = record {
  completed = true;
  event = record (w.event) { result = invalid_state };
}

-- The loop over the entries to notify.
unfoldable pub notify_entries : (WaitEntry → WaitEntry) → List ℕ → List WaitEntry → List WaitEntry
notify_entries f [] ws = ws
notify_entries f (i ∷ is) ws = elim (get_elem? ws i) [
  | none ↦ notify_entries f is ws
  | some w ↦ notify_entries f is (set ws i (f w))
]

unfoldable pub on_completion : WaitRegistry → FsmCompletionEvent → WaitRegistry
unfolding find_waiters notify_entries
on_completion r e =
    elim (find_waiters (record { service_id = e.service_id; session_id = e.session_id })
      r.waiters) [
        | none ↦ r
        | some is ↦ record r { entries = notify_entries (complete e) is r.entries }
      ]

unfoldable pub all_waiters : WaitMap → List ℕ
all_waiters [] = []
all_waiters ((k, is) ∷ m) = is ++ all_waiters m

unfoldable pub notify_all_waiters_as_stopped : WaitRegistry → WaitRegistry
unfolding all_waiters notify_entries
notify_all_waiters_as_stopped r = record {
  entries = notify_entries complete_stopped (all_waiters r.waiters) r.entries;
  waiters = [];
}
