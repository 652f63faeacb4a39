-- ===== src/Http/Connection/Owners.antt =====
-- The sessions of reg_fsm/src/HttpServer.cpp that wait, and their waiters.
use fsm_framework.Base.{
  ℕ, ◌≡◌, ap, ◌∙◌, sym, ◌≢◌, ◌⊎◌, inl, inr, ◌==◌, true, false, List, ◌++◌, some, arith, length,
  get_elem?, get_elem?-set, get_elem?-set_other, get_elem?-append_some, set, All-map, Bool-cases,
  Option-cases, some_same,
}
use fsm_framework.Data.{CMsg}
use fsm_framework.Pump.{FsmCompletionEvent}
use fsm_framework.Http.Waiters.{
  WaitKey, WaitMap, WaitRegistry, same_key, push_waiter, drop_waiter, register_waiter,
  unregister_waiter,
}
use fsm_framework.Http.Waiters.Owners.{
  Sorted, Owned, push_waiter-Sorted, drop_waiter-Sorted, push_waiter-Owned, drop_waiter-Owned,
}
use fsm_framework.Http.Handler.{Server, Reply, answers, waits, finish_sync}
use fsm_framework.Http.Handler.Keeping.{Keeps}
use fsm_framework.Http.Connection.{
  reading, waiting, Session, Listener, server_of, with_server, do_write, reply_to, on_wait_end,
}

abbrev pub key_of : CMsg → WaitKey
key_of m = record { service_id = m.service_id; session_id = m.session_id }

-- Some session waits on the entry, for a message of that key.
abbrev pub HasOwner : List Session → WaitKey → ℕ → Type 0
HasOwner ss k x =
    (i : ℕ) × (s : Session) × (v : ℕ) × (m : CMsg) × (name : List ℕ) × (get_elem? ss i ≡ some s)
    × (s.phase ≡ waiting x v m name)
    × (same_key k (key_of m) ≡ true)

-- The map is in the order of its keys, and every waiter in it has a session that waits.
abbrev pub IsOwned : WaitMap → List Session → Type 0
IsOwned w ss = Sorted w × Owned (HasOwner ss) w

-- Another session changes, or one that does not wait on the entry.
HasOwner-set :
    (ss : List Session) (k : WaitKey) (x c : ℕ) (t t' : Session)
    → get_elem? ss c ≡ some t
    → ((v : ℕ) (m : CMsg) (name : List ℕ)
        → t.phase ≡ waiting x v m name
        → same_key k (key_of m) ≡ false)
    → HasOwner ss k x
    → HasOwner (set ss c t') k x
HasOwner-set ss k x c t t' e apart (i, s, v, m, name, at, p, same) = elim (Bool-cases (i == c)) [
  | inr other ↦ (i, s, v, m, name, get_elem?-set_other ss i c t' (ground arith) ∙ at, p, same)
  | inl self ↦
      let here_too : i ≡ c = ground arith in
      let one : t ≡ s = some_same (sym e ∙ rw here_too at at) in
      absurd (ground (arith, apart v m name (ap (λ (y : Session). y.phase) one ∙ p), same))
]

-- A session that does not wait changes.
pub IsOwned-set :
    (w : WaitMap) (ss : List Session) (c : ℕ) (t t' : Session)
    → get_elem? ss c ≡ some t
    → ((x v : ℕ) (m : CMsg) (name : List ℕ) → t.phase ≢ waiting x v m name)
    → IsOwned w ss
    → IsOwned w (set ss c t')
IsOwned-set w ss c t t' e idle o = (
  o.0,
  All-map
      (λ p a.
        All-map (λ x b. HasOwner-set ss p.0 x c t t' e (λ v m name q. absurd (idle x v m name q)) b)
          p.1 a)
      w o.1,
)

pub IsOwned-append : (w : WaitMap) (ss ts : List Session) → IsOwned w ss → IsOwned w (ss ++ ts)
IsOwned-append w ss ts o = (
  o.0,
  All-map
      (λ p a.
        All-map
          (λ x (i, s, v, m, name, at, there, q).
            (i, s, v, m, name, get_elem?-append_some ss ts i s at, there, q))
          p.1 a)
      w o.1,
)

-- What the end of a wait leaves of the map and of the sessions.
Ended : Listener → ℕ → ℕ → CMsg → Listener → Type 0
Ended l i e m l' =
    (l'.impl.registry.waiters ≡ drop_waiter (key_of m) e l.impl.registry.waiters)
    × (t : Session) × (l'.sessions ≡ set l.sessions i t)

on_wait_end-Ended :
    (l l' : Listener) (i : ℕ) (s : Session) (e v : ℕ) (m : CMsg) (name : List ℕ)
    → on_wait_end l i s e v m name ≡ some l'
    → Ended l i e m l'
unfolding on_wait_end finish_sync unregister_waiter Ended
on_wait_end-Ended l l' i s e v m name done =
    elim (Option-cases (get_elem? l.impl.registry.entries e)) [
      | inl none_there ↦ absurd (ground (arith, none_there, done))
      | inr (w, there) ↦
          let same = some_same (rw (there, on_wait_end) at done) in
          (
            ap (λ (x : Listener). x.impl.registry.waiters) (sym same),
            _,
            ap (λ (x : Listener). x.sessions) (sym same),
          )
    ]

pub ends_wait-IsOwned :
    (l l' : Listener) (i : ℕ) (s : Session) (e v : ℕ) (m : CMsg) (name : List ℕ)
    → get_elem? l.sessions i ≡ some s
    → s.phase ≡ waiting e v m name
    → on_wait_end l i s e v m name ≡ some l'
    → IsOwned l.impl.registry.waiters l.sessions
    → IsOwned l'.impl.registry.waiters l'.sessions
unfolding Ended
ends_wait-IsOwned l l' i s e v m name at p done o =
    let (gone, t, now) = on_wait_end-Ended l l' i s e v m name done in
    rw (gone, now)
      (
        drop_waiter-Sorted (key_of m) e l.impl.registry.waiters o.0,
        drop_waiter-Owned (HasOwner l.sessions) (HasOwner (set l.sessions i t)) (key_of m) e
            l.impl.registry.waiters o.0 o.1
            (λ k x other. HasOwner-set l.sessions k x i s t at (apart k x other)),
      )
  where
    apart :
        (k : WaitKey) (x : ℕ)
        → (same_key k (key_of m) ≡ false) ⊎ (x ≢ e)
        → (v' : ℕ) (m' : CMsg) (name' : List ℕ) → s.phase ≡ waiting x v' m' name'
        → same_key k (key_of m') ≡ false
    apart k x (inl other) v' m' name' q = let same : m' ≡ m = cc in rw same other
    apart k x (inr other) v' m' name' q = absurd (other cc)

-- The reply of `HandleRequest` to a session that reads.
pub reply-IsOwned :
    (garbage : FsmCompletionEvent) (l : Listener) (sv : Server) (i : ℕ) (s : Session)
    (reply : Reply)
    → get_elem? l.sessions i ≡ some s
    → s.phase ≡ reading
    → Keeps garbage (server_of l) (some (sv, reply))
    → IsOwned l.impl.registry.waiters l.sessions
    → let l' = reply_to i s reply (with_server sv l) in IsOwned l'.impl.registry.waiters l'.sessions
unfolding register_waiter
reply-IsOwned garbage l sv i s (answers r) e p k o =
    rw k.2
      (IsOwned-set l.impl.registry.waiters l.sessions i s (do_write r s) e (λ x v m name q. cc) o)
reply-IsOwned garbage l sv i s (waits x v m name) e p k o =
    let t : Session = record s { phase = waiting x v m name } in
    let w = l.impl.registry.waiters in
    let ss = set l.sessions i t in
    let before = IsOwned-set w l.sessions i s t e (λ x v m name q. cc) o in
    let fresh = length l.impl.registry.entries in
    let now : sv.registry.waiters ≡ push_waiter (key_of m) fresh w =
      ap (λ (r : WaitRegistry). r.waiters) k.2.2 in
    rw now (
      push_waiter-Sorted (key_of m) fresh w before.0,
      push_waiter-Owned (HasOwner ss) (key_of m) fresh w before.1 (λ k' same. (
        i,
        t,
        v,
        m,
        name,
        get_elem?-set l.sessions i s t e,
        ap (λ (n : ℕ). waiting n v m name) k.2.1,
        same,
      )),
    )
