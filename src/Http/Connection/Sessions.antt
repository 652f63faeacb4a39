-- ===== src/Http/Connection/Sessions.antt =====
-- What each handler of a session of reg_fsm/src/HttpServer.cpp leaves.
use fsm_framework.Base.{
  ℕ, ◌≤◌, ◌<◌, ◌≡◌, refl, inl, inr, true, List, [], ◌∷◌, some, arith, length, get_elem?, All,
  All-set, All-map, All-get_elem?, Option-cases,
}
use fsm_framework.Data.{CMsg}
use fsm_framework.Pump.{FsmCompletionEvent}
use fsm_framework.Http.Waiters.{WaitRegistry}
use fsm_framework.Http.Waiters.Keeping.{IsTidy}
use fsm_framework.Http.Session.{Json}
use fsm_framework.Http.Handler.{Response, Server, Reply, answers, waits, handle_request}
use fsm_framework.Http.Handler.Keeping.{
  IsKept, Keeps, Extends-le, handle_request-Keeps, finish_sync-Keeps,
}
use fsm_framework.Http.Acceptor.{Impl}
use fsm_framework.Http.Connection.{
  SessionPhase, reading, shut, dropped, waiting, writing, Session, Listener, server_of, with_server,
  with_session, do_write, ReadResult, end_of_stream, read_failed, got, reply_to, on_read,
  on_wait_end,
}

-- A session was given at most one response: none while it reads or waits, and then on an entry that is there.
abbrev pub FitsPhase : ℕ → SessionPhase → List Response → Type 0
FitsPhase n reading rs = rs ≡ []
FitsPhase n (waiting e v m name) rs = (rs ≡ []) × (e < n)
FitsPhase n (writing r) rs = rs ≡ r ∷ []
FitsPhase n shut rs = length rs ≤ 1
FitsPhase n dropped rs = rs ≡ []

abbrev pub IsFit : ℕ → Session → Type 0
IsFit n s = FitsPhase n s.phase s.responses

pub record IoInv (l : Listener) : Type 0 where
  pub kept : IsKept (server_of l)
  pub accepting : l.impl.running ≡ true → 0 < l.accepts
  pub fit : All (IsFit (length l.impl.registry.entries)) l.sessions

FitsPhase-later :
    (n k : ℕ) (p : SessionPhase) (rs : List Response) → n ≤ k → FitsPhase n p rs → FitsPhase k p rs
FitsPhase-later n k reading rs h a = a
FitsPhase-later n k (waiting e v m name) rs h a = (a.0, omega (arith, a.1))
FitsPhase-later n k (writing r) rs h a = a
FitsPhase-later n k shut rs h a = a
FitsPhase-later n k dropped rs h a = a

IsFit-later : (n k : ℕ) (ss : List Session) → n ≤ k → All (IsFit n) ss → All (IsFit k) ss
IsFit-later n k ss h a = All-map (λ s f. FitsPhase-later n k s.phase s.responses h f) ss a

-- A handler of the session `i` leaves the server's state `sv` and the session `s`.
pub session-IoInv :
    (l : Listener) (sv : Server) (i : ℕ) (s : Session)
    → IoInv l
    → IsKept sv
    → length l.impl.registry.entries ≤ length sv.registry.entries
    → IsFit (length sv.registry.entries) s
    → IoInv (with_session i s (with_server sv l))
session-IoInv l sv i s v k more f = record {
  kept = k;
  accepting = v.accepting;
  fit =
      All-set (IsFit (length sv.registry.entries)) l.sessions i s
        (IsFit-later (length l.impl.registry.entries) (length sv.registry.entries) l.sessions more
          v.fit)
        f;
}

-- A step that touches the registry and whether the server runs.
pub registry-IoInv :
    (l : Listener) (s : Impl) (w : WaitRegistry)
    → IsTidy w
    → length w.entries ≡ length l.impl.registry.entries
    → s.registry ≡ w
    → (s.running ≡ true → l.impl.running ≡ true)
    → IoInv l
    → IoInv (record l { impl = s })
registry-IoInv l s w t same to runs v = record {
  kept = (rw to t, v.kept.1);
  accepting = λ e. v.accepting (runs e);
  fit = rw (to, same) (v.fit);
}

pub IsFit-at :
    (l : Listener) (i : ℕ) (s : Session)
    → IoInv l
    → get_elem? l.sessions i ≡ some s
    → IsFit (length l.impl.registry.entries) s
IsFit-at l i s v e = All-get_elem? (IsFit (length l.impl.registry.entries)) l.sessions i s v.fit e

do_write-IsFit : (n : ℕ) (r : Response) (s : Session) → s.responses ≡ [] → IsFit n (do_write r s)
do_write-IsFit n r s e = rw e refl

reply-IsFit :
    (garbage : FsmCompletionEvent) (l : Listener) (sv : Server) (i : ℕ) (s : Session)
    (reply : Reply)
    → IoInv l
    → s.responses ≡ []
    → Keeps garbage (server_of l) (some (sv, reply))
    → IoInv (reply_to i s reply (with_server sv l))
reply-IsFit garbage l sv i s (answers r) v none_yet k =
    session-IoInv l sv i (do_write r s) v k.0
      (Extends-le l.impl.registry.entries sv.registry.entries k.1)
      (do_write-IsFit (length sv.registry.entries) r s none_yet)
reply-IsFit garbage l sv i s (waits e w m name) v none_yet k =
    session-IoInv l sv i (record s { phase = waiting e w m name }) v k.0
      (Extends-le l.impl.registry.entries sv.registry.entries k.1) (none_yet, k.2.0)

module _ (j : Json) (garbage : FsmCompletionEvent) where
  -- What `OnRead` leaves, for a session that reads.
  pub on_read-IoInv :
      (l : Listener) (i : ℕ) (s : Session) (r : ReadResult)
      → IoInv l
      → get_elem? l.sessions i ≡ some s
      → s.phase ≡ reading
      → (l' : Listener) × (on_read j garbage l i s r ≡ some l') × IoInv l'
  unfolding on_read
  on_read-IoInv l i s end_of_stream v e p =
      let none_yet : s.responses ≡ [] = rw p at (IsFit-at l i s v e) in
      (
        _,
        refl,
        session-IoInv l (server_of l) i (record s { phase = shut }) v v.kept (omega arith)
            (rw none_yet (omega arith)),
      )
  on_read-IoInv l i s read_failed v e p =
      let none_yet : s.responses ≡ [] = rw p at (IsFit-at l i s v e) in
      (
        _,
        refl,
        session-IoInv l (server_of l) i (record s { phase = dropped }) v v.kept (omega arith)
            none_yet,
      )
  on_read-IoInv l i s (got r) v e p =
      let none_yet : s.responses ≡ [] = rw p at (IsFit-at l i s v e) in
      let k = handle_request-Keeps j garbage (server_of l) r v.kept in
      elim (Option-cases (handle_request j garbage (server_of l) r)) [
        | inl lost ↦ absurd (rw lost at k)
        | inr ((sv, reply), done) ↦ (
          reply_to i s reply (with_server sv l),
          rw (done, on_read),
          reply-IsFit garbage l sv i s reply v none_yet (rw done at k),
        )
      ]

-- What the end of a wait leaves.
pub on_wait_end-IoInv :
    (l : Listener) (i : ℕ) (s : Session) (e v : ℕ) (m : CMsg) (name : List ℕ)
    → IoInv l
    → get_elem? l.sessions i ≡ some s
    → s.phase ≡ waiting e v m name
    → (sv : Server) × (r : Response) × (on_wait_end l i s e v m name
        ≡ some (with_session i (do_write r s) (with_server sv l)))
      × IoInv (with_session i (do_write r s) (with_server sv l))
unfolding on_wait_end
on_wait_end-IoInv l i s e v m name w at p =
    let f = rw p at (IsFit-at l i s w at) in
    let (sv, r, done, k, same) = finish_sync-Keeps (server_of l) e v m name w.kept f.1 in
    (
      sv,
      r,
      rw (done, on_wait_end),
      session-IoInv l sv i (do_write r s) w k (omega (arith, same))
          (do_write-IsFit (length sv.registry.entries) r s f.0),
    )

pub on_write-IoInv :
    (l : Listener) (i : ℕ) (s : Session) (r : Response)
    → IoInv l
    → get_elem? l.sessions i ≡ some s
    → s.phase ≡ writing r
    → (s.responses ≡ r ∷ []) × IoInv (with_session i (record s { phase = shut }) l)
on_write-IoInv l i s r v e p =
    let one : s.responses ≡ r ∷ [] = rw p at (IsFit-at l i s v e) in
    (
      one,
      session-IoInv l (server_of l) i (record s { phase = shut }) v v.kept (omega arith)
          (rw one (omega arith)),
    )
