-- ===== src/Http/Connection/Answers.antt =====
-- A request to the server of reg_fsm/src/HttpServer.cpp is answered once.
use fsm_framework.Base.{
  ℕ, ◌≡◌, refl, ap, ◌∙◌, sym, inl, inr, false, List, [], ◌∷◌, some, arith, get_elem?, get_elem?-set,
  Option-cases, some_same,
}
use fsm_framework.Pump.{FsmCompletionEvent}
use fsm_framework.Http.Session.{Json}
use fsm_framework.Http.Handler.{Request, Response, Server, Reply, answers, waits, handle_request}
use fsm_framework.Http.Connection.{
  reading, shut, waiting, Session, Listener, server_of, with_server, with_session, do_write, close,
  got, reply_to, on_read, ends_wait, writes, IoSteps, here, next,
}
use fsm_framework.Http.Connection.Sessions.{IoInv, on_read-IoInv, on_wait_end-IoInv, on_write-IoInv}

-- The session `i` was given this response alone, and its connection is shut down.
abbrev pub Answered : Listener → ℕ → Response → Type 0
Answered l i r = get_elem? l.sessions i ≡ some (record { phase = shut; responses = r ∷ [] })

module _ (j : Json) (garbage : FsmCompletionEvent) where
  -- A response is written, and the session closed.
  written :
      (l l' : Listener) (i : ℕ) (s : Session) (r : Response)
      → IoSteps j garbage l l'
      → IoInv l'
      → get_elem? l'.sessions i ≡ some (do_write r s)
      → (l'' : Listener) × IoSteps j garbage l l'' × Answered l'' i r
  written l l' i s r steps v e =
      let w = on_write-IoInv l' i (do_write r s) r v e refl in
      let l'' = with_session i (close (do_write r s)) l' in
      let closed : close (do_write r s) ≡ record { phase = shut; responses = r ∷ [] } =
        ap (λ (rs : List Response). record { phase = shut; responses = rs }) w.0 in
      (
        l'',
        next steps (writes l' i (do_write r s) r false e refl),
        get_elem?-set l'.sessions i (do_write r s) (close (do_write r s)) e ∙ ap some closed,
      )

  -- What comes after the reply of `HandleRequest`.
  replied :
      (l : Listener) (i : ℕ) (s : Session) (sv : Server) (reply : Reply)
      → IoInv (reply_to i s reply (with_server sv l))
      → get_elem? l.sessions i ≡ some s
      → (l' : Listener) × (r : Response) × IoSteps j garbage
          (reply_to i s reply (with_server sv l))
          l'
        × Answered l' i r
  replied l i s sv (answers r) v e =
      let l₁ = with_session i (do_write r s) (with_server sv l) in
      let (l', steps, done) =
        written l₁ l₁ i s r here v (get_elem?-set l.sessions i s (do_write r s) e) in
      (l', r, steps, done)
  replied l i s sv (waits w u m name) v e =
      let t = record s { phase = waiting w u m name } in
      let l₁ = with_session i t (with_server sv l) in
      let at : get_elem? l₁.sessions i ≡ some t = get_elem?-set l.sessions i s t e in
      let (sv', r, ended, v') = on_wait_end-IoInv l₁ i t w u m name v at refl in
      let l₂ = with_session i (do_write r t) (with_server sv' l₁) in
      let (l', steps, done) =
        written l₁ l₂ i t r (next here (ends_wait l₁ l₂ i t w u m name at refl ended)) v'
          (get_elem?-set l₁.sessions i t (do_write r t) at) in
      (l', r, steps, done)

  -- A request that comes in on a session that reads is handled, and from what `OnRead` leaves, the handlers of that
  -- session can go on until it was given exactly one response and its connection is shut down.
  pub request-Answered :
      (l : Listener) (i : ℕ) (s : Session) (r : Request)
      → IoInv l
      → get_elem? l.sessions i ≡ some s
      → s.phase ≡ reading
      → (l₁ : Listener) × (on_read j garbage l i s (got r) ≡ some l₁)
        × (l' : Listener) × (resp : Response) × IoSteps j garbage l₁ l'
        × Answered l' i resp
  unfolding on_read
  request-Answered l i s r v e p =
      let (l₁, same, w) = on_read-IoInv j garbage l i s (got r) v e p in
      elim (Option-cases (handle_request j garbage (server_of l) r)) [
        | inl lost ↦ absurd (ground (arith, same, lost))
        | inr ((sv, reply), done) ↦
            let at : on_read j garbage l i s (got r)
                ≡ some (reply_to i s reply (with_server sv l)) =
              rw (done, on_read) in
            let to : l₁ ≡ reply_to i s reply (with_server sv l) = some_same (sym same ∙ at) in
            let (l', resp, steps, answered) = replied l i s sv reply (rw to at w) e in
            (reply_to i s reply (with_server sv l), at, l', resp, steps, answered)
      ]
