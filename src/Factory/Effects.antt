-- ===== src/Factory/Effects.antt =====
-- What handling a message leaves alone: the fields of the factory that `FacMsgPrc` does not set,
-- and any property of the hub that the posting of a message, a new timer and a completion keep.
use fsm_framework.Base.{
  ℕ, ◌+◌, ◌≤◌, ◌≡◌, refl, ◌∙◌, inl, inr, Bool, true, false, ◌&&◌, not, List, Option, none, some,
  arith, get_elem?, set, Bool-cases, Option-cases,
}
use fsm_framework.Data.{u32, kill_fsm, EerrNo, CMsg, msg_init, same_state, same_type}
use fsm_framework.Pump.{Hub, FsmCompletionEvent, notify_fsm_completed}
use fsm_framework.Fsm.{Cfsm}
use fsm_framework.Flow.{
  Reaction, refuse, post_next, post_later, finish, Plan, follow_up, enqueue, add_timer, react,
  Follows,
}
use fsm_framework.Factory.{
  Cfactory, add_fsm, reclaim, dispatch_to_fsm, target_fsm, start_fsm, fac_msg_prc,
}

-- The same factory, with a counter that went up by at most `n`.
abbrev pub SameFactory : ℕ → Cfactory → Cfactory → Type 0
SameFactory n fac fac' =
    (fac'.fac_id ≡ fac.fac_id)
    × (fac'.has_mgr ≡ fac.has_mgr)
    × (fac'.class ≡ fac.class)
    × (fac'.next_fsm_id ≤ fac.next_fsm_id + n)

reclaim-same :
    (fac : Cfactory) (l : List Cfsm) (f : Cfsm) (m : CMsg) (ret : EerrNo) (h : Hub)
    → SameFactory 0 fac (reclaim (record fac { fsm_list = l }) f m ret h).0
unfolding reclaim
reclaim-same fac l f m ret h = ground arith

dispatch_to_fsm-same :
    (fac : Cfactory) (p : Option ℕ) (m : CMsg) (h : Hub)
    → SameFactory 0 fac (dispatch_to_fsm fac p m h).0
unfolding dispatch_to_fsm
dispatch_to_fsm-same fac none m h = ground arith
dispatch_to_fsm-same fac (some i) m h = elim (Option-cases (get_elem? fac.fsm_list i)) [
  | inl e ↦ rw (e, dispatch_to_fsm) (ground arith)
  | inr (f, e) ↦
      let m' = record m { fsm_id = f.fsm_id } in
      let done = fac.class.process_msg fac.has_mgr f m' h in
      rw (e, dispatch_to_fsm) (reclaim-same fac (set fac.fsm_list i done.0) done.0 m' done.2 done.1)
]

u32-le : (n : ℕ) → u32 n ≤ n
u32-le n = omega arith

add_fsm-same : (fac : Cfactory) → SameFactory 1 fac (add_fsm fac).0
unfolding add_fsm
add_fsm-same fac = ground (arith, u32-le (fac.next_fsm_id + 1))

start_fsm-same :
    (p : Cfactory × Option ℕ) (m : CMsg) (h : Hub) → SameFactory 0 p.0 (start_fsm p m h).0
unfolding start_fsm
start_fsm-same (fac, none) m h = ground arith
start_fsm-same (fac, some i) m h = dispatch_to_fsm-same fac (some i) m h

SameFactory-trans :
    (n k : ℕ) (a b c : Cfactory) → SameFactory n a b → SameFactory k b c → SameFactory (n + k) a c
SameFactory-trans n k a b c p q = (q.0 ∙ p.0, q.1 ∙ p.1, q.2 ∙ p.2, omega arith)

-- Handling a message leaves the factory's id, manager and class, and adds at most one to its
-- counter.
pub fac_msg_prc-same :
    (fac : Cfactory) (m : CMsg) (h : Hub) → SameFactory 1 fac (fac_msg_prc fac m h).0
unfolding fac_msg_prc
fac_msg_prc-same fac m h = elim (Option-cases (target_fsm fac m)) [
  | inr (i, e) ↦
      let r = dispatch_to_fsm-same fac (some i) m h in
      rw (e, fac_msg_prc) (r.0, r.1, r.2, omega arith)
  | inl e ↦
      rw (e, fac_msg_prc)
        (elim (Bool-cases (same_type msg_init m.type)) [
          | inr other ↦ rw other (refl, refl, refl, omega arith)
          | inl first ↦ rw first (
              SameFactory-trans 1 0 fac (add_fsm fac).0 (start_fsm (add_fsm fac) m h).0
                (add_fsm-same fac) (start_fsm-same (add_fsm fac) m h))
        ])
]

-- A property of the hub that whatever an FSM does to the hub keeps.
pub record IsStable (P : Hub → Type 0) : Type 0 where
  pub enqueued : (m : CMsg) (h : Hub) → P h → P (enqueue m h)
  pub timed : (ms : ℕ) (m : CMsg) (h : Hub) → P h → P (add_timer ms m h)
  pub told : (e : FsmCompletionEvent) (h : Hub) → P h → P (notify_fsm_completed h e)

module _ (P : Hub → Type 0) (s : IsStable P) where
  react-stable :
      (r : Reaction) (b : Bool) (f : Cfsm) (m : CMsg) (h : Hub) → P h → P (react r b f m h).1
  react-stable (refuse e) b f m h x = x
  react-stable (post_next e) b f m h x = elim (Bool-cases (b && not h.stopped)) [
    | inl y ↦ rw y (s.enqueued (follow_up f m e) h x)
    | inr n ↦ rw n x
  ]
  react-stable (post_later ms e) true f m h x = s.timed ms (follow_up f m e) h x
  react-stable (post_later ms e) false f m h x = x
  react-stable finish b f m h x = x

  reclaim-stable :
      (fac : Cfactory) (f : Cfsm) (m : CMsg) (ret : EerrNo) (h : Hub)
      → P h
      → P (reclaim fac f m ret h).1
  unfolding reclaim
  reclaim-stable fac f m ret h x = elim (Bool-cases (same_state kill_fsm f.state)) [
    | inr live ↦ rw live x
    | inl dead ↦ elim (Bool-cases fac.has_mgr) [
      | inr alone ↦ rw (dead, alone) x
      | inl owned ↦
          let event : FsmCompletionEvent = record {
            service_id = fac.fac_id;
            fsm_id = f.fsm_id;
            session_id = m.session_id;
            result = ret;
            final_event = m.type;
          } in
          rw (dead, owned) (s.told event h x)
    ]
  ]

  dispatch_to_fsm-stable :
      (fac : Cfactory) (p : Plan) (o : Option ℕ) (m : CMsg) (h : Hub)
      → Follows fac.class p
      → P h
      → P (dispatch_to_fsm fac o m h).1
  unfolding dispatch_to_fsm
  dispatch_to_fsm-stable fac p none m h w x = x
  dispatch_to_fsm-stable fac p (some i) m h w x = elim (Option-cases (get_elem? fac.fsm_list i)) [
    | inl e ↦ rw (e, dispatch_to_fsm) x
    | inr (f, e) ↦
        let m' = record m { fsm_id = f.fsm_id } in
        let done = fac.class.process_msg fac.has_mgr f m' h in
        let fac' = record fac { fsm_list = set fac.fsm_list i done.0 } in
        let kept : P done.1 =
          rw (w.reacts fac.has_mgr f m' h)
            (react-stable (p f.state m.type) (f.has_factory && fac.has_mgr) f m' h x) in
        rw (e, dispatch_to_fsm) (reclaim-stable fac' done.0 m' done.2 done.1 kept)
  ]

  start_fsm-stable :
      (p : Plan) (q : Cfactory × Option ℕ) (m : CMsg) (h : Hub)
      → Follows q.0.class p
      → P h
      → P (start_fsm q m h).1
  unfolding start_fsm
  start_fsm-stable p (fac, none) m h w x = x
  start_fsm-stable p (fac, some i) m h w x = dispatch_to_fsm-stable fac p (some i) m h w x

  -- Handling a message keeps such a property.
  pub fac_msg_prc-stable :
      (fac : Cfactory) (p : Plan) (m : CMsg) (h : Hub)
      → Follows fac.class p
      → P h
      → P (fac_msg_prc fac m h).1
  unfolding fac_msg_prc
  fac_msg_prc-stable fac p m h w x = elim (Option-cases (target_fsm fac m)) [
    | inr (i, e) ↦ rw (e, fac_msg_prc) (dispatch_to_fsm-stable fac p (some i) m h w x)
    | inl e ↦
        rw (e, fac_msg_prc)
          (elim (Bool-cases (same_type msg_init m.type)) [
            | inr other ↦ rw other x
            | inl first ↦
                rw first (start_fsm-stable p (add_fsm fac) m h (rw (add_fsm-same fac).2 w) x)
          ])
  ]
