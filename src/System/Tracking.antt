-- ===== src/System/Tracking.antt =====
-- In an undisturbed run each FSM has exactly one message on its way.
use fsm_framework.Base.{
  ℕ, ◌+◌, ◌≤◌, ◌≡◌, refl, ◌∙◌, sym, ◌≢◌, ◌⊎◌, inl, inr, ◌==◌, true, false, [], ◌∷◌, Option, none,
  some, arith, if◌then◌else◌, All, Bool-cases,
}
use fsm_framework.Data.{working, CMsg}
use fsm_framework.Pump.{Hub}
use fsm_framework.Fsm.{Cfsm}
use fsm_framework.Flow.{
  Reaction, refuse, post_next, post_later, finish, Plan, follow_up, react, Follows,
}
use fsm_framework.Factory.{Cfactory}
use fsm_framework.Factory.Invariant.{IsValid}
use fsm_framework.Factory.Frame.{lookup_fsm, has_ended}
use fsm_framework.System.Pending.{pending, tokens, posted, react-Adds}
use fsm_framework.System.Undisturbed.{goes_on, Goes, IsSteady}

-- An FSM that the map holds works and has one message on its way; for an id without an FSM there is none.
abbrev pub Held : Option Cfsm → ℕ → Type 0
Held none k = k ≡ 0
Held (some f) k = (f.state ≡ working) × (f.has_factory ≡ true) × (k ≡ 1)

-- A message for an FSM of the service is one that its plan does not refuse.
abbrev pub Fits : Plan → ℕ → CMsg → Type 0
Fits p sid m = m.service_id ≡ sid → m.fsm_id ≢ 0 → goes_on (p working m.type) ≡ true

pub record Tracks (n : ℕ) (h : Hub) (fac : Cfactory) : Type 0 where
  pub plan : Plan
  pub follows : Follows fac.class plan
  pub steady : IsSteady plan
  pub valid : IsValid fac
  pub owned : fac.has_mgr ≡ true
  pub counted : fac.next_fsm_id ≤ n + 1
  pub tracked :
      (id : ℕ) → id ≢ 0 → Held (lookup_fsm id fac.fsm_list) (tokens fac.fac_id id (pending h))
  pub fits : All (Fits plan fac.fac_id) (pending h)

-- Two hubs with the same messages on their way to services other than one.
abbrev pub Elsewhere : ℕ → Hub → Hub → Type 0
Elsewhere service h h' =
    (sid : ℕ)
    → sid ≢ service
    → ((id : ℕ) → tokens sid id (pending h') ≡ tokens sid id (pending h))
      × ((p : Plan) → All (Fits p sid) (pending h) → All (Fits p sid) (pending h'))

pub tokens_other :
    (sid id : ℕ) (m : CMsg) → (m.service_id ≢ sid) ⊎ (m.fsm_id ≢ id) → tokens sid id (m ∷ []) ≡ 0
tokens_other sid id m d = ground arith

pub tokens_self : (m : CMsg) → tokens m.service_id m.fsm_id (m ∷ []) ≡ 1
tokens_self m = ground arith

module _ (p : Plan) (f : Cfsm) (m : CMsg) (h : Hub) (linked : f.has_factory ≡ true) where
  posted_elsewhere :
      (r : Reaction) (sid id : ℕ) → sid ≢ m.service_id → tokens sid id (posted r f m) ≡ 0
  posted_elsewhere (refuse e) sid id d = refl
  posted_elsewhere (post_next e) sid id d = ground arith
  posted_elsewhere (post_later ms e) sid id d = ground arith
  posted_elsewhere finish sid id d = refl

  posted_unfit :
      (r : Reaction) (q : Plan) (sid : ℕ) → sid ≢ m.service_id → All (Fits q sid) (posted r f m)
  posted_unfit (refuse e) q sid d = tt
  posted_unfit (post_next e) q sid d = ((λ s i. absurd (d (sym s))), tt)
  posted_unfit (post_later ms e) q sid d = ((λ s i. absurd (d (sym s))), tt)
  posted_unfit finish q sid d = tt

  posted_other : (r : Reaction) (id : ℕ) → f.fsm_id ≢ id → tokens m.service_id id (posted r f m) ≡ 0
  posted_other (refuse e) id d = refl
  posted_other (post_next e) id d = ground arith
  posted_other (post_later ms e) id d = ground arith
  posted_other finish id d = refl

  pub react-other :
      (r : Reaction) (id : ℕ)
      → h.stopped ≡ false
      → f.fsm_id ≢ id
      → tokens m.service_id id (pending (react r true f m h).1) ≡ tokens m.service_id id (pending h)
  react-other r id running d =
      omega (arith, (react-Adds r f m h running).counts m.service_id id, posted_other r id d)

  react_self :
      (r : Reaction)
      → h.stopped ≡ false
      → Goes p r
      → tokens m.service_id f.fsm_id (pending h) ≡ 0
      → let out = react r true f m h in
        Held
          (if has_ended out.0 then none else some (out.0))
          (tokens m.service_id f.fsm_id (pending out.1))
  react_self (refuse e) running g alone = absurd g
  react_self (post_next e) running g alone =
      let c = (react-Adds (post_next e) f m h running).counts m.service_id f.fsm_id in
      (refl, linked, c ∙ omega (arith, alone, tokens_self (follow_up f m e)))
  react_self (post_later ms e) running g alone =
      let c = (react-Adds (post_later ms e) f m h running).counts m.service_id f.fsm_id in
      (refl, linked, c ∙ omega (arith, alone, tokens_self (follow_up f m e)))
  react_self finish running g alone = alone

  -- The reaction of an FSM that has no other message on its way.
  pub react-Held :
      (r : Reaction) (id : ℕ) (o : Option Cfsm)
      → h.stopped ≡ false
      → Goes p r
      → tokens m.service_id f.fsm_id (pending h) ≡ 0
      → (f.fsm_id ≢ id → Held o (tokens m.service_id id (pending h)))
      → let out = react r true f m h in
        Held
          (if f.fsm_id == id then (if has_ended out.0 then none else some (out.0)) else o)
          (tokens m.service_id id (pending out.1))
  react-Held r id o running g alone others = elim (Bool-cases (f.fsm_id == id)) [
    | inr other ↦
        let d : f.fsm_id ≢ id = ground arith in rw (other, react-other r id running d) (others d)
    | inl self ↦
        let same : id ≡ f.fsm_id = ground arith in rw (self, same) (react_self r running g alone)
  ]

  -- Messages for other services are on their way as before.
  pub react-Elsewhere :
      (r : Reaction) → h.stopped ≡ false → Elsewhere m.service_id h (react r true f m h).1
  react-Elsewhere r running sid d = (
    λ id. omega (arith, (react-Adds r f m h running).counts sid id, posted_elsewhere r sid id d),
    λ q fits. (react-Adds r f m h running).all (Fits q sid) fits (posted_unfit r q sid d),
  )

  pub react-Fits :
      (r : Reaction)
      → h.stopped ≡ false
      → Goes p r
      → All (Fits p m.service_id) (pending h)
      → All (Fits p m.service_id) (pending (react r true f m h).1)
  react-Fits r running g fits =
      (react-Adds r f m h running).all (Fits p m.service_id) fits (posted_fits r g)
    where
      posted_fits : (r : Reaction) → Goes p r → All (Fits p m.service_id) (posted r f m)
      posted_fits (refuse e) g = tt
      posted_fits (post_next e) g = ((λ s i. g), tt)
      posted_fits (post_later ms e) g = ((λ s i. g), tt)
      posted_fits finish g = tt
