-- ===== src/System/Handling.antt =====
-- One message handled by a factory of Cfactory.cpp in an undisturbed run: each FSM keeps its one message.
use fsm_framework.Base.{
  ℕ, suc, ◌+◌, ◌≤◌, ◌<◌, ◌≡◌, refl, ap, subst, ◌∙◌, sym, ◌≢◌, ◌⊎◌, inl, inr, ◌==◌, true, false,
  List, [], ◌∷◌, none, some, arith, leb, length, All, Bool-cases, Option-cases,
}
use fsm_framework.Data.{
  u32_mod, fsm_num_in_fac, working, idle, EerrNo, success, msg_init, CMsg, same_type,
}
use fsm_framework.Pump.{Hub, notify_fsm_completed, FsmCompletionEvent}
use fsm_framework.Fsm.{Cfsm}
use fsm_framework.Flow.{Plan, Follows}
use fsm_framework.Factory.{Cfactory, fac_msg_prc}
use fsm_framework.Factory.Pointers.{Ascending-le}
use fsm_framework.Factory.Invariant.{IsValid, fac_msg_prc-IsValid}
use fsm_framework.Factory.Frame.{
  lookup_fsm, lookup_fsm_below, next_id_free, lookup_fsm-find_fsm, has_ended, Handled,
}
use fsm_framework.Factory.Effects.{fac_msg_prc-same}
use fsm_framework.Factory.Refines.{
  fresh, fac_msg_prc_existing, fac_msg_prc_new, fac_msg_prc_unknown, fac_msg_prc_full,
}
use fsm_framework.Manager.Session.{Handled-outcome, after_hub, outcome}
use fsm_framework.System.Pending.{pending, tokens}
use fsm_framework.System.Undisturbed.{goes_on, Goes, IsSteady}
use fsm_framework.System.Tracking.{
  Held, Fits, Tracks, Elsewhere, react-Elsewhere, react-Held, react-Fits, tokens_other, tokens_self,
}

-- A hub in which as many messages are on their way to each FSM.
pub Tracks-hub :
    (n k : ℕ) (h h' : Hub) (fac : Cfactory) (v : Tracks n h fac)
    → n ≤ k
    → ((id : ℕ) → id ≢ 0 → tokens fac.fac_id id (pending h') ≡ tokens fac.fac_id id (pending h))
    → All (Fits v.plan fac.fac_id) (pending h')
    → Tracks k h' fac
Tracks-hub n k h h' fac v later same fits = record {
  plan = v.plan;
  follows = v.follows;
  steady = v.steady;
  valid = v.valid;
  owned = v.owned;
  counted = omega (arith, v.counted);
  tracked = λ id i. rw (same id i) (v.tracked id i);
  fits = fits;
}

-- A message that is for no FSM of the factory is taken off the queue.
pub Tracks-take :
    (n : ℕ) (h : Hub) (fac : Cfactory) (m : CMsg) (rest : List CMsg) (v : Tracks n h fac)
    → h.pump ≡ m ∷ rest
    → (m.service_id ≢ fac.fac_id) ⊎ (m.fsm_id ≡ 0)
    → Tracks (suc n) (record h { pump = rest }) fac
Tracks-take n h fac m rest v e other =
    Tracks-hub n (suc n) h (record h { pump = rest }) fac v (omega arith)
      (λ id i. rw e (ground arith)) ((rw e at v.fits).1)

notify-pending : (h : Hub) (e : FsmCompletionEvent) → pending (notify_fsm_completed h e) ≡ pending h
unfolding notify_fsm_completed
notify-pending h e = elim (Bool-cases h.has_callback) [ inl y ↦ rw y | inr n ↦ rw n ]

after_hub-pending :
    (sid : ℕ) (p : Plan) (f : Cfsm) (m : CMsg) (h : Hub)
    → pending (after_hub sid p f m h) ≡ pending (outcome p f m h).1
after_hub-pending sid p f m h = elim (Bool-cases (has_ended (outcome p f m h).0)) [
  | inl y ↦ rw y (notify-pending (outcome p f m h).1 _)
  | inr n ↦ rw n
]

Elsewhere-refl : (service : ℕ) (h : Hub) → Elsewhere service h h
Elsewhere-refl service h sid d = ((λ id. refl), (λ p a. a))

-- What handling the message in the hub `h` left: a factory that is tracked, and nothing changed for
-- the other services.
abbrev pub Moves : ℕ → CMsg → Hub → Cfactory × Hub × EerrNo → Type 0
Moves n m h (fac', h', ret) = Tracks n h' fac' × Elsewhere m.service_id h h'

-- The FSM `f` handles the message, with no other on its way; the hub has the message no more.
Handled-Moves :
    (n : ℕ) (h : Hub) (fac : Cfactory) (p : Plan) (f : Cfsm) (m : CMsg)
    → Follows fac.class p
    → IsSteady p
    → fac.has_mgr ≡ true
    → fac.fac_id ≡ m.service_id
    → h.stopped ≡ false
    → f.has_factory ≡ true
    → Goes p (p f.state m.type)
    → tokens m.service_id f.fsm_id (pending h) ≡ 0
    → ((id : ℕ)
        → id ≢ 0
        → f.fsm_id ≢ id
        → Held (lookup_fsm id fac.fsm_list) (tokens m.service_id id (pending h)))
    → All (Fits p m.service_id) (pending h)
    → Handled fac f m h (fac_msg_prc fac m h)
    → IsValid (fac_msg_prc fac m h).0
    → fac.next_fsm_id ≤ n + 1
    → Moves (suc n) m h (fac_msg_prc fac m h)
Handled-Moves n h fac p f m w st owned to running linked goes alone others fits r v c =
    let same = fac_msg_prc-same fac m h in
    let seen =
      Handled-outcome fac m.service_id p (λ j. lookup_fsm j fac.fsm_list) f m h w owned linked to
        (λ j. refl) r in
    let m' = record m { fsm_id = f.fsm_id } in
    let left : pending (fac_msg_prc fac m h).1 ≡ pending (outcome p f m h).1 =
      ap pending seen.0 ∙ after_hub-pending m.service_id p f m h in
    let sid : (fac_msg_prc fac m h).0.fac_id ≡ m.service_id = same.0 ∙ to in
    (
      record {
        plan = p;
        follows = rw same.2 w;
        steady = st;
        valid = v;
        owned = same.1 ∙ owned;
        counted = omega (arith, same.3);
        tracked = λ id i.
            rw (sid, left, seen.1 id)
              (react-Held p f m' h linked (p f.state m.type) id (lookup_fsm id fac.fsm_list) running
                goes alone (λ d. others id i d));
        fits = rw (sid, left) (react-Fits p f m' h linked (p f.state m.type) running goes fits);
      },
      rw left (react-Elsewhere p f m' h linked (p f.state m.type) running),
    )

module _ (n : ℕ) (h : Hub) (fac : Cfactory) (m : CMsg) (rest : List CMsg) (v : Tracks n h fac)
    (e : h.pump ≡ m ∷ rest) (running : h.stopped ≡ false) (to : fac.fac_id ≡ m.service_id)
    (b : n + 2 < u32_mod) where
  abbrev after : Hub
  after = record h { pump = rest }

  -- As many messages are on their way as before, less the one that was taken.
  taken :
      (id : ℕ)
      → tokens m.service_id id (pending h)
        ≡ tokens m.service_id id (m ∷ []) + tokens m.service_id id (pending after)
  taken id = rw e (omega arith)

  Fits-after : All (Fits v.plan m.service_id) (pending after)
  Fits-after = subst (λ (s : ℕ). All (Fits v.plan s) (pending after)) to ((rw e at v.fits).1)

  held : (id : ℕ) → id ≢ 0 → Held (lookup_fsm id fac.fsm_list) (tokens m.service_id id (pending h))
  held id i = rw (← to) (v.tracked id i)

  Held-after :
      (id : ℕ)
      → id ≢ 0
      → m.fsm_id ≢ id
      → Held (lookup_fsm id fac.fsm_list) (tokens m.service_id id (pending after))
  Held-after id i d =
      let same : tokens m.service_id id (pending after) ≡ tokens m.service_id id (pending h) =
        omega (arith, taken id, tokens_other m.service_id id m (inr d)) in
      rw same (held id i)

  -- The message is for an FSM: the factory holds it, and it handles its one message.
  existing : m.fsm_id ≢ 0 → Moves (suc n) m after (fac_msg_prc fac m after)
  existing i = elim (Option-cases (lookup_fsm m.fsm_id fac.fsm_list)) [
    | inl none_there ↦
        let k : tokens m.service_id m.fsm_id (pending h) ≡ 0 = rw none_there at (held m.fsm_id i) in
        absurd (omega (arith, taken m.fsm_id, tokens_self m))
    | inr (f, there) ↦
        let (_, _, _, same) = lookup_fsm-find_fsm m.fsm_id fac.fsm_list f there in
        let (works, linked, one) = rw there at (held m.fsm_id i) in
        let alone : tokens m.service_id f.fsm_id (pending after) ≡ 0 =
          rw same (omega (arith, taken m.fsm_id, tokens_self m)) in
        let fit : goes_on (v.plan working m.type) ≡ true = (rw e at v.fits).0 (sym to) i in
        Handled-Moves n after fac v.plan f m v.follows v.steady v.owned to running linked
          (rw works (v.steady.goes m.type fit)) alone
          (λ id j d. Held-after id j (λ q. d (same ∙ q))) Fits-after
          (fac_msg_prc_existing fac f m after v.valid there)
          (fac_msg_prc-IsValid fac m after v.valid (omega (arith, v.counted))) v.counted
  ]

  -- A new FSM has no message on its way, since its id is not in use.
  newcomer :
      m.fsm_id ≡ 0
      → (f : Cfsm) → lookup_fsm m.fsm_id fac.fsm_list ≡ none
      → m.type ≡ msg_init
      → length fac.fsm_list < fsm_num_in_fac
      → fac.class.create_fsm ≡ some f
      → Moves (suc n) m after (fac_msg_prc fac m after)
  newcomer z f unknown first room made =
      let id = fac.next_fsm_id in
      let counter : id + 1 < u32_mod = omega (arith, v.counted) in
      let i : id ≢ 0 = omega (arith, Ascending-le 1 id fac.fsm_list v.valid.ids) in
      let d : m.fsm_id ≢ id = λ q. i (sym q ∙ z) in
      let alone : tokens m.service_id id (pending after) ≡ 0 =
        rw (next_id_free 1 id fac.fsm_list v.valid.ids) at (Held-after id i d) in
      let idle_first : f.state ≡ idle = v.follows.starts f made in
      Handled-Moves n after fac v.plan (fresh fac f) m v.follows v.steady v.owned to running refl
        (rw (idle_first, first) v.steady.begins) alone
        (λ j k q. Held-after j k (λ x. k (sym x ∙ z))) Fits-after
        (fac_msg_prc_new fac f m after v.valid counter unknown first room made)
        (fac_msg_prc-IsValid fac m after v.valid counter) v.counted

  -- The message is for no FSM: at most a new FSM is made, which handles it.
  beginning : m.fsm_id ≡ 0 → Moves (suc n) m after (fac_msg_prc fac m after)
  beginning z =
      let unknown : lookup_fsm m.fsm_id fac.fsm_list ≡ none =
        rw z (lookup_fsm_below 1 fac.next_fsm_id 0 fac.fsm_list v.valid.ids (omega arith)) in
      let kept : Moves (suc n) m after (fac, after, success) =
        (Tracks-take n h fac m rest v e (inr z), Elsewhere-refl m.service_id after) in
      elim (Bool-cases (same_type msg_init m.type)) [
        | inr other ↦
            rw (fac_msg_prc_unknown fac m after unknown (λ q. ground arith)) (kept.0, kept.1)
        | inl init ↦
            let first : m.type ≡ msg_init = ground arith in
            elim (Bool-cases (leb fsm_num_in_fac (length fac.fsm_list))) [
              | inl full ↦
                  rw (fac_msg_prc_full fac m after unknown first (inl (ground arith)))
                    (kept.0, kept.1)
              | inr room ↦ elim (Option-cases fac.class.create_fsm) [
                | inl none_made ↦
                    rw (fac_msg_prc_full fac m after unknown first (inr none_made)) (kept.0, kept.1)
                | inr (f, made) ↦ newcomer z f unknown first (ground arith) made
              ]
            ]
      ]

  -- A factory that handles the front message still has one message on its way for each FSM.
  pub fac_msg_prc-Moves : Moves (suc n) m after (fac_msg_prc fac m after)
  fac_msg_prc-Moves = elim (Bool-cases (m.fsm_id == 0)) [
    | inl z ↦ beginning (ground arith)
    | inr i ↦ existing (ground arith)
  ]
