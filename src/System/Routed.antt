-- ===== src/System/Routed.antt =====
-- A message routed by `DispatchMsg` of Cfactory_mgr.cpp in an undisturbed run.
use fsm_framework.Base.{
  ℕ, zero, suc, ◌+◌, ◌<◌, ◌≡◌, ap, ◌∙◌, sym, ◌≢◌, inl, inr, List, [], ◌∷◌, some, arith, get_elem?,
  set, All, All-map, All-get_elem?, Option-cases,
}
use fsm_framework.Data.{u32_mod, CMsg}
use fsm_framework.Pump.{Hub}
use fsm_framework.Factory.{Cfactory, fac_msg_prc}
use fsm_framework.Factory.Effects.{fac_msg_prc-same, fac_msg_prc-stable}
use fsm_framework.Manager.{Manager, find_factory, dispatch_msg, with_pump}
use fsm_framework.Manager.Registry.{
  IsFree, DistinctIds, DistinctIds-set, find_factory_found, find_factory-none-IsFree,
}
use fsm_framework.Manager.Routing.{dispatch_msg_routes}
use fsm_framework.System.Pending.{pending, tokens}
use fsm_framework.System.Tracking.{Tracks}
use fsm_framework.System.Handling.{Tracks-hub, Tracks-take, fac_msg_prc-Moves}
use fsm_framework.System.Balance.{IsOpen, IsOpen-IsStable, IsBalanced}

-- A write to the factory `c`, where no other has its id.
pub All-set_others :
    (P Q : Cfactory → Type 0) (cs : List Cfactory) (i : ℕ) (c c' : Cfactory)
    → DistinctIds cs
    → get_elem? cs i ≡ some c
    → All P cs
    → ((d : Cfactory) → d.fac_id ≢ c.fac_id → P d → Q d)
    → Q c'
    → All Q (set cs i c')
All-set_others P Q [] i c c' d e a k q = tt
All-set_others P Q (x ∷ cs) zero c c' d e a k q =
    let same : c ≡ x = cc in
    (q, All-map (λ y b. k y (rw same b.0) b.1) cs (All-both (λ y. y.fac_id ≢ x.fac_id) cs d.0 a.1))
  where
    All-both :
        (R : Cfactory → Type 0) (cs : List Cfactory) → All R cs → All P cs → All (λ y. R y × P y) cs
    All-both R [] r a = tt
    All-both R (y ∷ cs) r a = ((r.0, a.0), All-both R cs r.1 a.1)
All-set_others P Q (x ∷ cs) (suc i) c c' d e a k q =
    let differs : c.fac_id ≢ x.fac_id =
      All-get_elem? (λ (y : Cfactory). y.fac_id ≢ x.fac_id) cs i c d.0 e in
    (k x (λ s. differs (sym s)) a.0, All-set_others P Q cs i c c' d.1 e a.1 k q)

-- A write that keeps the id leaves the ids that are in use.
pub IsFree-set :
    (sid : ℕ) (cs : List Cfactory) (i : ℕ) (c c' : Cfactory)
    → get_elem? cs i ≡ some c
    → c'.fac_id ≡ c.fac_id
    → IsFree sid (set cs i c')
    → IsFree sid cs
IsFree-set sid [] i c c' e s a = tt
IsFree-set sid (x ∷ cs) zero c c' e s a =
    let same : c ≡ x = cc in ((λ q. a.0 (s ∙ ap (λ (y : Cfactory). y.fac_id) same ∙ q)), a.1)
IsFree-set sid (x ∷ cs) (suc i) c c' e s a = (a.0, IsFree-set sid cs i c c' e s a.1)

module _ (n : ℕ) (g : Manager) (m : CMsg) (rest : List CMsg) (v : IsBalanced n g.hub g.fac_list)
    (e : g.hub.pump ≡ m ∷ rest) where
  abbrev after : Hub
  after = record (g.hub) { pump = rest }

  quiet_after : (sid id : ℕ) → IsFree sid g.fac_list → id ≢ 0 → tokens sid id (pending after) ≡ 0
  quiet_after sid id free i =
      let before : tokens sid id (m ∷ pending after) ≡ 0 = rw e at (v.quiet sid free id i) in
      omega (arith, before)

  -- Nobody is registered for the message.
  pub take-IsBalanced : IsFree m.service_id g.fac_list → IsBalanced (suc n) after g.fac_list
  take-IsBalanced free = record {
    opened = (v.opened.0, v.opened.1);
    distinct = v.distinct;
    tracks = take_all g.fac_list v.tracks free;
    quiet = λ sid others id i. quiet_after sid id others i;
  }
    where
      take_all :
          (cs : List Cfactory)
          → All (Tracks n g.hub) cs
          → IsFree m.service_id cs
          → All (Tracks (suc n) after) cs
      take_all [] a f = tt
      take_all (c ∷ cs) a f =
          (Tracks-take n g.hub c m rest a.0 e (inl (λ s. f.0 (sym s))), take_all cs a.1 f.1)

  -- The factory `i` handles the message.
  handle-IsBalanced :
      (i : ℕ) (fac : Cfactory)
      → n + 2 < u32_mod
      → get_elem? g.fac_list i ≡ some fac
      → fac.fac_id ≡ m.service_id
      → let out = fac_msg_prc fac m after in IsBalanced (suc n) out.1 (set g.fac_list i out.0)
  handle-IsBalanced i fac b at to =
      let t = All-get_elem? (Tracks n g.hub) g.fac_list i fac v.tracks at in
      let (tracked, elsewhere) = fac_msg_prc-Moves n g.hub fac m rest t e v.opened.0 to b in
      let out = fac_msg_prc fac m after in
      let same : out.0.fac_id ≡ fac.fac_id = (fac_msg_prc-same fac m after).0 in
      record {
        opened =
            fac_msg_prc-stable IsOpen IsOpen-IsStable fac t.plan m after t.follows
              (v.opened.0, v.opened.1);
        distinct = DistinctIds-set g.fac_list i fac out.0 v.distinct at same;
        tracks =
            All-set_others (Tracks n g.hub) (Tracks (suc n) out.1) g.fac_list i fac out.0 v.distinct
              at v.tracks
              (λ d other a.
                let k = Tracks-take n g.hub d m rest a e (inl (λ s. other (sym s ∙ sym to))) in
                let far = elsewhere d.fac_id (λ s. other (s ∙ sym to)) in
                Tracks-hub (suc n) (suc n) after out.1 d k (omega arith) (λ id j. far.0 id)
                  (far.1 k.plan k.fits))
              tracked;
        quiet = λ sid free id j.
            let other : sid ≢ m.service_id = λ s.
              All-get_elem? (λ (y : Cfactory). y.fac_id ≢ sid) g.fac_list i fac
                (IsFree-set sid g.fac_list i fac out.0 at same free) at (to ∙ sym s) in
            (elsewhere sid other).0 id
            ∙ quiet_after sid id (IsFree-set sid g.fac_list i fac out.0 at same free) j;
      }

  pub dispatch_msg-IsBalanced :
      n + 2 < u32_mod
      → let g' = (dispatch_msg (with_pump rest g) m).0 in IsBalanced (suc n) g'.hub g'.fac_list
  unfolding dispatch_msg
  dispatch_msg-IsBalanced b = elim (Option-cases (find_factory m.service_id g.fac_list)) [
    | inl nobody ↦
        rw (nobody, dispatch_msg)
          (take-IsBalanced (find_factory-none-IsFree m.service_id g.fac_list nobody))
    | inr (i, found) ↦
        let (fac, at, to) = find_factory_found m.service_id i g.fac_list found in
        rw (dispatch_msg_routes (with_pump rest g) i fac m v.distinct at to)
          (handle-IsBalanced i fac b at to)
  ]
