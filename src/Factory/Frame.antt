-- ===== src/Factory/Frame.antt =====
-- A factory seen as a map from ids to FSMs, and what `Cfactory::FacMsgPrc` does to that map.
use fsm_framework.Base.{
  ℕ, zero, suc, ◌<◌, ◌≡◌, refl, inl, inr, Bool, ◌&&◌, List, [], ◌∷◌, ◌++◌, Option, none, some,
  arith, ◌==◌, if◌then◌else◌, get_elem?, set, Bool-cases,
}
use fsm_framework.Data.{kill_fsm, EerrNo, CMsg, same_state}
use fsm_framework.Pump.{Hub, notify_fsm_completed}
use fsm_framework.Fsm.{Cfsm}
use fsm_framework.Factory.{Cfactory, find_fsm, erase_fsm, kill_fsm_by_id, reclaim, dispatch_to_fsm}
use fsm_framework.Factory.Pointers.{Ascending, Ascending-le, Ascending-get_elem?, find_fsm-set}
use fsm_framework.Factory.Invariant.{IsValid}

abbrev pub lookup_fsm : ℕ → List Cfsm → Option Cfsm
lookup_fsm id [] = none
lookup_fsm id (f ∷ fs) = if f.fsm_id == id then some f else lookup_fsm id fs

pub lookup_fsm_below :
    (lo hi j : ℕ) (fs : List Cfsm) → Ascending lo hi fs → j < lo → lookup_fsm j fs ≡ none
lookup_fsm_below lo hi j [] a h = refl
lookup_fsm_below lo hi j (f ∷ fs) a h = ground (arith, lookup_fsm_below (suc f.fsm_id) hi j fs a.2)

-- A factory holds no FSM with the id that it gives next.
pub next_id_free : (lo hi : ℕ) (fs : List Cfsm) → Ascending lo hi fs → lookup_fsm hi fs ≡ none
next_id_free lo hi [] a = refl
next_id_free lo hi (f ∷ fs) a =
    ground (arith, Ascending-le (suc f.fsm_id) hi fs a.2, next_id_free (suc f.fsm_id) hi fs a.2)

pub lookup_fsm-set :
    (lo hi i j : ℕ) (fs : List Cfsm) (f f' : Cfsm)
    → Ascending lo hi fs
    → get_elem? fs i ≡ some f
    → f'.fsm_id ≡ f.fsm_id
    → lookup_fsm j (set fs i f') ≡ (if f.fsm_id == j then some f' else lookup_fsm j fs)
lookup_fsm-set lo hi i j [] f f' a e d = cc
lookup_fsm-set lo hi zero j (g ∷ fs) f f' a e d = ground arith
lookup_fsm-set lo hi (suc i) j (g ∷ fs) f f' a e d = ground (
  arith,
  lookup_fsm-set (suc g.fsm_id) hi i j fs f f' a.2 e d,
  Ascending-get_elem? (suc g.fsm_id) hi i fs f a.2 e,
)

pub lookup_fsm-erase_fsm :
    (lo hi i j : ℕ) (fs : List Cfsm) (f f' : Cfsm)
    → Ascending lo hi fs
    → get_elem? fs i ≡ some f
    → f'.fsm_id ≡ f.fsm_id
    → lookup_fsm j (erase_fsm f'.fsm_id (set fs i f'))
      ≡ (if f.fsm_id == j then none else lookup_fsm j fs)
unfolding erase_fsm
lookup_fsm-erase_fsm lo hi i j [] f f' a e d = cc
lookup_fsm-erase_fsm lo hi zero j (g ∷ fs) f f' a e d =
    ground (arith, lookup_fsm_below (suc g.fsm_id) hi j fs a.2)
lookup_fsm-erase_fsm lo hi (suc i) j (g ∷ fs) f f' a e d = ground (
  arith,
  lookup_fsm-erase_fsm (suc g.fsm_id) hi i j fs f f' a.2 e d,
  Ascending-get_elem? (suc g.fsm_id) hi i fs f a.2 e,
)

pub lookup_fsm-append :
    (lo hi j : ℕ) (fs : List Cfsm) (f : Cfsm)
    → Ascending lo hi fs
    → f.fsm_id ≡ hi
    → lookup_fsm j (fs ++ f ∷ []) ≡ (if f.fsm_id == j then some f else lookup_fsm j fs)
lookup_fsm-append lo hi j [] f a e = refl
lookup_fsm-append lo hi j (g ∷ fs) f a e =
    ground (
      arith,
      lookup_fsm-append (suc g.fsm_id) hi j fs f a.2 e,
      Ascending-le (suc g.fsm_id) hi fs a.2,
    )

-- The search for an id and the map agree.
pub lookup_fsm-find_fsm :
    (id : ℕ) (fs : List Cfsm) (f : Cfsm)
    → lookup_fsm id fs ≡ some f
    → (i : ℕ) × (find_fsm id fs ≡ some i) × (get_elem? fs i ≡ some f) × (f.fsm_id ≡ id)
unfolding find_fsm
lookup_fsm-find_fsm id [] f e = cc
lookup_fsm-find_fsm id (g ∷ fs) f e = elim (Bool-cases (g.fsm_id == id)) [
  | inl hit ↦ (0, ground arith, ground arith, ground arith)
  | inr miss ↦
      let r = lookup_fsm-find_fsm id fs f (ground arith) in (suc r.0, ground (arith, r.1), r.2, r.3)
]

pub lookup_fsm-none : (id : ℕ) (fs : List Cfsm) → lookup_fsm id fs ≡ none → find_fsm id fs ≡ none
unfolding find_fsm
lookup_fsm-none id [] e = refl
lookup_fsm-none id (f ∷ fs) e = ground (arith, lookup_fsm-none id fs)

abbrev pub has_ended : Cfsm → Bool
has_ended f = same_state kill_fsm f.state

-- The FSM `f` of the factory handles the message, its id written into it: the map changes at that
-- id alone, to what `ProcessMsg` leaves, or to nothing if the FSM has ended; then the manager is
-- told; the result is that of `ProcessMsg`.
abbrev pub Handled : Cfactory → Cfsm → CMsg → Hub → Cfactory × Hub × EerrNo → Type 0
Handled fac f m h (fac', h', ret) =
    let m' = record m { fsm_id = f.fsm_id } in
    let done = fac.class.process_msg fac.has_mgr f m' h in
    ((j : ℕ)
      → lookup_fsm j fac'.fsm_list ≡ (
          if f.fsm_id == j
          then (if has_ended done.0 then none else some (done.0))
          else lookup_fsm j fac.fsm_list))
    × (h' ≡ (
        if has_ended done.0 && fac.has_mgr
        then notify_fsm_completed done.1 (record {
          service_id = fac.fac_id;
          fsm_id = f.fsm_id;
          session_id = m.session_id;
          result = done.2;
          final_event = m.type;
        })
        else done.1))
    × (ret ≡ done.2)

-- The end of a dispatch, at each part of what it leaves.
module _ (fac : Cfactory) (i : ℕ) (f f' : Cfsm) (m : CMsg) (ret : EerrNo) (h : Hub)
    (a : Ascending 1 fac.next_fsm_id fac.fsm_list) (e : get_elem? fac.fsm_list i ≡ some f)
    (d : f'.fsm_id ≡ f.fsm_id) where
  reclaim-lookup_fsm :
      (j : ℕ)
      → lookup_fsm j
          (reclaim (record fac { fsm_list = set fac.fsm_list i f' }) f' m ret h).0.fsm_list
        ≡ (if f.fsm_id == j
            then (if has_ended f' then none else some f')
            else lookup_fsm j fac.fsm_list)
  unfolding reclaim
  reclaim-lookup_fsm j = elim (Bool-cases (has_ended f')) [
    | inl dead ↦
        rw (dead, kill_fsm_by_id, find_fsm-set 1 fac.next_fsm_id i fac.fsm_list f f' a e d)
          (lookup_fsm-erase_fsm 1 fac.next_fsm_id i j fac.fsm_list f f' a e d)
    | inr live ↦ rw live (lookup_fsm-set 1 fac.next_fsm_id i j fac.fsm_list f f' a e d)
  ]

  reclaim-hub : (reclaim (record fac { fsm_list = set fac.fsm_list i f' }) f' m ret h).1 ≡ (
      if has_ended f' && fac.has_mgr
      then notify_fsm_completed h (record {
        service_id = fac.fac_id;
        fsm_id = f.fsm_id;
        session_id = m.session_id;
        result = ret;
        final_event = m.type;
      })
      else h)
  unfolding reclaim
  reclaim-hub = rw (← d) (ground arith)

  reclaim-result : (reclaim (record fac { fsm_list = set fac.fsm_list i f' }) f' m ret h).2 ≡ ret
  unfolding reclaim
  reclaim-result = ground arith

pub dispatch_to_fsm-Handled :
    (fac : Cfactory) (i : ℕ) (f : Cfsm) (m : CMsg) (h : Hub)
    → IsValid fac
    → get_elem? fac.fsm_list i ≡ some f
    → Handled fac f m h (dispatch_to_fsm fac (some i) m h)
unfolding dispatch_to_fsm
dispatch_to_fsm-Handled fac i f m h v e =
    let m' = record m { fsm_id = f.fsm_id } in
    let done = fac.class.process_msg fac.has_mgr f m' h in
    let same = v.lawful.keeps_id fac.has_mgr f m' h in
    rw (e, dispatch_to_fsm)
      (
        reclaim-lookup_fsm fac i f done.0 m' done.2 done.1 v.ids e same,
        reclaim-hub fac i f done.0 m' done.2 done.1 v.ids e same,
        reclaim-result fac i f done.0 m' done.2 done.1 v.ids e same,
      )
