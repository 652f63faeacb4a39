-- ===== src/Factory/Window.antt =====
-- `FacMsgPrc` and `DispatchToFsm` of reg_fsm/src/Cfactory.cpp up to the moment when the manager has been told of the end of an FSM and
-- `KillFsm` has not yet taken it out of the list.
use fsm_framework.Base.{
  ℕ, ◌+◌, ◌<◌, ◌≡◌, refl, ◌∙◌, sym, inl, inr, true, not, Option, none, some, if◌then◌else◌, ◌==◌,
  get_elem?, set, Bool-cases, Option-cases,
}
use fsm_framework.Data.{Tstate, u32_mod, kill_fsm, msg_init, CMsg, same_state, same_type}
use fsm_framework.Pump.{Hub}
use fsm_framework.Fsm.{Cfsm}
use fsm_framework.Factory.{
  Cfactory, erase_fsm, kill_fsm_by_id, reclaim, dispatch_at, dispatch_to_fsm, target_fsm, start_fsm,
  add_fsm, fac_msg_prc,
}
use fsm_framework.Factory.Pointers.{Ascending, find_fsm-set}
use fsm_framework.Factory.Invariant.{IsValid, add_fsm-IsValid}
use fsm_framework.Factory.Frame.{lookup_fsm, has_ended, lookup_fsm-set, lookup_fsm-erase_fsm}

-- `DispatchToFsm` up to there, on the FSM at index `i`, which is `f`.
unfoldable pub tell_at : Cfactory → ℕ → Cfsm → CMsg → Hub → Cfactory
tell_at fac i f m h = record fac {
  fsm_list =
      set fac.fsm_list i (fac.class.process_msg fac.has_mgr f (record m { fsm_id = f.fsm_id }) h).0;
}

unfoldable pub tell_fsm : Cfactory → Option ℕ → CMsg → Hub → Cfactory
unfolding tell_at
tell_fsm fac none m h = fac
tell_fsm fac (some i) m h = elim (get_elem? fac.fsm_list i) [
  | none ↦ fac
  | some f ↦ tell_at fac i f m h
]

-- `FacMsgPrc` up to there.
unfoldable pub fac_msg_tell : Cfactory → CMsg → Hub → Cfactory
unfolding target_fsm tell_fsm add_fsm
fac_msg_tell fac m h = elim (target_fsm fac m) [
  | some i ↦ tell_fsm fac (some i) m h
  | none ↦
      if not (same_type msg_init m.type) then fac else tell_fsm (add_fsm fac).0 (add_fsm fac).1 m h
]

-- An FSM that is gone or has ended.
abbrev pub IsOver : Option Cfsm → Type 0
IsOver none = Unit
IsOver (some f) = f.state ≡ kill_fsm

-- The second factory is the first one, but for FSMs that have ended.
abbrev pub Clears : Cfactory → Cfactory → Type 0
Clears before after =
    (before.fac_id ≡ after.fac_id)
    × (before.next_fsm_id ≡ after.next_fsm_id)
    × ((id : ℕ) → lookup_fsm id after.fsm_list ≡ none → IsOver (lookup_fsm id before.fsm_list))

gone-IsOver : (o : Option Cfsm) → o ≡ none → IsOver o
gone-IsOver none e = tt
gone-IsOver (some f) e = cc

pub Clears-refl : (fac : Cfactory) → Clears fac fac
Clears-refl fac = (refl, refl, λ id e. gone-IsOver (lookup_fsm id fac.fsm_list) e)

kill_fsm_lem : (s : Tstate) → same_state kill_fsm s ≡ true → s ≡ kill_fsm
kill_fsm_lem kill_fsm e = refl
kill_fsm_lem _ e = cc

-- An FSM that has ended is taken out of the list.
erase-Clears :
    (fac : Cfactory) (i : ℕ) (f f' : Cfsm)
    → Ascending 1 fac.next_fsm_id fac.fsm_list
    → get_elem? fac.fsm_list i ≡ some f
    → f'.fsm_id ≡ f.fsm_id
    → has_ended f' ≡ true
    → Clears
        (record fac { fsm_list = set fac.fsm_list i f' })
        (kill_fsm_by_id (record fac { fsm_list = set fac.fsm_list i f' }) f'.fsm_id).0
unfolding kill_fsm_by_id
erase-Clears fac i f f' a at same dead =
    let found = find_fsm-set 1 fac.next_fsm_id i fac.fsm_list f f' a at same in
    rw (found, kill_fsm_by_id) (refl, refl, over)
  where
    over :
        (id : ℕ)
        → lookup_fsm id (erase_fsm f'.fsm_id (set fac.fsm_list i f')) ≡ none
        → IsOver (lookup_fsm id (set fac.fsm_list i f'))
    over id e =
        let here = lookup_fsm-set 1 fac.next_fsm_id i id fac.fsm_list f f' a at same in
        let gone = lookup_fsm-erase_fsm 1 fac.next_fsm_id i id fac.fsm_list f f' a at same in
        elim (Bool-cases (f.fsm_id == id)) [
          | inl hit ↦ rw here (rw hit (kill_fsm_lem f'.state dead))
          | inr miss ↦
              rw here
                (rw miss (gone-IsOver (lookup_fsm id fac.fsm_list) (sym (rw miss at gone) ∙ e)))
        ]

dispatch_at-Clears :
    (fac : Cfactory) (i : ℕ) (f : Cfsm) (m : CMsg) (h : Hub)
    → IsValid fac
    → get_elem? fac.fsm_list i ≡ some f
    → Clears (tell_at fac i f m h) (dispatch_at fac i f m h).0
unfolding tell_at dispatch_at reclaim
dispatch_at-Clears fac i f m h v at =
    let m' = record m { fsm_id = f.fsm_id } in
    let f' = (fac.class.process_msg fac.has_mgr f m' h).0 in
    let same = v.lawful.keeps_id fac.has_mgr f m' h in
    elim (Bool-cases (has_ended f')) [
      | inr lives ↦ rw lives (Clears-refl (record fac { fsm_list = set fac.fsm_list i f' }))
      | inl dead ↦ rw dead (erase-Clears fac i f f' v.ids at same dead)
    ]

tell_fsm-Clears :
    (fac : Cfactory) (p : Option ℕ) (m : CMsg) (h : Hub)
    → IsValid fac
    → Clears (tell_fsm fac p m h) (dispatch_to_fsm fac p m h).0
unfolding tell_fsm dispatch_to_fsm
tell_fsm-Clears fac none m h v = Clears-refl fac
tell_fsm-Clears fac (some i) m h v = elim (Option-cases (get_elem? fac.fsm_list i)) [
  | inl e ↦ rw (e, dispatch_to_fsm, tell_fsm) (Clears-refl fac)
  | inr (f, e) ↦ rw (e, dispatch_to_fsm, tell_fsm) (dispatch_at-Clears fac i f m h v e)
]

start_fsm-Clears :
    (p : Cfactory × Option ℕ) (m : CMsg) (h : Hub)
    → IsValid p.0
    → Clears (tell_fsm p.0 p.1 m h) (start_fsm p m h).0
unfolding start_fsm tell_fsm
start_fsm-Clears (fac, none) m h v = Clears-refl fac
start_fsm-Clears (fac, some i) m h v = tell_fsm-Clears fac (some i) m h v

-- What the handling of a message still does to the factory is to take out an FSM that has ended.
pub fac_msg_tell-Clears :
    (fac : Cfactory) (m : CMsg) (h : Hub)
    → IsValid fac
    → fac.next_fsm_id + 1 < u32_mod
    → Clears (fac_msg_tell fac m h) (fac_msg_prc fac m h).0
unfolding fac_msg_tell fac_msg_prc
fac_msg_tell-Clears fac m h v fits = elim (Option-cases (target_fsm fac m)) [
  | inr (i, e) ↦ rw (e, fac_msg_prc, fac_msg_tell) (tell_fsm-Clears fac (some i) m h v)
  | inl e ↦
      rw (e, fac_msg_prc, fac_msg_tell)
        (elim (Bool-cases (same_type msg_init m.type)) [
          | inr other ↦ rw other (Clears-refl fac)
          | inl first ↦ rw first (start_fsm-Clears (add_fsm fac) m h (add_fsm-IsValid fac v fits))
        ])
]
