-- ===== src/System/Told/Handled.antt =====
-- What `FacMsgPrc` of Cfactory.cpp tells the client when it handles one message.
use fsm_framework.Base.{
  ℕ, suc, ◌+◌, ◌≤◌, ◌<◌, ◌≡◌, refl, ap, sym, ◌∙◌, ◌≢◌, inl, inr, ◌==◌, ◌&&◌, leb, Bool, true, [],
  ◌∷◌, ◌++◌, Option, none, some, arith, if◌then◌else◌, length, Bool-cases, Option-cases,
}
use fsm_framework.Data.{u32_mod, fsm_num_in_fac, EerrNo, CMsg, msg_init, same_type}
use fsm_framework.Pump.{Hub, FsmCompletionEvent}
use fsm_framework.Fsm.{Cfsm}
use fsm_framework.Flow.{Plan, Follows}
use fsm_framework.Factory.{Cfactory, fac_msg_prc}
use fsm_framework.Factory.Pointers.{Ascending-get_elem?, Ascending-le}
use fsm_framework.Factory.Effects.{fac_msg_prc-same}
use fsm_framework.Factory.Invariant.{IsValid}
use fsm_framework.Factory.Frame.{lookup_fsm, next_id_free, lookup_fsm-find_fsm, has_ended, Handled}
use fsm_framework.Factory.Refines.{
  fresh, fac_msg_prc_existing, fac_msg_prc_new, fac_msg_prc_unknown, fac_msg_prc_full,
}
use fsm_framework.System.Told.{
  told, departed, ended, Accounted, told-append, react-notified, notify_fsm_completed-notified,
}
use fsm_framework.System.Told.Watched.{Listens}
use fsm_framework.Factory.Counter.{existing-next_fsm_id, new-next_fsm_id}

-- What is told by a hub that handled a message: nothing, or the end of the FSM that handled it.
abbrev event_of : Cfactory → Cfsm → CMsg → EerrNo → FsmCompletionEvent
event_of fac f m ret = record {
  service_id = fac.fac_id;
  fsm_id = f.fsm_id;
  session_id = m.session_id;
  result = ret;
  final_event = m.type;
}

departed-same :
    (id hi hi' : ℕ) (o : Option Cfsm)
    → leb (suc id) hi' ≡ leb (suc id) hi
    → departed id hi' o ≡ departed id hi o
departed-same id hi hi' none e = rw e refl
departed-same id hi hi' (some f) e = refl

module _ (x : Bool) (fac : Cfactory) (p : Plan) (m : CMsg) (h : Hub) (w : Follows fac.class p)
    (owned : fac.has_mgr ≡ true) (listens : Listens x h) where
  -- The FSM `f` of the factory handles the message; it was there, or is new.
  module _ (f : Cfsm) (fac' : Cfactory) (h' : Hub) (ret : EerrNo)
      (r : Handled fac f m h (fac', h', ret)) where
    abbrev done : Cfsm × Hub × EerrNo
    done = fac.class.process_msg fac.has_mgr f (record m { fsm_id = f.fsm_id }) h

    kept : (done.1.notified ≡ h.notified) × (done.1.has_callback ≡ h.has_callback)
    kept = rw (w.reacts fac.has_mgr f (record m { fsm_id = f.fsm_id }) h) (
        react-notified (p f.state m.type) (f.has_factory && fac.has_mgr) f
          (record m { fsm_id = f.fsm_id }) h)

    abbrev is_told : Bool
    is_told = has_ended done.0 && h.has_callback

    Handled-notified :
        h'.notified ≡ (if is_told then h.notified ++ event_of fac f m done.2 ∷ [] else h.notified)
    Handled-notified =
        ap (λ (k : Hub). k.notified) r.1
        ∙ (ground (
          arith,
          owned,
          kept.0,
          kept.1,
          notify_fsm_completed-notified done.1 (event_of fac f m done.2),
        ))

    Handled-told :
        (sid id : ℕ)
        → told sid id h'.notified
          ≡ told sid id h.notified
            + (if is_told && (fac.fac_id == sid) && (f.fsm_id == id) then 1 else 0)
    Handled-told sid id = elim (Bool-cases is_told) [
      | inr quiet ↦ ground (arith, Handled-notified)
      | inl tells ↦
          ground (arith, Handled-notified, told-append sid id h.notified (event_of fac f m done.2))
    ]

    -- The accounts of the factory, where the FSM had not ended before.
    Handled-Accounted :
        departed f.fsm_id fac.next_fsm_id (lookup_fsm f.fsm_id fac.fsm_list) ≡ 0
        → fac'.fac_id ≡ fac.fac_id
        → 1 ≤ f.fsm_id
        → f.fsm_id < fac'.next_fsm_id
        → ((id : ℕ) → f.fsm_id ≢ id → leb (suc id) fac'.next_fsm_id ≡ leb (suc id) fac.next_fsm_id)
        → Accounted x h.notified fac
        → Accounted x h'.notified fac'
    Handled-Accounted alive same lo hi others a id =
        let now = Handled-told fac.fac_id id in
        let seen = r.0 id in
        elim (Bool-cases (f.fsm_id == id)) [
          | inl self ↦
              let e : f.fsm_id ≡ id = ground arith in
              let before : told fac.fac_id id h.notified ≡ 0 =
                rw (← e) (omega (arith, alive, a f.fsm_id)) in
              elim (Bool-cases (has_ended done.0)) [
                | inl dead ↦
                    let d' : ended id fac' ≡ 1 = rw (seen, self) (rw dead (ground (arith, e))) in
                    let t' : told fac'.fac_id id h'.notified ≡ (if h.has_callback then 1 else 0) =
                      rw (same, now) (ground (arith, before)) in
                    (ground arith, λ y. rw (t', d', listens y) refl)
                | inr live ↦
                    let d' : ended id fac' ≡ 0 = rw (seen, self) (rw live refl) in
                    let t' : told fac'.fac_id id h'.notified ≡ 0 =
                      rw (same, now) (ground (arith, before)) in
                    (ground arith, λ y. omega arith)
              ]
          | inr other ↦
              let d : f.fsm_id ≢ id = ground arith in
              let t' : told fac'.fac_id id h'.notified ≡ told fac.fac_id id h.notified =
                rw (same, now) (ground arith) in
              let d' : ended id fac' ≡ ended id fac =
                rw (seen, other)
                  (departed-same id fac.next_fsm_id fac'.next_fsm_id (lookup_fsm id fac.fsm_list)
                    (others id d)) in
              rw (t', d') (a id)
        ]

    -- Nothing is told of other services.
    Handled-elsewhere :
        (sid : ℕ) → sid ≢ fac.fac_id → (id : ℕ) → told sid id h'.notified ≡ told sid id h.notified
    Handled-elsewhere sid other id = ground (arith, Handled-told sid id)

  -- The accounts of the factory, and of the other services.
  abbrev pub Kept : Cfactory × Hub × EerrNo → Type 0
  Kept (fac', h', ret) =
      (Accounted x h.notified fac → Accounted x h'.notified fac')
      × ((sid : ℕ) → sid ≢ fac.fac_id → (id : ℕ) → told sid id h'.notified ≡ told sid id h.notified)

  existing-Kept :
      (f : Cfsm)
      → IsValid fac
      → lookup_fsm m.fsm_id fac.fsm_list ≡ some f
      → fac.fac_id ≡ (fac_msg_prc fac m h).0.fac_id
      → Kept (fac_msg_prc fac m h)
  existing-Kept f v there same =
      let r = fac_msg_prc_existing fac f m h v there in
      let (i, _, at, id) = lookup_fsm-find_fsm m.fsm_id fac.fsm_list f there in
      let bounds = Ascending-get_elem? 1 fac.next_fsm_id i fac.fsm_list f v.ids at in
      let next = existing-next_fsm_id fac f m h v there in
      let out = fac_msg_prc fac m h in
      (
        Handled-Accounted f out.0 out.1 out.2 r (rw (id, there) refl) (sym same) bounds.0
            (rw next bounds.1) (λ j d. rw next refl),
        Handled-elsewhere f out.0 out.1 out.2 r,
      )

  new-Kept :
      (f : Cfsm)
      → IsValid fac
      → fac.next_fsm_id + 1 < u32_mod
      → lookup_fsm m.fsm_id fac.fsm_list ≡ none
      → m.type ≡ msg_init
      → length fac.fsm_list < fsm_num_in_fac
      → fac.class.create_fsm ≡ some f
      → fac.fac_id ≡ (fac_msg_prc fac m h).0.fac_id
      → Kept (fac_msg_prc fac m h)
  new-Kept f v counter unknown first room made same =
      let r = fac_msg_prc_new fac f m h v counter unknown first room made in
      let next = new-next_fsm_id fac f m h counter unknown first room made in
      let out = fac_msg_prc fac m h in
      (
        Handled-Accounted (fresh fac f) out.0 out.1 out.2 r
            (rw (next_id_free 1 fac.next_fsm_id fac.fsm_list v.ids) (ground arith)) (sym same)
            (Ascending-le 1 fac.next_fsm_id fac.fsm_list v.ids) (rw next (omega arith))
            (λ j d. rw next (ground arith)),
        Handled-elsewhere (fresh fac f) out.0 out.1 out.2 r,
      )

  -- Whatever a factory does with a message, the accounts stay right.
  pub fac_msg_prc-Kept : IsValid fac → fac.next_fsm_id + 1 < u32_mod → Kept (fac_msg_prc fac m h)
  fac_msg_prc-Kept v counter =
      let same = sym (fac_msg_prc-same fac m h).0 in
      elim (Option-cases (lookup_fsm m.fsm_id fac.fsm_list)) [
        | inr (f, there) ↦ existing-Kept f v there same
        | inl unknown ↦ elim (Bool-cases (same_type msg_init m.type)) [
          | inr other ↦
              rw (fac_msg_prc_unknown fac m h unknown (λ q. ground arith))
                ((λ a. a), (λ sid d id. refl))
          | inl init ↦
              let first : m.type ≡ msg_init = ground arith in
              elim (Bool-cases (leb fsm_num_in_fac (length fac.fsm_list))) [
                | inl full ↦
                    rw (fac_msg_prc_full fac m h unknown first (inl (ground arith)))
                      ((λ a. a), (λ sid d id. refl))
                | inr room ↦ elim (Option-cases fac.class.create_fsm) [
                  | inl none_made ↦
                      rw (fac_msg_prc_full fac m h unknown first (inr none_made))
                        ((λ a. a), (λ sid d id. refl))
                  | inr (f, made) ↦ new-Kept f v counter unknown first (ground arith) made same
                ]
              ]
        ]
      ]
