-- ===== src/Factory/Wrap.antt =====
-- What happens to an FSM that cannot go on: its id has wrapped to 0, or the manager is stopped.
use fsm_framework.Base.{
  ℕ, false, List, [], ◌∷◌, ◌++◌, set, get_elem?-append_length, set-append_length, ◌+◌, ◌<◌, ◌≡◌,
  refl, ◌∙◌, ◌≢◌, Bool, true, ◌&&◌, none, some, arith, length,
}
use fsm_framework.Data.{
  u32_mod, fsm_num_in_fac, idle, working, EerrNo, success, invalid_state, invalid_msg, MsgType,
  msg_init, CMsg,
}
use fsm_framework.Pump.{Hub}
use fsm_framework.Fsm.{Cfsm}
use fsm_framework.Flow.{Plan, post_next, follow_up, enqueue, react, Follows}
use fsm_framework.Factory.{
  Cfactory, fac_msg_prc, target_fsm, add_fsm, enlist, dispatch_to_fsm, dispatch_at, reclaim,
}
use fsm_framework.Factory.Invariant.{IsValid}
use fsm_framework.Factory.Frame.{lookup_fsm}
use fsm_framework.Factory.Refines.{fresh, fac_msg_prc_new, fac_msg_prc_first}

lookup_fsm-last :
    (id : ℕ) (fs : List Cfsm) (f : Cfsm)
    → lookup_fsm id fs ≡ none
    → f.fsm_id ≡ id
    → lookup_fsm id (fs ++ f ∷ []) ≡ some f
lookup_fsm-last id [] f e same = ground arith
lookup_fsm-last id (g ∷ fs) f e same = ground (arith, lookup_fsm-last id fs f)

react_running :
    (e : MsgType) (f : Cfsm) (m : CMsg) (h : Hub)
    → h.stopped ≡ false
    → react (post_next e) true f m h
      ≡ (record f { state = working }, enqueue (follow_up f m e) h, success)
react_running e f m h z = ground arith

-- An FSM that works on is put back into the list.
dispatch_at_working :
    (fac : Cfactory) (i : ℕ) (g : Cfsm) (m : CMsg) (h h' : Hub) (r : EerrNo)
    → fac.class.process_msg fac.has_mgr g (record m { fsm_id = g.fsm_id }) h
      ≡ (record g { state = working }, h', r)
    → dispatch_at fac i g m h
      ≡ (record fac { fsm_list = set fac.fsm_list i (record g { state = working }) }, h', r)
unfolding dispatch_at reclaim
dispatch_at_working fac i g m h h' r e = rw (e, dispatch_at) refl

-- What a first message leaves in a factory whose plan posts another event, whatever its counter is.
first_posts :
    (fac : Cfactory) (p : Plan) (f : Cfsm) (m : CMsg) (e : MsgType) (h : Hub)
    → Follows fac.class p
    → p idle msg_init ≡ post_next e
    → target_fsm fac m ≡ none
    → length fac.fsm_list < fsm_num_in_fac
    → fac.class.create_fsm ≡ some f
    → fac.has_mgr ≡ true
    → h.stopped ≡ false
    → m.type ≡ msg_init
    → let stuck : Cfsm = record (fresh fac f) { state = working } in
      fac_msg_prc fac m h ≡ (
        record ((enlist fac (some f)).0) { fsm_list = fac.fsm_list ++ stuck ∷ [] },
        enqueue (follow_up stuck m e) h,
        success,
      )
unfolding dispatch_to_fsm
first_posts fac p f m e h w q unknown room made linked runs first =
    let added : add_fsm fac ≡ enlist fac (some f) = unfold add_fsm in ground arith in
    let new = fresh fac f in
    let m' = record m { fsm_id = new.fsm_id } in
    let plan : p new.state m.type ≡ post_next e = rw (w.starts f made, first) q in
    let handled : fac.class.process_msg fac.has_mgr new m' h
        ≡ (record new { state = working }, enqueue (follow_up new m e) h, success) =
      rw linked (rw plan at (w.reacts true new m' h) ∙ react_running e new m' h runs) in
    let there = get_elem?-append_length fac.fsm_list new in
    fac_msg_prc_first fac f m h unknown first added
    ∙ rw (there, dispatch_to_fsm)
        (dispatch_at_working (enlist fac (some f)).0 (length fac.fsm_list) new m h
            (enqueue (follow_up new m e) h) success handled
          ∙ rw (set-append_length fac.fsm_list new (record new { state = working })) refl)

zero_target : (fac : Cfactory) (m : CMsg) → m.fsm_id ≡ 0 → target_fsm fac m ≡ none
unfolding target_fsm
zero_target fac m bare = ground arith

refused :
    (fac : Cfactory) (m : CMsg) (h : Hub)
    → m.fsm_id ≡ 0
    → m.type ≢ msg_init
    → fac_msg_prc fac m h ≡ (fac, h, invalid_msg)
unfolding fac_msg_prc
refused fac m h bare other = ground (arith, zero_target fac m bare)

-- Let the counter of a factory have wrapped to 0, let the factory have a manager that runs, room and no FSM with the id 0, and let
-- its class follow a plan whose reaction to a first message is to post another event. Then a first message without an
-- id makes an FSM with the id 0, which is working and posts that event to itself. Handling the message that it posted, on any hub,
-- is refused with `INVALID_MSG` and changes nothing, so the FSM stays as it is.
pub zero_id_stranded :
    (fac : Cfactory) (p : Plan) (f : Cfsm) (m : CMsg) (e : MsgType) (h : Hub)
    → Follows fac.class p
    → p idle msg_init ≡ post_next e
    → e ≢ msg_init
    → fac.next_fsm_id ≡ 0
    → lookup_fsm 0 fac.fsm_list ≡ none
    → length fac.fsm_list < fsm_num_in_fac
    → fac.class.create_fsm ≡ some f
    → fac.has_mgr ≡ true
    → h.stopped ≡ false
    → m.type ≡ msg_init
    → m.fsm_id ≡ 0
    → let done = fac_msg_prc fac m h in
      let stuck : Cfsm = record (fresh fac f) { state = working } in
      let own = follow_up stuck m e in
      (lookup_fsm 0 done.0.fsm_list ≡ some stuck)
      × (done.1 ≡ enqueue own h)
      × ((later : Hub) → fac_msg_prc done.0 own later ≡ (done.0, later, invalid_msg))
zero_id_stranded fac p f m e h w q other z free room made linked runs first bare =
    let stuck : Cfsm = record (fresh fac f) { state = working } in
    let done = first_posts fac p f m e h w q (zero_target fac m bare) room made linked runs first in
    (
      rw done (lookup_fsm-last 0 fac.fsm_list stuck free z),
      rw done refl,
      λ later. refused (fac_msg_prc fac m h).0 (follow_up stuck m e) later z other,
    )

react_stopped :
    (e : MsgType) (b : Bool) (f : Cfsm) (m : CMsg) (h : Hub)
    → h.stopped ≡ true
    → react (post_next e) b f m h ≡ (record f { state = working }, h, invalid_state)
react_stopped e b f m h z = ground arith

-- Let a valid factory have room, a counter that does not wrap, and a class that follows a plan
-- whose reaction to a first message is to post another. A first message that names none of its
-- FSMs and is handled after `Stop` leaves a working FSM; the hub is as it was, so nothing is
-- queued and nobody is told, and the result is `INVALID_STATE`.
pub stopped_stranded :
    (fac : Cfactory) (p : Plan) (f : Cfsm) (m : CMsg) (e : MsgType) (h : Hub)
    → IsValid fac
    → Follows fac.class p
    → p idle msg_init ≡ post_next e
    → fac.next_fsm_id + 1 < u32_mod
    → lookup_fsm m.fsm_id fac.fsm_list ≡ none
    → m.type ≡ msg_init
    → length fac.fsm_list < fsm_num_in_fac
    → fac.class.create_fsm ≡ some f
    → h.stopped ≡ true
    → (lookup_fsm fac.next_fsm_id (fac_msg_prc fac m h).0.fsm_list
        ≡ some (record (fresh fac f) { state = working }))
      × ((fac_msg_prc fac m h).1 ≡ h)
      × ((fac_msg_prc fac m h).2 ≡ invalid_state)
stopped_stranded fac p f m e h v w q counter unknown first room made z =
    let r = fac_msg_prc_new fac f m h v counter unknown first room made in
    let starts = w.starts f made in
    let plan : p (fresh fac f).state m.type ≡ post_next e = rw (starts, first) q in
    let m' = record m { fsm_id = fac.next_fsm_id } in
    let done = rw plan at (w.reacts fac.has_mgr (fresh fac f) m' h) in
    let out = done ∙ react_stopped e (true && fac.has_mgr) (fresh fac f) m' h z in
    (r.0 fac.next_fsm_id ∙ rw out (ground arith), r.1 ∙ rw out refl, r.2 ∙ rw out refl)
