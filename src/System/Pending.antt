-- ===== src/System/Pending.antt =====
-- The messages that are on their way: those in the queue of Cfactory_mgr.cpp and those that the timers
-- of TimerManager.cpp still hold.
use fsm_framework.Base.{
  ℕ, zero, suc, ◌+◌, ◌≡◌, refl, ap, ◌∙◌, sym, ◌==◌, Bool, true, false, ◌&&◌, List, [], ◌∷◌, ◌++◌,
  some, arith, if◌then◌else◌, get_elem?, set, All, All-append,
}
use mathlib.Core.List.{append_assoc}
use fsm_framework.Data.{CMsg}
use fsm_framework.Timer.{Timer, Phase, sleeping, expired, finished}
use fsm_framework.Pump.{Hub}
use fsm_framework.Fsm.{Cfsm}
use fsm_framework.Flow.{Reaction, refuse, post_next, post_later, finish, follow_up, react}

abbrev pub phase_msg : Phase → CMsg → List CMsg
phase_msg sleeping m = m ∷ []
phase_msg expired m = m ∷ []
phase_msg finished m = []

abbrev pub timer_msgs : List Timer → List CMsg
timer_msgs [] = []
timer_msgs (t ∷ ts) = phase_msg t.phase t.timeout_msg ++ timer_msgs ts

abbrev pub pending : Hub → List CMsg
pending h = h.pump ++ timer_msgs h.timers.timer_list

abbrev pub is_for : ℕ → ℕ → CMsg → Bool
is_for sid id m = (m.service_id == sid) && (m.fsm_id == id)

-- How many of the messages are for the FSM of the service.
abbrev pub tokens : ℕ → ℕ → List CMsg → ℕ
tokens sid id [] = 0
tokens sid id (m ∷ ms) = (if is_for sid id m then 1 else 0) + tokens sid id ms

pub tokens-append :
    (sid id : ℕ) (ms ns : List CMsg)
    → tokens sid id (ms ++ ns) ≡ tokens sid id ms + tokens sid id ns
tokens-append sid id [] ns = omega arith
tokens-append sid id (m ∷ ms) ns = omega (arith, tokens-append sid id ms ns)

pub All-split : (P : CMsg → Type 0) (ms ns : List CMsg) → All P (ms ++ ns) → All P ms × All P ns
All-split P [] ns a = (tt, a)
All-split P (m ∷ ms) ns a = let r = All-split P ms ns a.1 in ((a.0, r.0), r.1)

-- The second list holds the messages of the first and some more.
pub record Adds (more before after : List CMsg) : Type 1 where
  pub counts : (sid id : ℕ) → tokens sid id after ≡ tokens sid id before + tokens sid id more
  pub all : (P : CMsg → Type 0) → All P before → All P more → All P after

-- The first list holds one message and those of the second.
pub record Takes (m : CMsg) (before after : List CMsg) : Type 1 where
  pub counts : (sid id : ℕ) → tokens sid id before ≡ tokens sid id (m ∷ []) + tokens sid id after
  pub all : (P : CMsg → Type 0) → All P before → P m × All P after

pub Adds-same : (before after : List CMsg) → after ≡ before → Adds [] before after
Adds-same before after e = record { counts = λ sid id. rw e (omega arith); all = λ P a b. rw e a }

pub Adds-pump : (ms ts xs : List CMsg) → Adds xs (ms ++ ts) ((ms ++ xs) ++ ts)
Adds-pump ms ts xs = record {
  counts = λ sid id. omega (
    arith,
    tokens-append sid id (ms ++ xs) ts,
    tokens-append sid id ms xs,
    tokens-append sid id ms ts,
  );
  all = λ P a b.
      let r = All-split P ms ts a in All-append P (ms ++ xs) ts (All-append P ms xs r.0 b) r.1;
}

pub Adds-timers : (ms ts xs : List CMsg) → Adds xs (ms ++ ts) (ms ++ (ts ++ xs))
Adds-timers ms ts xs = record {
  counts = λ sid id. omega (
    arith,
    tokens-append sid id ms (ts ++ xs),
    tokens-append sid id ts xs,
    tokens-append sid id ms ts,
  );
  all = λ P a b.
      let r = All-split P ms ts a in All-append P ms (ts ++ xs) r.0 (All-append P ts xs r.1 b);
}

timer_msgs-append : (ts us : List Timer) → timer_msgs (ts ++ us) ≡ timer_msgs ts ++ timer_msgs us
timer_msgs-append [] us = refl
timer_msgs-append (t ∷ ts) us =
    ap (λ (ms : List CMsg). phase_msg t.phase t.timeout_msg ++ ms) (timer_msgs-append ts us)
    ∙ sym (append_assoc (phase_msg t.phase t.timeout_msg) (timer_msgs ts) (timer_msgs us))

-- A write that leaves what the timer holds.
pub timer_msgs-set :
    (ts : List Timer) (i : ℕ) (t t' : Timer)
    → get_elem? ts i ≡ some t
    → phase_msg t'.phase t'.timeout_msg ≡ phase_msg t.phase t.timeout_msg
    → timer_msgs (set ts i t') ≡ timer_msgs ts
timer_msgs-set [] i t t' e s = refl
timer_msgs-set (u ∷ ts) zero t t' e s =
    let same : t ≡ u = cc in
    ap (λ (ms : List CMsg). ms ++ timer_msgs ts)
      (s ∙ ap (λ (x : Timer). phase_msg x.phase x.timeout_msg) same)
timer_msgs-set (u ∷ ts) (suc i) t t' e s =
    ap (λ (ms : List CMsg). phase_msg u.phase u.timeout_msg ++ ms) (timer_msgs-set ts i t t' e s)

-- The thread of a timer that has expired ends, and its message is taken.
pub timer_msgs-Takes :
    (ts : List Timer) (i : ℕ) (t : Timer)
    → get_elem? ts i ≡ some t
    → t.phase ≡ expired
    → Takes t.timeout_msg (timer_msgs ts) (timer_msgs (set ts i (record t { phase = finished })))
timer_msgs-Takes [] i t e x = absurd (ground arith)
timer_msgs-Takes (u ∷ ts) zero t e x =
    let same : u ≡ t = cc in
    record { counts = λ sid id. rw (same, x) (omega arith); all = λ P a. rw (same, x) at a }
timer_msgs-Takes (u ∷ ts) (suc i) t e x =
    let r = timer_msgs-Takes ts i t e x in
    record {
      counts = λ sid id. omega (
        arith,
        r.counts sid id,
        tokens-append sid id (phase_msg u.phase u.timeout_msg) (timer_msgs ts),
        tokens-append sid id (phase_msg u.phase u.timeout_msg)
            (timer_msgs (set ts i (record t { phase = finished }))),
      );
      all = λ P a.
          let b = All-split P (phase_msg u.phase u.timeout_msg) (timer_msgs ts) a in
          let c = r.all P b.1 in
          (
            c.0,
            All-append P (phase_msg u.phase u.timeout_msg)
                (timer_msgs (set ts i (record t { phase = finished }))) b.0 c.1,
          );
    }

-- So the message that it posts is on its way as before.
pub Adds-post :
    (ms ts ts' : List CMsg) (m : CMsg) → Takes m ts ts' → Adds [] (ms ++ ts) ((ms ++ m ∷ []) ++ ts')
Adds-post ms ts ts' m k = record {
  counts = λ sid id. omega (
    arith,
    k.counts sid id,
    tokens-append sid id (ms ++ m ∷ []) ts',
    tokens-append sid id ms (m ∷ []),
    tokens-append sid id ms ts,
  );
  all = λ P a b.
      let r = All-split P ms ts a in
      let c = k.all P r.1 in
      All-append P (ms ++ m ∷ []) ts' (All-append P ms (m ∷ []) r.0 (c.0, tt)) c.1;
}

-- The messages that a reaction posts.
abbrev pub posted : Reaction → Cfsm → CMsg → List CMsg
posted (refuse e) f m = []
posted (post_next e) f m = follow_up f m e ∷ []
posted (post_later ms e) f m = follow_up f m e ∷ []
posted finish f m = []

pub react-Adds :
    (r : Reaction) (f : Cfsm) (m : CMsg) (h : Hub)
    → h.stopped ≡ false
    → Adds (posted r f m) (pending h) (pending (react r true f m h).1)
react-Adds (refuse e) f m h z = Adds-same (pending h) (pending h) refl
react-Adds (post_next e) f m h z =
    rw z (Adds-pump h.pump (timer_msgs h.timers.timer_list) (follow_up f m e ∷ []))
react-Adds (post_later ms e) f m h z =
    rw (timer_msgs-append h.timers.timer_list _)
      (Adds-timers h.pump (timer_msgs h.timers.timer_list) (follow_up f m e ∷ []))
react-Adds finish f m h z = Adds-same (pending h) (pending h) refl
