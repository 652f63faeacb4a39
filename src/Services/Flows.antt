-- ===== src/Services/Flows.antt =====
-- The two flows of README.md from the first message to the end, through the whole manager: posting,
-- the pump, routing, the factory, the transition tables, the timer and the completion event.
use fsm_framework.Base.{
  ℕ, zero, suc, ◌+◌, ◌≡◌, refl, ap, true, false, List, [], ◌∷◌, ◌++◌, some, arith, length,
  get_elem?-append_length, set-append_length,
}
use fsm_framework.Data.{u32, msg_init, CMsg}
use fsm_framework.Timer.{Timer, Phase, sleeping, expired, finished, wake, timer_wake, timer_post}
use fsm_framework.Pump.{Hub, hub_timer_wake, hub_timer_post}
use fsm_framework.Flow.{add_timer}
use fsm_framework.Manager.{Manager, pump_once}

-- `PumpOnce`, so many times.
abbrev pub pump_times : ℕ → Manager → Manager
pump_times zero g = g
pump_times (suc n) g = pump_times n (pump_once g).0

-- So many milliseconds pass, and the thread of timer `k` wakes and posts.
abbrev pub fire : ℕ → ℕ → Hub → Hub
fire ms k h = hub_timer_post (hub_timer_wake (record h { clock = h.clock + ms }) k) k

abbrev pub request : ℕ → ℕ → List ℕ → CMsg
request sid session payload = record {
  type = msg_init;
  service_id = sid;
  fsm_id = 0;
  session_id = session;
  msg = payload;
}

-- A hub that accepts messages, with none queued.
abbrev pub quiet : Hub → Hub
quiet h = record h { pump = []; stopped = false }

-- The timer that `StartTimer` adds, in a phase.
abbrev pub new_timer : Phase → ℕ → CMsg → Hub → Timer
new_timer at ms m h = record {
  ctrl = record { id = h.timers.next_timer_id; active = true };
  timeout_ms = ms;
  timeout_msg = m;
  due = h.clock + ms;
  phase = at;
}

-- The hub when such a timer has ended and its message is queued.
abbrev pub fired : ℕ → CMsg → Hub → Hub
fired ms m h = record h {
  pump = m ∷ [];
  stopped = false;
  clock = h.clock + ms;
  timers = record {
    timer_list = h.timers.timer_list ++ new_timer finished ms m h ∷ [];
    next_timer_id = u32 (h.timers.next_timer_id + 1);
  };
}

wake-last :
    (ts : List Timer) (t : Timer) (n now : ℕ)
    → timer_wake (record { timer_list = ts ++ t ∷ []; next_timer_id = n }) now (length ts)
      ≡ record { timer_list = ts ++ wake now t ∷ []; next_timer_id = n }
unfolding timer_wake
wake-last ts t n now =
    rw (get_elem?-append_length ts t, timer_wake)
      (ap (λ (us : List Timer). record { timer_list = us; next_timer_id = n })
        (set-append_length ts t (wake now t)))

post-last :
    (ts : List Timer) (t : Timer) (n : ℕ)
    → t.phase ≡ expired
    → timer_post (record { timer_list = ts ++ t ∷ []; next_timer_id = n }) (length ts) ≡ (
      record { timer_list = ts ++ record t { phase = finished } ∷ []; next_timer_id = n },
      some (t.timeout_msg),
    )
unfolding timer_post
post-last ts t n e =
    rw (get_elem?-append_length ts t, timer_post)
      (rw (set-append_length ts t (record t { phase = finished })) (ground arith))

wake-new_timer :
    (ms : ℕ) (m : CMsg) (h : Hub)
    → wake (h.clock + ms) (new_timer sleeping ms m h) ≡ new_timer expired ms m h
wake-new_timer ms m h = ground arith

-- A timer just added queues its message once its time has come, and is finished.
pub fire-add_timer :
    (ms : ℕ) (m : CMsg) (h : Hub)
    → fire ms (length h.timers.timer_list) (add_timer ms m (quiet h)) ≡ fired ms m h
unfolding hub_timer_wake hub_timer_post
fire-add_timer ms m h = rw (
  wake-last h.timers.timer_list (new_timer sleeping ms m h) (u32 (h.timers.next_timer_id + 1))
      (h.clock + ms),
  wake-new_timer ms m h,
  post-last h.timers.timer_list (new_timer expired ms m h) (u32 (h.timers.next_timer_id + 1)) refl,
)
