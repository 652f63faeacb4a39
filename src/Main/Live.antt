-- ===== src/Main/Live.antt =====
-- The manager stays one that the threads can reach while `main` of reg_fsm/main.cpp waits in its loop, whatever the others do.
use fsm_framework.Base.{
  ℕ, suc, ◌+◌, ◌≤◌, ◌≡◌, refl, subst, ◌∙◌, sym, inl, inr, false, List, [], ◌∷◌, some, length, arith,
  get_elem?, List-cases, Option-cases,
}
use fsm_framework.Data.{CMsg}
use fsm_framework.Timer.{timer_post}
use fsm_framework.Pump.{
  Hub, FsmCompletionEvent, send_msg, notify_fsm_completed, hub_timer_wake, hub_timer_post,
}
use fsm_framework.Factory.Effects.{IsStable}
use fsm_framework.Manager.{Manager, pump_once}
use fsm_framework.Manager.Progress.{pump_once_lem}
use fsm_framework.Manager.Stable.{pump_once-stable}
use fsm_framework.System.{
  Step, with_hub, Reach, next, handles, sends, timer_wakes, timer_posts, time_passes,
}
use fsm_framework.System.Told.Run.{timer_post-notified}
use fsm_framework.Http.Session.{Json}
use fsm_framework.Http.Waiters.{unregister_waiter}
use fsm_framework.Http.Handler.{Request, Server, Reply, answers, waits, handle_request, finish_sync}
use fsm_framework.Http.Handler.Errors.{Outcome, handle_request-Outcome, post_running, Queued}
use fsm_framework.Http.Handler.Keeping.{Keeps, handle_request-Keeps}
use fsm_framework.Main.World.{
  Deed, on_hub, pumps, wakes, posts, passes, requests, ends_wait, act, IsSound, act-IsSound,
}
use fsm_framework.Main.Genuine.{IsHonest, notified-IsHonest, listen-IsHonest, extended-IsHonest}

abbrev Runs : Hub → Type 0
Runs h = h.stopped ≡ false

notify-Runs : (e : FsmCompletionEvent) (h : Hub) → Runs h → Runs (notify_fsm_completed h e)
unfolding notify_fsm_completed
notify-Runs e h x = ground (arith, x)

Runs-IsStable : IsStable Runs
Runs-IsStable = record { enqueued = λ m h x. x; timed = λ ms m h x. x; told = notify-Runs }

posted-Runs : (h : Hub) (i : ℕ) → Runs h → Runs (hub_timer_post h i)
unfolding hub_timer_post send_msg
posted-Runs h i x = elim (Option-cases (timer_post h.timers i).1) [
  | inl e ↦ rw e x
  | inr (m, e) ↦ rw e (ground (arith, x))
]

-- The threads can reach the manager with at most `n` messages handled, it runs, and the completed entries are honest.
pub record IsLive (n : ℕ) (s : Server) : Type 0 where
  pub sound : IsSound s
  pub runs : s.manager.hub.stopped ≡ false
  pub honest : IsHonest s
  pub handled : ℕ
  pub few : handled ≤ n
  pub reach : Reach handled s.manager

Queued-Reach :
    {n : ℕ} (g g' : Manager) (m : CMsg)
    → g.hub.stopped ≡ false
    → Queued g m g'
    → Reach n g
    → Reach n g'
Queued-Reach {n} g g' m x q r = rw (q ∙ sym (post_running g m x).0) (next r (sends g m))

pumped-Reach : (n : ℕ) (g : Manager) → Reach n g → (k : ℕ) × (k ≤ suc n) × Reach k (pump_once g).0
unfolding pump_once
pumped-Reach n g r = elim (List-cases g.hub.pump) [
  | inl e ↦ (n, omega arith, rw (e, pump_once) r)
  | inr (m, rest, e) ↦ (suc n, omega arith, rw (pump_once_lem g m rest e) (handles m rest r e))
]

-- A deed that changes the hub of the manager alone, by a step that tells nobody.
on_hub-IsLive :
    (n : ℕ) (k : Hub → Hub) (s : Server)
    → IsSound (on_hub k s)
    → (k s.manager.hub).stopped ≡ false
    → (k s.manager.hub).notified ≡ s.manager.hub.notified
    → Step s.manager (with_hub (k s.manager.hub) s.manager)
    → IsLive n s
    → IsLive (suc n) (on_hub k s)
on_hub-IsLive n k s v x e step l = record {
  sound = v;
  runs = x;
  honest = notified-IsHonest s (on_hub k s) e refl l.honest;
  handled = l.handled;
  few = omega (arith, l.few);
  reach = next l.reach step;
}

-- A handler queues a message, or leaves the manager as it is.
Outcome-Reach :
    (n : ℕ) (s s' : Server) (reply : Reply)
    → Outcome s (some (s', reply))
    → s.manager.hub.stopped ≡ false
    → Reach n s.manager
    → Reach n s'.manager
      × (s'.manager.hub.stopped ≡ false)
      × (s'.manager.hub.notified ≡ s.manager.hub.notified)
Outcome-Reach n s s' (answers r) (inl (_, m, _, q)) x reach =
    (Queued-Reach s.manager s'.manager m x q reach, rw q x, rw q refl)
Outcome-Reach n s s' (answers r) (inr (_, q, _)) x reach = (rw q reach, rw q x, rw q refl)
Outcome-Reach n s s' (waits i u m name) (_, q) x reach =
    (Queued-Reach s.manager s'.manager m x q reach, rw q x, rw q refl)

module _ (j : Json) (garbage : FsmCompletionEvent) where
  requests-IsLive :
      (n : ℕ) (r : Request) (s : Server)
      → IsLive n s
      → IsLive (suc n) (act j garbage (requests r) s)
  unfolding act
  requests-IsLive n r s l =
      let v = act-IsSound j garbage (requests r) s l.sound in
      let o = handle_request-Outcome j garbage s r l.sound.kept.0 l.sound.kept.1 in
      let k = handle_request-Keeps j garbage s r l.sound.kept in
      elim (Option-cases (handle_request j garbage s r)) [
        | inl lost ↦ absurd (rw lost at k)
        | inr ((s', reply), done) ↦
            let k' : Keeps garbage s (some (s', reply)) = rw done at k in
            let q = Outcome-Reach l.handled s s' reply (rw done at o) l.runs l.reach in
            let v' : IsSound s' = rw (done, act) at v in
            rw (done, act)
              (record {
                sound = v';
                runs = q.1;
                honest = extended-IsHonest s s' q.2 k'.1 l.honest;
                handled = l.handled;
                few = omega (arith, l.few);
                reach = q.0;
              })
      ]

  pumps-IsLive : (n : ℕ) (s : Server) → IsLive n s → IsLive (suc n) (act j garbage pumps s)
  unfolding act
  pumps-IsLive n s l =
      let r = pumped-Reach l.handled s.manager l.reach in
      record {
        sound = act-IsSound j garbage pumps s l.sound;
        runs =
            (pump_once-stable Runs s.manager Runs-IsStable (λ ms. l.runs) l.runs l.sound.planned).0;
        honest = listen-IsHonest s l.sound.planned l.honest;
        handled = r.0;
        few = omega (arith, r.1, l.few);
        reach = r.2;
      }

  ends_wait-IsLive :
      (n i u : ℕ) (m : CMsg) (name : List ℕ) (s : Server)
      → IsLive n s
      → IsLive (suc n) (act j garbage (ends_wait i u m name) s)
  unfolding act finish_sync unregister_waiter
  ends_wait-IsLive n i u m name s l =
      let v = act-IsSound j garbage (ends_wait i u m name) s l.sound in
      elim (Option-cases (get_elem? s.registry.entries i)) [
        | inl e ↦
            rw (e, act)
              (record {
                sound = l.sound;
                runs = l.runs;
                honest = l.honest;
                handled = l.handled;
                few = omega (arith, l.few);
                reach = l.reach;
              })
        | inr (w, e) ↦
            rw (e, act)
              (record {
                sound = rw (e, act) at v;
                runs = l.runs;
                honest = l.honest;
                handled = l.handled;
                few = omega (arith, l.few);
                reach = l.reach;
              })
      ]

  act-IsLive : (n : ℕ) (d : Deed) (s : Server) → IsLive n s → IsLive (suc n) (act j garbage d s)
  unfolding act hub_timer_wake
  act-IsLive n pumps s l = pumps-IsLive n s l
  act-IsLive n (wakes i) s l =
      on_hub-IsLive n (λ h. hub_timer_wake h i) s (act-IsSound j garbage (wakes i) s l.sound) l.runs
        refl (timer_wakes s.manager i) l
  act-IsLive n (posts i) s l =
      on_hub-IsLive n (λ h. hub_timer_post h i) s (act-IsSound j garbage (posts i) s l.sound)
        (posted-Runs s.manager.hub i l.runs) (timer_post-notified s.manager.hub i)
        (timer_posts s.manager i) l
  act-IsLive n (passes ms) s l =
      on_hub-IsLive n (λ h. record h { clock = h.clock + ms }) s
        (act-IsSound j garbage (passes ms) s l.sound) l.runs refl (time_passes s.manager ms) l
  act-IsLive n (requests r) s l = requests-IsLive n r s l
  act-IsLive n (ends_wait i u m name) s l = ends_wait-IsLive n i u m name s l

  -- What the threads make of the server.
  abbrev pub act_in_turn : List Deed → Server → Server
  act_in_turn [] s = s
  act_in_turn (d ∷ ds) s = act_in_turn ds (act j garbage d s)

  pub act_in_turn-IsLive :
      (n : ℕ) (ds : List Deed) (s : Server) → IsLive n s → IsLive (n + length ds) (act_in_turn ds s)
  act_in_turn-IsLive n [] s l = subst (λ k. IsLive k s) (omega arith) l
  act_in_turn-IsLive n (d ∷ ds) s l =
      subst (λ k. IsLive k (act_in_turn ds (act j garbage d s))) (omega arith)
        (act_in_turn-IsLive (suc n) ds (act j garbage d s) (act-IsLive n d s l))
