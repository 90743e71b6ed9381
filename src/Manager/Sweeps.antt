-- ===== src/Manager/Sweeps.antt =====
-- dispatcher/session/SessionManager.cpp: what the sweeps over the sessions remove, keep and forget.
use task_messenger.Common.{ℕ, ◌≡◌, refl, ap, List, [], ◌∷◌, arith, All}
use task_messenger.Queue.{TaskQueue, cancel, drain_cancelled}
use task_messenger.Session.{
  Now, Session, Frame, completing, request_termination, Liveness, probe_connection_liveness,
}
use task_messenger.Session.Coroutine.{Around}
use task_messenger.Manager.{
  RecentDisconnect, Manager, over_sessions, terminate_one, probe_one, cancel_one,
  terminate_all_sessions, sweep, cleanup_completed_sessions,
}

-- Of each session of the list.
abbrev pub Each : (Session → Type 0) → List (ℕ × Session) → Type 0
Each P xs = All (λ (p : ℕ × Session). P p.1) xs

abbrev pub IsCompleting : Session → Type 0
IsCompleting s = s.state ≡ completing

pub terminate-Each :
    (now : Now) (xs : List (ℕ × Session)) (q : TaskQueue)
    → Each IsCompleting (over_sessions (terminate_one now) xs q).0
unfolding over_sessions request_termination
terminate-Each now [] q = tt
terminate-Each now ((id, s) ∷ xs) q = (refl, terminate-Each now xs (cancel s.cancel_token q))

-- The three loops pass over a session that is completing.
pub cancel_passes :
    (w : Around) (xs : List (ℕ × Session)) (q : TaskQueue)
    → Each IsCompleting xs
    → over_sessions (cancel_one w) xs q ≡ (xs, q)
unfolding over_sessions
cancel_passes w [] q h = refl
cancel_passes w ((id, s) ∷ xs) q h = ground (arith, cancel_passes w xs q h.1)

probe_passes :
    (now : Now) (liveness : ℕ → Liveness) (xs : List (ℕ × Session)) (q : TaskQueue)
    → Each IsCompleting xs
    → over_sessions (probe_one now liveness) xs q ≡ (xs, q)
unfolding over_sessions probe_connection_liveness
probe_passes now liveness [] q h = refl
probe_passes now liveness ((id, s) ∷ xs) q h = ground (arith, probe_passes now liveness xs q h.1)

sweep_passes :
    (now : Now) (xs : List (ℕ × Session)) (ds : List RecentDisconnect)
    → Each IsCompleting xs
    → sweep now xs ds ≡ (xs, ds, 0)
unfolding sweep
sweep_passes now [] ds h = refl
sweep_passes now ((id, s) ∷ xs) ds h = ground (arith, sweep_passes now xs ds h.1)

pub terminate_all-Each :
    (w : Around) (m : Manager) → Each IsCompleting (terminate_all_sessions w m).active_sessions
unfolding terminate_all_sessions
terminate_all-Each w m =
    rw
      (cancel_passes w _ (over_sessions (terminate_one w.now) m.active_sessions m.queue).1
        (terminate-Each w.now m.active_sessions m.queue))
      (terminate-Each w.now m.active_sessions m.queue)

pub cleanup_passes :
    (w : Around) (liveness : ℕ → Liveness) (m : Manager)
    → Each IsCompleting m.active_sessions
    → cleanup_completed_sessions w liveness m ≡ (record m { queue = drain_cancelled m.queue }, 0)
unfolding cleanup_completed_sessions
cleanup_passes w liveness m h = ground (
  arith,
  probe_passes w.now liveness m.active_sessions m.queue h,
  cancel_passes w m.active_sessions m.queue h,
  sweep_passes w.now m.active_sessions m.recent_disconnects h,
)

-- A cleanup right after all sessions were told to terminate removes none of them, whatever they
-- were doing and whatever the probe would find: it counts 0, and all it does is to drop their
-- cancelled waiters from the queue.
pub cleanup-terminate_all :
    (w w' : Around) (liveness : ℕ → Liveness) (m : Manager)
    → cleanup_completed_sessions w' liveness (terminate_all_sessions w m) ≡ (
      record (terminate_all_sessions w m) {
        queue = drain_cancelled (terminate_all_sessions w m).queue;
      },
      0,
    )
cleanup-terminate_all w w' liveness m =
    cleanup_passes w' liveness (terminate_all_sessions w m) (terminate_all-Each w m)

-- Where the coroutine of each session is.
abbrev pub frames : List (ℕ × Session) → List Frame
frames [] = []
frames ((id, s) ∷ xs) = s.frame ∷ frames xs

pub terminate_stays :
    (now : Now) (xs : List (ℕ × Session)) (q : TaskQueue)
    → (frames (over_sessions (terminate_one now) xs q).0 ≡ frames xs)
      × ((over_sessions (terminate_one now) xs q).1.is_shutdown ≡ q.is_shutdown)
      × ((over_sessions (terminate_one now) xs q).1.waiting_workers ≡ q.waiting_workers)
unfolding over_sessions request_termination cancel
terminate_stays now [] q = (refl, refl, refl)
terminate_stays now ((id, s) ∷ xs) q =
    let (f, off, ws) = terminate_stays now xs (cancel s.cancel_token q) in
    (ap (λ l. s.frame ∷ l) f, off, ws)

pub terminate_all_stays :
    (w : Around) (m : Manager)
    → (frames (terminate_all_sessions w m).active_sessions ≡ frames m.active_sessions)
      × ((terminate_all_sessions w m).queue.is_shutdown ≡ m.queue.is_shutdown)
unfolding terminate_all_sessions
terminate_all_stays w m =
    let (f, off, ws) = terminate_stays w.now m.active_sessions m.queue in
    rw
      (cancel_passes w _ (over_sessions (terminate_one w.now) m.active_sessions m.queue).1
        (terminate-Each w.now m.active_sessions m.queue))
      (f, off)
