-- ===== src/Server/Stopping.antt =====
-- dispatcher/transport/AsyncTransportServer.cpp: what stopping the server comes to.
use task_messenger.Common.{◌≡◌, refl, ap, ◌∙◌, true, false, List, [], ◌∷◌, ℕ, choose, if◌then◌else◌}
use task_messenger.Queue.{Waiter, drain_cancelled}
use task_messenger.Queue.Valid.{AllCancelled}
use task_messenger.Session.Coroutine.{Around}
use task_messenger.Manager.{Manager, terminate_all_sessions, cleanup_completed_sessions}
use task_messenger.Manager.Sweeps.{frames, cleanup_passes, terminate_all-Each, terminate_all_stays}
use task_messenger.Manager.Tokens.{IsStaffed, terminate_all-AllCancelled}
use task_messenger.Server.{
  TransportServer, Outside, stop, cleanup_closed_connections, shutdown_queue, resume_waiters,
  resume_waiter,
}

stop_running : (o : Outside) (s : TransportServer) → (stop o s).running ≡ false
unfolding stop cleanup_closed_connections
stop_running o s = refl

-- Nobody is resumed where all are cancelled.
resume_waiters_pass :
    (w : Around) (ws : List Waiter) (m : Manager)
    → AllCancelled m.queue.cancelled ws
    → resume_waiters w ws m ≡ m
unfolding resume_waiters
resume_waiters_pass w [] m h = refl
resume_waiters_pass w (x ∷ ws) m h =
    ap (λ b. resume_waiters w ws (if b then m else resume_waiter w x m)) h.0
    ∙ resume_waiters_pass w ws m h.1

-- What the shutdown of a queue leaves in which all are cancelled.
abbrev shut : Manager → Manager
shut m = record m { queue = record m.queue { is_shutdown = true; waiting_workers = [] } }

shutdown_passes :
    (w : Around) (m : Manager)
    → m.queue.is_shutdown ≡ false
    → AllCancelled m.queue.cancelled m.queue.waiting_workers
    → shutdown_queue w m ≡ shut m
unfolding shutdown_queue
shutdown_passes w m on h =
    choose m.queue.is_shutdown _ _ on ∙ resume_waiters_pass w m.queue.waiting_workers (shut m) h

-- The manager after `stop`.
stop_manager :
    (o : Outside) (s : TransportServer)
    → (stop o s).manager
      ≡ (cleanup_completed_sessions o.around o.liveness
          (shutdown_queue o.around (terminate_all_sessions o.around s.manager))).0
unfolding stop cleanup_closed_connections
stop_manager o s = refl

-- After `stop`, nothing listens or accepts and the queue is shut down with nobody in its line; but
-- each session is still there, and its coroutine is suspended where it was, whether it waited for
-- a task or for its socket. Each waiter of the queue is to be a session's, or cancelled already.
pub stop_strands :
    (o : Outside) (s : TransportServer)
    → s.manager.queue.is_shutdown ≡ false
    → IsStaffed s.manager
    → ((stop o s).running ≡ false)
      × ((stop o s).manager.queue.is_shutdown ≡ true)
      × ((stop o s).manager.queue.waiting_workers ≡ [])
      × (frames (stop o s).manager.active_sessions ≡ frames s.manager.active_sessions)
unfolding drain_cancelled
stop_strands o s on staffed =
    let t = terminate_all_sessions o.around s.manager in
    let (same, off) = terminate_all_stays o.around s.manager in
    let manager =
      stop_manager o s
      ∙ ap (λ m. (cleanup_completed_sessions o.around o.liveness m).0)
          (shutdown_passes o.around t (off ∙ on)
            (terminate_all-AllCancelled o.around s.manager staffed))
      ∙ ap (λ (p : Manager × ℕ). p.0)
          (cleanup_passes o.around o.liveness (shut t) (terminate_all-Each o.around s.manager)) in
    (
      stop_running o s,
      ap (λ (m : Manager). m.queue.is_shutdown) manager,
      ap (λ (m : Manager). m.queue.waiting_workers) manager,
      ap (λ (m : Manager). frames m.active_sessions) manager ∙ same,
    )
