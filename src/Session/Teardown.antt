-- ===== src/Session/Teardown.antt =====
-- dispatcher/session/Session.cpp: greeting, probing and termination.
use task_messenger.Common.{◌≡◌, ◌≢◌, ◌⊎◌, true, false, [], ◌∷◌, arith}
use task_messenger.Message.{empty_message}
use task_messenger.Session.{
  waiting_for_task, greeting_invalid, reading_greeting, awaiting_task, Session, is_completed,
  is_awaiting_teardown, is_active, cancels_token, shuts_down_socket, worker_greeting_magic,
  worker_greeting_version, WorkerGreeting, request_termination, Liveness, alive,
  probe_connection_liveness,
}
use task_messenger.Session.Coroutine.{greeting_read, task_ready, Around, dispatch, wake}

-- A session takes a worker on exactly if the greeting has the right magic and version. Else it
-- ends as completed, with the reason that the greeting is invalid.
pub wake_greeting :
    (w : Around) (g : WorkerGreeting) (s : Session)
    → s.frame ≡ reading_greeting
    → w.is_open ≡ true
    → s.termination_requested ≡ false
    → let s' = (wake w (greeting_read g) s).0 in
      ((g.magic ≡ worker_greeting_magic)
        × (g.version ≡ worker_greeting_version)
        × (s'.frame ≡ awaiting_task)
        × (s'.worker_node_id ≡ g.node_id))
      ⊎ (((g.magic ≢ worker_greeting_magic) ⊎ (g.version ≢ worker_greeting_version))
          × (is_completed s' ≡ true)
          × (s'.disconnect_reason ≡ greeting_invalid))
unfolding wake dispatch
wake_greeting w g s e o n = ground arith

-- A dead connection of a waiting session is found by the probe: the session is then due for
-- teardown, its token is cancelled, and once its coroutine is resumed with no task it is completed.
pub probe_reaps :
    (w : Around) (liveness : Liveness) (s : Session)
    → s.frame ≡ awaiting_task
    → s.state ≡ waiting_for_task
    → liveness ≢ alive
    → let (s', effects, found) = probe_connection_liveness w.now liveness s in
      (found ≡ true)
      × (effects ≡ cancels_token ∷ shuts_down_socket ∷ [])
      × (is_awaiting_teardown s' ≡ true)
      × (is_completed (wake w (task_ready empty_message) s').0 ≡ true)
unfolding probe_connection_liveness wake dispatch
probe_reaps w liveness s fr st d = ground arith

-- After a request to terminate, a session is neither completed nor due for teardown, whatever it was
-- before, so that neither of the manager's two sweeps picks it up. What would end it is that its
-- coroutine is resumed: waiting for a task, it is completed then.
pub request_termination_strands :
    (w : Around) (s : Session)
    → let s' = (request_termination w.now s).0 in
      (is_completed s' ≡ false)
      × (is_awaiting_teardown s' ≡ false)
      × (is_active w.is_open s' ≡ false)
      × (s.frame ≡ awaiting_task → is_completed (wake w (task_ready empty_message) s').0 ≡ true)
unfolding request_termination wake dispatch
request_termination_strands w s = (ground arith, ground arith, ground arith, λ e. ground arith)
