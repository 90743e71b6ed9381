-- ===== src/Manager.antt =====
-- dispatcher/session/SessionManager.hpp and .cpp: the sessions of a dispatcher and their queue.
-- A session's token and the liveness of its socket come from outside. The map of sessions is an
-- association list: nothing here depends on its order but the order of the disconnect history.
pub mod Sweeps
pub mod Tokens
pub mod History
mod Examples
use Prim.Native.String.{String}
use task_messenger.Common.{
  ℕ, suc, ◌+◌, ◌/◌, Bool, true, false, Option, none, some, List, [], ◌∷◌, ltb, if◌then◌else◌,
  length, take, lookup, put,
}
use task_messenger.Message.{TaskMessage, empty_message}
use task_messenger.Queue.{
  Waiter, TaskQueue, find_waiter, cancel, cancel_and_resume_waiter, await_resume, drain_cancelled,
  add_tasks,
}
use task_messenger.Session.{
  u32, Now, Session, SessionStats, DisconnectReason, no_reason, remote_closed,
  connection_reset_reason, connection_aborted_reason, not_connected_reason,
  bad_file_descriptor_reason, greeting_read_failed, greeting_invalid, transport_error,
  local_termination, unknown, Liveness, new_session, run, is_active, is_completed,
  is_awaiting_teardown, request_termination, probe_connection_liveness,
}
use task_messenger.Session.Coroutine.{Around, task_ready, wake}

pub record RecentDisconnect : Type 0 where
  pub worker_node_id : ℕ
  pub session_id : ℕ
  pub remote_endpoint : String
  pub reason : String
  pub disconnected_ts_ms : ℕ

pub record Manager : Type 0 where
  pub next_session_id : ℕ
  pub active_sessions : List (ℕ × Session)
  pub recent_disconnects : List RecentDisconnect
  pub queue : TaskQueue

abbrev pub recent_disconnect_history_cap : ℕ
recent_disconnect_history_cap = 100

abbrev pub to_epoch_ms : ℕ → ℕ
to_epoch_ms ns = ns / 1_000_000

abbrev pub disconnect_reason_to_string : DisconnectReason → String
disconnect_reason_to_string no_reason = "none"
disconnect_reason_to_string remote_closed = "remote_closed"
disconnect_reason_to_string connection_reset_reason = "connection_reset"
disconnect_reason_to_string connection_aborted_reason = "connection_aborted"
disconnect_reason_to_string not_connected_reason = "not_connected"
disconnect_reason_to_string bad_file_descriptor_reason = "bad_file_descriptor"
disconnect_reason_to_string greeting_read_failed = "greeting_read_failed"
disconnect_reason_to_string greeting_invalid = "greeting_invalid"
disconnect_reason_to_string transport_error = "transport_error"
disconnect_reason_to_string local_termination = "local_termination"
disconnect_reason_to_string unknown = "unknown"

abbrev pub new_manager : TaskQueue → Manager
new_manager queue = record {
  next_session_id = 1;
  active_sessions = [];
  recent_disconnects = [];
  queue = queue;
}

-- A client socket is its endpoint, with the token that the new session makes.
pub create_session : Option (String × ℕ) → Now → Manager → Manager × ℕ
create_session none now m = (m, 0)
create_session (some (endpoint, token)) now m = (
  record m {
    next_session_id = u32 (m.next_session_id + 1);
    active_sessions =
        put m.next_session_id (run now (new_session m.next_session_id token endpoint now))
          m.active_sessions;
  },
  m.next_session_id,
)

abbrev pub terminate_found : ℕ → Now → Option Session → Manager → Manager × Bool
terminate_found id now none m = (m, false)
terminate_found id now (some s) m = (
  record m {
    active_sessions = put id (request_termination now s).0 m.active_sessions;
    queue = cancel s.cancel_token m.queue;
  },
  true,
)

pub terminate_session : ℕ → Now → Manager → Manager × Bool
terminate_session id now m = terminate_found id now (lookup id m.active_sessions) m

-- `cancel_queue_wait`: resuming the waiter is the last thing that `cancel_and_resume_waiter` does,
-- so the coroutine's step is taken after it, with what its awaitable holds.
abbrev pub resume_found : Around → Option Waiter → Session → TaskQueue → Session × TaskQueue
resume_found w none s q = (s, q)
resume_found w (some waiter) s q = elim waiter.awaiter [
  | none ↦ ((wake w (task_ready empty_message) s).0, q)
  | some a ↦ let (q', task) = await_resume a q in ((wake w (task_ready task) s).0, q')
]

pub cancel_queue_wait : Around → Session → TaskQueue → Session × TaskQueue
cancel_queue_wait w s q =
    resume_found w (find_waiter (some s.cancel_token) q.waiting_workers) s
      (cancel_and_resume_waiter (λ h r. r) (some s.cancel_token) q)

abbrev pub cancel_if_due : Around → Session → TaskQueue → Session × TaskQueue
cancel_if_due w s q = if is_awaiting_teardown s then cancel_queue_wait w s q else (s, q)

-- The loops over the sessions, which thread the queue.
pub over_sessions :
    (ℕ → Session → TaskQueue → Session × TaskQueue)
    → List (ℕ × Session)
    → TaskQueue
    → List (ℕ × Session) × TaskQueue
over_sessions f [] q = ([], q)
over_sessions f ((id, s) ∷ rest) q =
    let (s', q') = f id s q in let (rest', q'') = over_sessions f rest q' in ((id, s') ∷ rest', q'')

abbrev pub terminate_one : Now → ℕ → Session → TaskQueue → Session × TaskQueue
terminate_one now id s q = ((request_termination now s).0, cancel s.cancel_token q)

abbrev pub probe_one : Now → (ℕ → Liveness) → ℕ → Session → TaskQueue → Session × TaskQueue
probe_one now liveness id s q =
    let (s', effects, dead) = probe_connection_liveness now (liveness id) s in
    (s', if dead then cancel s.cancel_token q else q)

abbrev pub cancel_one : Around → ℕ → Session → TaskQueue → Session × TaskQueue
cancel_one w id s q = cancel_if_due w s q

pub terminate_all_sessions : Around → Manager → Manager
terminate_all_sessions w m =
    let (sessions, q) = over_sessions (terminate_one w.now) m.active_sessions m.queue in
    let (sessions', q') = over_sessions (cancel_one w) sessions q in
    record m { active_sessions = sessions'; queue = q' }

abbrev pub disconnect_of : Now → ℕ → Session → RecentDisconnect
disconnect_of now id s = record {
  worker_node_id = s.worker_node_id;
  session_id = id;
  remote_endpoint = s.cached_remote_endpoint;
  reason = disconnect_reason_to_string s.disconnect_reason;
  disconnected_ts_ms =
      to_epoch_ms (if ltb 0 s.disconnected_at then s.disconnected_at else now.system);
}

abbrev pub remember : RecentDisconnect → List RecentDisconnect → List RecentDisconnect
remember d ds =
    let all = d ∷ ds in
    if ltb recent_disconnect_history_cap (length all)
    then take recent_disconnect_history_cap all
    else all

-- The last loop of `cleanup_completed_sessions`: what stays, the history and the count.
pub sweep :
    Now
    → List (ℕ × Session)
    → List RecentDisconnect
    → List (ℕ × Session) × List RecentDisconnect × ℕ
sweep now [] ds = ([], ds, 0)
sweep now ((id, s) ∷ rest) ds =
    let (kept, ds', n) =
      sweep now rest (if is_completed s then remember (disconnect_of now id s) ds else ds) in
    if is_completed s then (kept, ds', suc n) else ((id, s) ∷ kept, ds', n)

pub cleanup_completed_sessions : Around → (ℕ → Liveness) → Manager → Manager × ℕ
cleanup_completed_sessions w liveness m =
    let (probed, q) = over_sessions (probe_one w.now liveness) m.active_sessions m.queue in
    let (resumed, q') = over_sessions (cancel_one w) probed q in
    let (kept, ds, n) = sweep w.now resumed m.recent_disconnects in
    (record m { active_sessions = kept; recent_disconnects = ds; queue = drain_cancelled q' }, n)

pub has_active_session : (ℕ → Bool) → ℕ → Manager → Bool
has_active_session is_open id m = elim (lookup id m.active_sessions) [
  | none ↦ false
  | some s ↦ is_active (is_open id) s
]

pub get_session_stats : ℕ → Manager → Option SessionStats
get_session_stats id m = elim (lookup id m.active_sessions) [ none ↦ none | some s ↦ some s.stats ]

pub enqueue_tasks : (ℕ → TaskQueue → TaskQueue) → List TaskMessage → Manager → Manager
enqueue_tasks resume [] m = m
enqueue_tasks resume (task ∷ tasks) m = record m { queue = add_tasks resume (task ∷ tasks) m.queue }
