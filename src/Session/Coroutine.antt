-- ===== src/Session/Coroutine.antt =====
-- `run_coroutine` of dispatcher/session/Session.cpp.
use task_messenger.Common.{
  ℕ, ◌+◌, ◌-◌, Bool, true, false, Option, none, some, List, [], ◌∷◌, ◌++◌, ltb, ◌==◌, if◌then◌else◌,
  length,
}
use task_messenger.Message.{TaskHeader, TaskMessage, is_valid, payload_bytes}
use task_messenger.Session.{
  u32, u64, SessionState, active, waiting_for_task, processing_task, terminated, error_state,
  DisconnectReason, not_connected_reason, connection_reset_reason, connection_aborted_reason,
  bad_file_descriptor_reason, greeting_invalid, transport_error, unknown, Errc, not_connected,
  connection_reset, connection_aborted, bad_file_descriptor, other_error, WorkerGreeting,
  worker_greeting_magic, worker_greeting_version, Now, Frame, reading_greeting, awaiting_task,
  finished, writing_header, writing_payload, reading_header, reading_body, Session, Effect,
  requeues, completes, shuts_down_socket, closes_socket, update_state, mark_disconnected,
  record_task_sent, record_task_completed, record_task_failed, is_active,
}

-- What a suspended coroutine is resumed with. `raised` is an exception that is no system error.
pub data Event : Type 0 where
  greeting_read : WorkerGreeting → Event
  task_ready : TaskMessage → Event
  written raised : Event
  header_read : TaskHeader → Event
  body_read : List ℕ → Event
  io_failed : Errc → Event

-- What the step finds around it: the clocks, `is_open()` of the socket, and whether
-- `TaskMessage::complete` throws.
pub record Around : Type 0 where
  pub now : Now
  pub is_open : Bool
  pub completion_throws : Bool

abbrev pub header_size : ℕ
header_size = 12

abbrev finalize_session : Session → List Effect → Session × List Effect
finalize_session s effects =
    (record s { frame = finished }, effects ++ shuts_down_socket ∷ closes_socket ∷ [])

abbrev suspend_at : Frame → Session → List Effect → Session × List Effect
suspend_at frame s effects = (record s { frame = frame }, effects)

-- The test of the `while` loop, and what follows on either side up to the next suspension.
abbrev loop_top : Around → Session → List Effect → Session × List Effect
loop_top w s effects =
    if is_active w.is_open s
    then suspend_at awaiting_task (update_state waiting_for_task w.now s) effects
    else finalize_session (update_state terminated w.now s) effects

abbrev fail :
    Around → DisconnectReason → SessionState → Session → List Effect → Session × List Effect
fail w reason state s effects =
    finalize_session (update_state state w.now (mark_disconnected reason w.now s)) effects

abbrev on_greeting : Around → WorkerGreeting → Session → Session × List Effect
on_greeting w g s =
    if g.magic == worker_greeting_magic
    then if g.version == worker_greeting_version
      then loop_top w (update_state active w.now (record s { worker_node_id = g.node_id })) []
      else fail w greeting_invalid error_state s []
    else fail w greeting_invalid error_state s []

abbrev on_task : Around → TaskMessage → Session → Session × List Effect
on_task w task s =
    if is_valid task
    then suspend_at (writing_header task w.now.steady)
        (update_state processing_task w.now (record_task_sent w.now s)) []
    else finalize_session (update_state terminated w.now s) []

abbrev add_bytes_sent : ℕ → Session → Session
add_bytes_sent n s = record s {
  stats = record (s.stats) { bytes_sent = u64 (s.stats.bytes_sent + n) };
}

abbrev add_bytes_received : ℕ → Session → Session
add_bytes_received n s = record s {
  stats = record (s.stats) { bytes_received = u64 (s.stats.bytes_received + n) };
}

abbrev sent : TaskMessage → ℕ → Session → Session × List Effect
sent task start s =
    suspend_at (reading_header task start)
      (add_bytes_sent (header_size + length (payload_bytes task)) s) []

abbrev on_header_written : TaskMessage → ℕ → Session → Session × List Effect
on_header_written task start s = elim (payload_bytes task) [
  | [] ↦ sent task start s
  | _ ∷ _ ↦ suspend_at (writing_payload task start) s []
]

-- A task that was sent goes back to the queue.
abbrev give_back : Around → TaskMessage → Session → List Effect → Session × List Effect
give_back w task s effects = loop_top w (record_task_failed w.now s) (effects ++ requeues task ∷ [])

abbrev add_roundtrip : ℕ → Session → Session
add_roundtrip span s = record s {
  stats = record (s.stats) {
    total_task_roundtrip_time = u64 (s.stats.total_task_roundtrip_time + span);
    last_task_roundtrip_time = span;
    timed_tasks = u32 (s.stats.timed_tasks + 1);
  };
}

-- `task.complete`, if there is someone to tell; it may throw after it has told.
abbrev tell :
    Around → Option ℕ → TaskMessage → TaskHeader → List ℕ → Session → Session × List Effect
tell w none task response body s = loop_top w s []
tell w (some source) task response body s =
    if w.completion_throws
    then give_back w task s (completes task response body ∷ [])
    else loop_top w s (completes task response body ∷ [])

abbrev on_response :
    Around → TaskMessage → ℕ → TaskHeader → List ℕ → Session → Session × List Effect
on_response w task start response body s =
    let timed = update_state active w.now (add_roundtrip (w.now.steady - start) s) in
    if response.skill_id == task.header.skill_id
    then tell w task.completion_source task response body (record_task_completed w.now timed)
    else give_back w task timed []

abbrev on_header : Around → TaskMessage → ℕ → TaskHeader → Session → Session × List Effect
on_header w task start response s =
    let counted = add_bytes_received header_size s in
    if response.task_id == task.header.task_id
    then if ltb 0 response.body_size
      then suspend_at (reading_body task start response) counted []
      else on_response w task start response [] counted
    else give_back w task counted []

abbrev is_connection_error : Errc → Bool
is_connection_error other_error = false
is_connection_error _ = true

abbrev reason_of : Errc → DisconnectReason
reason_of not_connected = not_connected_reason
reason_of connection_reset = connection_reset_reason
reason_of connection_aborted = connection_aborted_reason
reason_of bad_file_descriptor = bad_file_descriptor_reason
reason_of other_error = transport_error

-- The two `catch` clauses of the loop, with the task that was acquired and is valid, if any.
abbrev return_task : Around → Option TaskMessage → Session → Session × List Effect
return_task w none s = (s, [])
return_task w (some task) s = (record_task_failed w.now s, requeues task ∷ [])

abbrev on_system_error : Around → Errc → Option TaskMessage → Session → Session × List Effect
on_system_error w e acquired s =
    let (s', effects) = return_task w acquired s in
    fail w (reason_of e) (if is_connection_error e then terminated else error_state) s' effects

abbrev on_exception : Around → Option TaskMessage → Session → Session × List Effect
on_exception w acquired s = let (s', effects) = return_task w acquired s in loop_top w s' effects

-- The task that a frame holds. It was valid when it was taken.
abbrev pub task_of : Frame → Option TaskMessage
task_of (writing_header task _) = some task
task_of (writing_payload task _) = some task
task_of (reading_header task _) = some task
task_of (reading_body task _ _) = some task
task_of _ = none

-- An event that does not fit the frame cannot happen, and changes nothing.
unfoldable pub dispatch : Around → Frame → Event → Session → Session × List Effect
dispatch w reading_greeting (greeting_read g) s = on_greeting w g s
dispatch w reading_greeting (io_failed e) s = fail w unknown error_state s []
dispatch w reading_greeting raised s = fail w unknown error_state s []
dispatch w awaiting_task (task_ready task) s = on_task w task s
dispatch w (writing_header task start) written s = on_header_written task start s
dispatch w (writing_payload task start) written s = sent task start s
dispatch w (reading_header task start) (header_read response) s = on_header w task start response s
dispatch w (reading_body task start response) (body_read body) s =
    on_response w task start response body (add_bytes_received (length body) s)
dispatch w (writing_header task start) (io_failed e) s = on_system_error w e (some task) s
dispatch w (writing_payload task start) (io_failed e) s = on_system_error w e (some task) s
dispatch w (reading_header task start) (io_failed e) s = on_system_error w e (some task) s
dispatch w (reading_body task start response) (io_failed e) s = on_system_error w e (some task) s
dispatch w (writing_header task start) raised s = on_exception w (some task) s
dispatch w (writing_payload task start) raised s = on_exception w (some task) s
dispatch w (reading_header task start) raised s = on_exception w (some task) s
dispatch w (reading_body task start response) raised s = on_exception w (some task) s
dispatch w _ _ s = (s, [])

unfoldable pub wake : Around → Event → Session → Session × List Effect
unfolding dispatch
wake w event s = dispatch w s.frame event s
