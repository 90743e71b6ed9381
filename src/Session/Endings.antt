-- ===== src/Session/Endings.antt =====
-- dispatcher/session/Session.cpp: how a session goes on after a fault, how it ends, and a whole
-- round of one task.
use task_messenger.Common.{ℕ, ◌+◌, ◌≡◌, refl, ◌≢◌, ◌⊎◌, true, false, some, List, [], ◌∷◌, arith}
use task_messenger.Message.{TaskHeader, TaskMessage}
use task_messenger.Session.{
  u32, terminated, error_state, waiting_for_task, transport_error, not_connected_reason,
  connection_reset_reason, connection_aborted_reason, bad_file_descriptor_reason, DisconnectReason,
  Frame, not_started, reading_greeting, awaiting_task, finished, writing_header, writing_payload,
  reading_header, reading_body, Session, Effect, requeues, is_done, is_completed, shuts_down_socket,
  closes_socket, Errc, not_connected, connection_reset, connection_aborted, bad_file_descriptor,
  other_error, is_working,
}
use task_messenger.Session.Coroutine.{Event, raised, io_failed, Around, task_of, dispatch, wake}
use task_messenger.Session.Accounting.{closes}

-- The reason that is recorded for a lost connection.
abbrev pub Reason : Errc → DisconnectReason → Type 0
Reason not_connected r = r ≡ not_connected_reason
Reason connection_reset r = r ≡ connection_reset_reason
Reason connection_aborted r = r ≡ connection_aborted_reason
Reason bad_file_descriptor r = r ≡ bad_file_descriptor_reason
Reason other_error r = r ≡ transport_error

dispatch-io_failed :
    (w : Around) (fr : Frame) (e : Errc) (s : Session) (task : TaskMessage)
    → task_of fr ≡ some task
    → let (s', effects) = dispatch w fr (io_failed e) s in
      (s'.frame ≡ finished)
      × ((e ≢ other_error × (s'.state ≡ terminated))
          ⊎ ((e ≡ other_error) × (s'.state ≡ error_state)))
      × Reason e s'.disconnect_reason
      × (s'.stats.tasks_failed ≡ u32 (s.stats.tasks_failed + 1))
      × (effects ≡ requeues task ∷ shuts_down_socket ∷ closes_socket ∷ [])
unfolding dispatch
dispatch-io_failed w (writing_header t start) e s task h = ground arith
dispatch-io_failed w (writing_payload t start) e s task h = ground arith
dispatch-io_failed w (reading_header t start) e s task h = ground arith
dispatch-io_failed w (reading_body t start r) e s task h = ground arith
dispatch-io_failed w not_started e s task h = absurd (cc)
dispatch-io_failed w reading_greeting e s task h = absurd (cc)
dispatch-io_failed w awaiting_task e s task h = absurd (cc)
dispatch-io_failed w finished e s task h = absurd (cc)

-- A step that ends the coroutine leaves a completed session, and has closed the socket.
abbrev Ends : Session × List Effect → Type 0
Ends (s, effects) = is_done s ≡ true → (is_completed s ≡ true) × (closes effects ≡ true)

module _ (w : Around) (ev : Event) (s : Session) where
  greeting-Ends : s.frame ≡ reading_greeting → Ends (dispatch w reading_greeting ev s)
  unfolding dispatch
  greeting-Ends e = ground arith

  task-Ends : s.frame ≡ awaiting_task → Ends (dispatch w awaiting_task ev s)
  unfolding dispatch
  task-Ends e = ground arith

  header-Ends :
      (t : TaskMessage) (start : ℕ)
      → s.frame ≡ writing_header t start
      → Ends (dispatch w (writing_header t start) ev s)
  unfolding dispatch
  header-Ends t start e = ground arith

  payload-Ends :
      (t : TaskMessage) (start : ℕ)
      → s.frame ≡ writing_payload t start
      → Ends (dispatch w (writing_payload t start) ev s)
  unfolding dispatch
  payload-Ends t start e = ground arith

  response-Ends :
      (t : TaskMessage) (start : ℕ)
      → s.frame ≡ reading_header t start
      → Ends (dispatch w (reading_header t start) ev s)
  unfolding dispatch
  response-Ends t start e = ground arith

  body-Ends :
      (t : TaskMessage) (start : ℕ) (r : TaskHeader)
      → s.frame ≡ reading_body t start r
      → Ends (dispatch w (reading_body t start r) ev s)
  unfolding dispatch
  body-Ends t start r e = ground arith

  dispatch-Ends : (fr : Frame) → s.frame ≡ fr → is_done s ≡ false → Ends (dispatch w fr ev s)
  dispatch-Ends not_started e n = unfold dispatch in ground arith
  dispatch-Ends finished e n = absurd (cc)
  dispatch-Ends reading_greeting e n = greeting-Ends e
  dispatch-Ends awaiting_task e n = task-Ends e
  dispatch-Ends (writing_header t start) e n = header-Ends t start e
  dispatch-Ends (writing_payload t start) e n = payload-Ends t start e
  dispatch-Ends (reading_header t start) e n = response-Ends t start e
  dispatch-Ends (reading_body t start r) e n = body-Ends t start r e

  -- A step that ends the coroutine leaves a completed session, and has closed the socket.
  pub wake_ends :
      is_done s ≡ false
      → is_done (wake w ev s).0 ≡ true
      → (is_completed (wake w ev s).0 ≡ true) × (closes (wake w ev s).1 ≡ true)
  unfolding wake
  wake_ends n d = dispatch-Ends s.frame refl n d

dispatch_serves_on :
    (w : Around) (fr : Frame) (s : Session) (task : TaskMessage)
    → task_of fr ≡ some task
    → is_working s.state ≡ true
    → w.is_open ≡ true
    → s.termination_requested ≡ false
    → let (s', effects) = dispatch w fr raised s in
      (s'.frame ≡ awaiting_task) × (s'.state ≡ waiting_for_task) × (effects ≡ requeues task ∷ [])
unfolding dispatch
dispatch_serves_on w (writing_header t start) s task h k o n = ground arith
dispatch_serves_on w (writing_payload t start) s task h k o n = ground arith
dispatch_serves_on w (reading_header t start) s task h k o n = ground arith
dispatch_serves_on w (reading_body t start r) s task h k o n = ground arith
dispatch_serves_on w not_started s task h k o n = absurd (cc)
dispatch_serves_on w reading_greeting s task h k o n = absurd (cc)
dispatch_serves_on w awaiting_task s task h k o n = absurd (cc)
dispatch_serves_on w finished s task h k o n = absurd (cc)

-- A lost connection ends the session and loses no task: the task goes back to the queue and counts
-- as failed, the reason says what happened, and the socket is closed. A connection error leaves
-- the session terminated, any other in the error state.
pub wake-io_failed :
    (w : Around) (e : Errc) (s : Session) (task : TaskMessage)
    → task_of s.frame ≡ some task
    → let (s', effects) = wake w (io_failed e) s in
      (s'.frame ≡ finished)
      × ((e ≢ other_error × (s'.state ≡ terminated))
          ⊎ ((e ≡ other_error) × (s'.state ≡ error_state)))
      × Reason e s'.disconnect_reason
      × (s'.stats.tasks_failed ≡ u32 (s.stats.tasks_failed + 1))
      × (effects ≡ requeues task ∷ shuts_down_socket ∷ closes_socket ∷ [])
unfolding wake
wake-io_failed w e s task h = dispatch-io_failed w s.frame e s task h

-- An exception that is no I/O error puts the task back and ends nothing, while the socket is open
-- and no termination was requested: the session waits for its next task.
pub wake-raised :
    (w : Around) (s : Session) (task : TaskMessage)
    → task_of s.frame ≡ some task
    → is_working s.state ≡ true
    → w.is_open ≡ true
    → s.termination_requested ≡ false
    → let (s', effects) = wake w raised s in
      (s'.frame ≡ awaiting_task) × (s'.state ≡ waiting_for_task) × (effects ≡ requeues task ∷ [])
unfolding wake
wake-raised w s task h k o n = dispatch_serves_on w s.frame s task h k o n
