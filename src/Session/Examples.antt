-- ===== src/Session/Examples.antt =====
-- dispatcher/session/Session.cpp: the theorems at a worker that has just connected.
use task_messenger.Common.{◌≡◌, refl, ◌≢◌, ◌⊎◌, true, false, some, none, [], ◌∷◌, arith}
use task_messenger.Message.{TaskHeader, TaskMessage, empty_message}
use task_messenger.Session.{
  waiting_for_task, processing_task, terminated, error_state, finished, awaiting_task,
  reading_header, Session, requeues, completes, cancels_token, shuts_down_socket, closes_socket,
  Now, closed, connection_reset, other_error, new_session, run, is_completed, is_active,
  is_awaiting_teardown, request_termination, probe_connection_liveness,
}
use task_messenger.Session.Coroutine.{
  task_ready, written, header_read, body_read, io_failed, Around, wake,
}
use task_messenger.Session.Accounting.{Balanced, wake-Balanced, Fate, wake-Fate}
use task_messenger.Session.Endings.{Reason, wake-io_failed}
use task_messenger.Session.Teardown.{probe_reaps, request_termination_strands}
use task_messenger.Session.Round.{serve, serve_round}

abbrev noon : Now
noon = record { steady = 100; system = 5000 }

abbrev around : Around
around = record { now = noon; is_open = true; completion_throws = false }

abbrev connected : Session
connected = run noon (new_session 1 9 "10.0.0.7:5" noon)

abbrev waiting : Session
waiting = record connected { state = waiting_for_task; frame = awaiting_task }

abbrev task : TaskMessage
task = record {
  header = record { task_id = 7; body_size = 2; skill_id = 3 };
  payload_buffer = some (record { bytes = 1 ∷ 2 ∷ []; skill_id = 3 });
  response_buffer = none;
  completion_source = some 4;
}

abbrev answer : TaskHeader
answer = record { task_id = 7; body_size = 1; skill_id = 3 }

-- The task has been sent, and its answer is awaited.
abbrev busy : Session
busy = record waiting {
  state = processing_task;
  stats = record (waiting.stats) { tasks_sent = 1 };
  frame = reading_header task 100;
}

wake-Balanced_example : Balanced (wake around (header_read (record answer { task_id = 8 })) busy).0
wake-Balanced_example =
    wake-Balanced around (header_read (record answer { task_id = 8 })) busy refl refl

wake-Fate_example : Fate task busy (wake around (header_read (record answer { task_id = 8 })) busy)
wake-Fate_example =
    wake-Fate around (header_read (record answer { task_id = 8 })) busy task refl refl

probe_reaps_example :
    let (s', effects, found) = probe_connection_liveness noon closed waiting in
    (found ≡ true)
    × (effects ≡ cancels_token ∷ shuts_down_socket ∷ [])
    × (is_awaiting_teardown s' ≡ true)
    × (is_completed (wake around (task_ready empty_message) s').0 ≡ true)
probe_reaps_example = probe_reaps around closed waiting refl refl (λ e. cc)

request_termination_strands_example :
    let s' = (request_termination noon waiting).0 in
    (is_completed s' ≡ false)
    × (is_awaiting_teardown s' ≡ false)
    × (is_active true s' ≡ false)
    × (waiting.frame ≡ awaiting_task
        → is_completed (wake around (task_ready empty_message) s').0 ≡ true)
request_termination_strands_example = request_termination_strands around waiting

wake-io_failed_example :
    let (s', effects) = wake around (io_failed connection_reset) busy in
    (s'.frame ≡ finished)
    × ((connection_reset ≢ other_error × (s'.state ≡ terminated))
        ⊎ ((connection_reset ≡ other_error) × (s'.state ≡ error_state)))
    × Reason connection_reset s'.disconnect_reason
    × (s'.stats.tasks_failed ≡ 1)
    × (effects ≡ requeues task ∷ shuts_down_socket ∷ closes_socket ∷ [])
wake-io_failed_example = wake-io_failed around connection_reset busy task refl

serve_round_example :
    let (s', effects) =
      serve around
        (task_ready task ∷ written ∷ written ∷ header_read answer ∷ body_read (5 ∷ []) ∷ [])
        waiting in
    (s'.frame ≡ awaiting_task)
    × (effects ≡ completes task answer (5 ∷ []) ∷ [])
    × (s'.stats.tasks_sent ≡ 1)
    × (s'.stats.tasks_completed ≡ 1)
    × (s'.stats.tasks_failed ≡ 0)
    × (s'.stats.bytes_sent ≡ 14)
    × (s'.stats.bytes_received ≡ 13)
serve_round_example =
    serve_round around waiting task answer 1 (2 ∷ []) (5 ∷ []) 4 refl refl refl refl refl
      (omega arith) refl refl refl refl
