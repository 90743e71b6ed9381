-- ===== src/Worker/RuntimeExamples.antt =====
-- worker/: the theorems at two tasks for a skill that echoes its request.
use task_messenger.Common.{◌≡◌, refl, true, false, none, some, List, [], ◌∷◌, arith}
use task_messenger.Session.{connection_reset, Now, Session, run, new_session, awaiting_task}
use task_messenger.Session.Coroutine.{Around, greeting_read, wake}
use task_messenger.Worker.Connecting.{connect, connected, decode_greeting}
use task_messenger.Worker.Welcome.{connect_welcomed}
use task_messenger.Transport.Blocking.{Stream}
use task_messenger.Skills.{Skill, SkillRegistry}
use task_messenger.Worker.Runtime.{returns, Runtime, run_loop}
use task_messenger.Worker.Serving.{Task, wire}
use task_messenger.Worker.Progress.{Finishes, run_loop-Finishes}
use task_messenger.Worker.Batch.{never, frames_of, tasks, responses, after_tasks, run_loop_serves}

abbrev echo : Skill
echo = record {
  skill_id = 7;
  skill_name = 101 ∷ 46 ∷ 101 ∷ [];
  create_response_buffer_for_request = λ request. some (record { bytes = request; skill_id = 7 });
  create_test_request_buffer = λ case_index. none;
  test_case_count = 0;
  verify_response = λ request response. true;
  process = λ request response. (true, request);
}

abbrev registry : SkillRegistry
registry = record { skills = (7, echo) ∷ []; name_to_id = (101 ∷ 46 ∷ 101 ∷ [], 7) ∷ [] }

abbrev first : Task
first = record { task_id = 1; skill_id = 7; payload = 4 ∷ 5 ∷ [] }

abbrev second : Task
second = record { task_id = 2; skill_id = 7; payload = [] }

abbrev pairs : List (Task × Task)
pairs = (first, first) ∷ (second, second) ∷ []

abbrev stream : Stream
stream = record {
  incoming = [];
  chunks = [];
  ends = true;
  read_fault = some connection_reset;
  write_fault = none;
  outgoing = [];
  takes = [];
  is_open = true;
}

abbrev runtime : Runtime
runtime = record {
  socket = some (wire stream (frames_of (tasks pairs)) []);
  pause_requested = true;
  disconnect_requested = false;
  tasks_completed = 5;
  bytes_sent = 0;
  bytes_received = 100;
}

run_loop_serves_example :
    run_loop registry never 3 runtime
    ≡ some (
      returns false,
      after_tasks pairs
          (wire stream [] (frames_of (responses pairs)))
          (record runtime { pause_requested = false }),
    )
run_loop_serves_example =
    run_loop_serves registry pairs 3 stream runtime connection_reset
      (
        ((omega arith, omega arith, omega arith), refl, omega arith),
        (((omega arith, omega arith, omega arith), refl, omega arith), tt),
      )
      (omega arith) refl refl refl

run_loop-Finishes_example : Finishes (run_loop registry never 100 runtime)
run_loop-Finishes_example =
    run_loop-Finishes registry never 100 (wire stream (frames_of (tasks pairs)) []) runtime refl
      (omega arith) refl

-- The stream takes the greeting in parts.
abbrev slow : Stream
slow = record stream { takes = 3 ∷ 7 ∷ 1 ∷ [] }

abbrev clock : Now
clock = record { steady = 100; system = 5_000_000 }

abbrev newcomer : Session
newcomer = run clock (new_session 1 9 "10.0.0.7:5" clock)

abbrev beside : Around
beside = record { now = clock; is_open = true; completion_throws = false }

connect_welcomed_example :
    (u : Stream) × (connect
        (some stream)
        (λ s. connected slow)
        77
        (record runtime { socket = none })
      ≡ (record runtime { socket = some u }, true))
    × (let d' = (wake beside (greeting_read (decode_greeting u.outgoing)) newcomer).0 in
        (d'.frame ≡ awaiting_task) × (d'.worker_node_id ≡ 77))
connect_welcomed_example =
    connect_welcomed (some stream) (λ s. connected slow) 77 (record runtime { socket = none })
      stream slow beside newcomer refl refl refl (omega arith, (omega arith, (omega arith, tt)))
      refl (omega arith) refl refl refl
