-- ===== src/Server/Examples.antt =====
-- dispatcher/transport/AsyncTransportServer.cpp: the theorems at a server with two workers.
use task_messenger.Common.{
  ℕ, ◌+◌, ◌*◌, ◌≤◌, ◌≡◌, refl, true, false, some, List, [], ◌∷◌, arith, inl, inr,
}
use task_messenger.Session.{alive, waiting_for_task, awaiting_task, run, new_session}
use task_messenger.Manager.{new_manager}
use task_messenger.Manager.Sweeps.{frames}
use task_messenger.Server.{TransportServer, Outside, stop}
use task_messenger.Server.Maintenance.{maintain, maintain_throttled}
use task_messenger.Server.Stopping.{stop_strands}

abbrev at_time : ℕ → Outside
at_time t = record {
  around = record {
    now = record { steady = t; system = t };
    is_open = true;
    completion_throws = false;
  };
  liveness = λ id. alive;
  is_open = λ c. false;
}

abbrev listening : TransportServer
listening = record {
  running = true;
  io = some 1;
  has_io_guard = true;
  response_ctx = record { running = true; pending = []; thread_count = 1 };
  drained = [];
  is_listening = true;
  listen_host = "0.0.0.0";
  listen_port = 8080;
  has_acceptor = true;
  last_maintenance_run = 0;
  active_connections = some 1 ∷ [];
  manager =
      record (new_manager (record {
        tasks = [];
        waiting_workers = record { handle = 1; awaiter = some 1; token = some 9 } ∷ [];
        is_shutdown = false;
        cancelled = λ t. false;
        results = [];
        submitted = [];
        taken = [];
      })) {
        active_sessions =
            (
              1,
              record (run (record { steady = 0; system = 0 })
                  (new_session 1 9 "10.0.0.7:5" (record { steady = 0; system = 0 }))) {
                    state = waiting_for_task;
                    frame = awaiting_task;
                  },
            )
            ∷ [];
      };
}

-- Three calls within a second and a half.
abbrev calls : List Outside
calls = at_time 1_000_000_000 ∷ at_time 1_200_000_000 ∷ at_time 1_500_000_000 ∷ []

maintain_throttled_example : 0 + (maintain calls listening).1 * 1_000_000_000 ≤ 1_500_000_000
maintain_throttled_example =
    maintain_throttled calls listening 1_500_000_000 (omega arith)
      (omega arith, (omega arith, (omega arith, tt)))

stop_strands_example :
    ((stop (at_time 5) listening).running ≡ false)
    × ((stop (at_time 5) listening).manager.queue.is_shutdown ≡ true)
    × ((stop (at_time 5) listening).manager.queue.waiting_workers ≡ [])
    × (frames (stop (at_time 5) listening).manager.active_sessions ≡ awaiting_task ∷ [])
stop_strands_example = stop_strands (at_time 5) listening refl (inr (inl refl), tt)
