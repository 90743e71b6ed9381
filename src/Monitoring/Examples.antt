-- ===== src/Monitoring/Examples.antt =====
-- dispatcher/monitoring/: the theorems at a dispatcher with one worker and no task.
use task_messenger.Common.{◌≡◌, refl, true, false, none, some, List, [], ◌∷◌, ℕ}
use task_messenger.Session.{alive, run, new_session, waiting_for_task}
use task_messenger.Manager.{new_manager}
use task_messenger.Server.{TransportServer}
use task_messenger.Rendezvous.Client.{Network}
use task_messenger.Monitoring.{
  DispatcherMonitoringSnapshot, Providers, Moment, MonitoringService, build, handle_monitor,
  report_turn,
}
use task_messenger.Monitoring.Cache.{Call, ticks, asks, after_all, handle_monitor_latest}

abbrev at_time : ℕ → Moment
at_time t = record {
  outside = record {
    around = record {
      now = record { steady = t; system = t };
      is_open = true;
      completion_throws = false;
    };
    liveness = λ id. alive;
    is_open = λ c. true;
  };
  before_history = λ s. s;
  before_size = λ s. s;
  before_state = λ s. s;
  uptime = 1;
  node_id = some 0x1F;
  fails = false;
}

abbrev server : TransportServer
server = record {
  running = true;
  io = some 1;
  has_io_guard = true;
  response_ctx = record { running = true; pending = []; thread_count = 1 };
  drained = [];
  is_listening = true;
  listen_host = "0.0.0.0";
  listen_port = 8080;
  has_acceptor = true;
  last_maintenance_run = 0;
  active_connections = some 1 ∷ [];
  manager =
      record (new_manager (record {
        tasks = [];
        waiting_workers = record { handle = 1; awaiter = some 1; token = some 9 } ∷ [];
        is_shutdown = false;
        cancelled = λ t. false;
        results = [];
        submitted = [];
        taken = [];
      })) {
        active_sessions =
            (
              1,
              record (run (record { steady = 0; system = 0 })
                  (new_session 1 9 "10.0.0.7:5" (record { steady = 0; system = 0 }))) {
                    state = waiting_for_task;
                  },
            )
            ∷ [];
      };
}

-- A printing that shows the counts.
abbrev providers : Providers
providers = record {
  state_of = λ s. "running";
  host = none;
  port = some 9000;
  dump = λ (snapshot : DispatcherMonitoringSnapshot).
      snapshot.worker_count ∷ snapshot.task_queue_size ∷ snapshot.workers_waiting ∷ [];
}

abbrev service : MonitoringService
service = record {
  running = true;
  snapshot_interval_ms = 1000;
  snapshot_reporter = none;
  cached_snapshot_json = none;
  server = server;
}

abbrev nowhere : Network
nowhere = record { socket = none; cancelled_meanwhile = false; connect_error = none }

-- A request, and a turn that fails.
abbrev meanwhile : List Call
meanwhile =
    asks (at_time 600_000_000)
    ∷ ticks (record (at_time 1_500_000_000) { fails = true }) true nowhere
    ∷ []

handle_monitor_latest_example :
    let m' =
      after_all providers meanwhile
        (report_turn providers (at_time 500_000_000) true nowhere service).1 in
    handle_monitor providers (at_time 1_700_000_000) m'
    ≡ ((200, providers.dump (build providers (at_time 500_000_000) service.server).0), m')
handle_monitor_latest_example =
    handle_monitor_latest providers (at_time 500_000_000) (at_time 1_700_000_000) true nowhere
      meanwhile service refl (tt, (refl, tt))
