-- ===== src/Monitoring.antt =====
-- dispatcher/monitoring/: MonitoringSnapshot.hpp, MonitoringSnapshotBuilder.cpp and
-- MonitoringService.cpp, with the monitoring calls of dispatcher/session/SessionManager.cpp. JSON
-- and HTTP are the work of libraries: how a snapshot is printed is a parameter, and whether the
-- printing, or a provider, throws.
pub mod Cache
mod Examples
use Prim.Native.String.{String}
use task_messenger.Common.{
  ℕ, zero, suc, ◌+◌, ◌-◌, ◌/◌, ◌%◌, Bool, true, false, Option, none, some, List, [], ◌∷◌, map, ltb,
  leb, if◌then◌else◌, length, keep,
}
use task_messenger.Session.{Now, Session, SessionState, waiting_for_task, SessionStats}
use task_messenger.Manager.{Manager, RecentDisconnect, to_epoch_ms}
use task_messenger.Server.{TransportServer, Outside, maybe_run_maintenance}
use task_messenger.Rendezvous.Server.{Text}
use task_messenger.Rendezvous.Client.{Network}
use task_messenger.Rendezvous.Relay.{SnapshotReporter, report}

pub record WorkerMonitoringSnapshot : Type 0 where
  pub worker_node_id : ℕ
  pub session_id : ℕ
  pub remote_endpoint : String
  pub worker_state : SessionState
  pub stats : SessionStats
  pub last_seen_dispatcher_ts_ms : ℕ
  pub dispatcher_fresh : Bool

abbrev pub row_of : ℕ → ℕ → ℕ × Session → WorkerMonitoringSnapshot
row_of window now (id, s) = record {
  worker_node_id = s.worker_node_id;
  session_id = id;
  remote_endpoint = s.cached_remote_endpoint;
  worker_state = s.state;
  stats = s.stats;
  last_seen_dispatcher_ts_ms = to_epoch_ms s.last_seen_dispatcher;
  dispatcher_fresh = leb (now - s.last_seen_dispatcher) window;
}

-- A time that is still to come is fresh, as it is in signed numbers.
abbrev pub get_worker_monitoring_snapshot : ℕ → ℕ → Manager → List WorkerMonitoringSnapshot
get_worker_monitoring_snapshot window now m = map (row_of window now) m.active_sessions

-- 15 seconds in nanoseconds.
abbrev pub freshness_window : ℕ
freshness_window = 15_000_000_000

abbrev hex_digit : ℕ → ℕ
hex_digit d = if ltb d 10 then 48 + d else 87 + d

abbrev hex_from : ℕ → ℕ → Text → Text
hex_from zero n digits = digits
hex_from (suc w) n digits = hex_from w (n / 16) (hex_digit (n % 16) ∷ digits)

-- A number of 64 bits has at most 16 digits.
pub format_node_id_hex : ℕ → Text
format_node_id_hex n = hex_from 16 n []

pub record DispatcherMonitoringSnapshot : Type 0 where
  pub generator_id : Text
  pub dispatcher_node_id : Text
  pub listen_host : String
  pub listen_port : ℕ
  pub uptime_seconds : ℕ
  pub snapshot_timestamp_ms : ℕ
  pub generator_status : String
  pub worker_count : ℕ
  pub task_queue_size : ℕ
  pub workers_waiting : ℕ
  pub workers : List WorkerMonitoringSnapshot
  pub recent_disconnects : List RecentDisconnect

-- What a build reads of its surroundings. Its reads take one lock after the other: what other
-- threads do to the server before it reads the history, the length of the queue, and the state.
pub record Moment : Type 0 where
  pub outside : Outside
  pub before_history : TransportServer → TransportServer
  pub before_size : TransportServer → TransportServer
  pub before_state : TransportServer → TransportServer
  pub uptime : ℕ
  -- The node of the listening socket, where there is one.
  pub node_id : Option ℕ
  pub fails : Bool

-- The dispatcher's state as the service is told it, the options, and the printing.
pub record Providers : Type 0 where
  pub state_of : TransportServer → String
  pub host : Option String
  pub port : Option ℕ
  pub dump : DispatcherMonitoringSnapshot → Text

abbrev value_or {ℓ} : {A : Type ℓ} → Option A → A → A
value_or none a = a
value_or (some b) a = b

abbrev is_waiting_row : WorkerMonitoringSnapshot → Bool
is_waiting_row row = elim row.worker_state [ waiting_for_task ↦ true | _ ↦ false ]

abbrev snapshot_of :
    Providers
    → Moment
    → List WorkerMonitoringSnapshot
    → List RecentDisconnect
    → ℕ
    → String
    → DispatcherMonitoringSnapshot
snapshot_of p t workers disconnects size status =
    let node = format_node_id_hex (value_or t.node_id 0) in
    record {
      generator_id = 122 ∷ 116 ∷ 45 ∷ node;
      dispatcher_node_id = node;
      listen_host = value_or p.host "0.0.0.0";
      listen_port = value_or p.port 8080;
      uptime_seconds = t.uptime;
      snapshot_timestamp_ms = to_epoch_ms t.outside.around.now.system;
      generator_status = status;
      worker_count = length workers;
      task_queue_size = size;
      workers_waiting = length (keep is_waiting_row workers);
      workers = workers;
      recent_disconnects = disconnects;
    }

-- `build`: maintenance comes first, where it is due.
pub build : Providers → Moment → TransportServer → DispatcherMonitoringSnapshot × TransportServer
build p t s =
    let s1 = maybe_run_maintenance t.outside s in
    let s2 = t.before_history s1 in
    let s3 = t.before_size s2 in
    let s4 = t.before_state s3 in
    (
      snapshot_of p t
          (get_worker_monitoring_snapshot freshness_window t.outside.around.now.system s1.manager)
          s2.manager.recent_disconnects (length s3.manager.queue.tasks) (p.state_of s4),
      s4,
    )

-- The transport server is the dispatcher's.
pub record MonitoringService : Type 0 where
  pub running : Bool
  pub snapshot_interval_ms : ℕ
  pub snapshot_reporter : Option SnapshotReporter
  pub cached_snapshot_json : Option Text
  pub server : TransportServer

-- `start`, where the port can be bound or cannot.
abbrev pub start_monitoring : Option ℕ → Bool → MonitoringService → MonitoringService × Bool
start_monitoring interval binds m =
    if m.running
    then (m, true)
    else (record m { running = binds; snapshot_interval_ms = value_or interval 1000 }, binds)

abbrev pub stop_monitoring : MonitoringService → MonitoringService
stop_monitoring m = record m { running = false }

abbrev pub set_snapshot_reporter : Option SnapshotReporter → MonitoringService → MonitoringService
set_snapshot_reporter r m = record m { snapshot_reporter = r }

abbrev pub cache : Bool → Text → MonitoringService → Option Text × MonitoringService
cache true text m = (none, m)
cache false text m = (some text, record m { cached_snapshot_json = some text })

module _ (p : Providers) where
  -- Without a text where it throws.
  unfoldable pub build_and_cache_snapshot :
      Moment → MonitoringService → Option Text × MonitoringService
  build_and_cache_snapshot t m =
      let (snapshot, s) = build p t m.server in
      cache t.fails (p.dump snapshot) (record m { server = s })

  abbrev pub cached_or_built :
      Moment → Option Text → MonitoringService → Option Text × MonitoringService
  cached_or_built t (some text) m = (some text, m)
  cached_or_built t none m = build_and_cache_snapshot t m

  abbrev pub get_or_build_cached_snapshot :
      Moment → MonitoringService → Option Text × MonitoringService
  get_or_build_cached_snapshot t m = cached_or_built t m.cached_snapshot_json m

  -- "internal error\n".
  abbrev pub internal_error : Text
  internal_error =
      105 ∷ 110 ∷ 116 ∷ 101 ∷ 114 ∷ 110 ∷ 97 ∷ 108 ∷ 32 ∷ 101 ∷ 114 ∷ 114 ∷ 111 ∷ 114 ∷ 10 ∷ []

  abbrev pub answered : Option Text × MonitoringService → (ℕ × Text) × MonitoringService
  answered (some text, m) = ((200, text), m)
  answered (none, m) = ((500, internal_error), m)

  -- The handler of /api/monitor, with the handler of exceptions behind it.
  unfoldable pub handle_monitor : Moment → MonitoringService → (ℕ × Text) × MonitoringService
  handle_monitor t m = answered (get_or_build_cached_snapshot t m)

  abbrev pub relay :
      Network → Option SnapshotReporter → Option Text → MonitoringService → MonitoringService
  relay net (some r) (some text) m = record m { snapshot_reporter = some (report text net r).0 }
  relay net _ _ m = m

  abbrev pub forward : Network → Bool → Option Text × MonitoringService → Bool × MonitoringService
  forward net false (text, m) = (false, m)
  forward net true (text, m) = (true, relay net m.snapshot_reporter text m)

  -- The body of `report_loop`, and whether the loop goes on; `still` is what it reads of `running_`
  -- after it has waited.
  unfoldable pub report_turn :
      Moment → Bool → Network → MonitoringService → Bool × MonitoringService
  report_turn t still net m = forward net still (build_and_cache_snapshot t m)

  -- The waits of the loop, in milliseconds.
  abbrev pub report_interval : MonitoringService → ℕ
  report_interval m = if ltb 0 m.snapshot_interval_ms then m.snapshot_interval_ms else 1000

  -- What a turn reads of `running_` before it, and what it meets.
  abbrev pub Turn : Type 0
  Turn = Bool × Moment × Bool × Network

  pub report_loop : List Turn → MonitoringService → Option MonitoringService
  report_loop [] m = none
  report_loop ((running, t, still, net) ∷ turns) m =
      let (goes_on, m') = report_turn t still net m in
      let rest = report_loop turns m' in
      if running then if goes_on then rest else some m' else some m
